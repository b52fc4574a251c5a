-- ===== src/Downloads/Read/Streams.antt =====
-- The responses of `ReadObject` together are the bytes that were asked for.
use storage_testbench.Base.{
  ℕ, zero, suc, ◌+◌, ◌-◌, ◌%◌, ◌≤◌, ◌<◌, min, Bool, true, false, ◌==◌, leb, ltb, Option, none, some,
  List, [], ◌∷◌, ◌++◌, Text, slice, slice-slice, length-slice, length, ℤ, pos, negsuc, ◌≡◌, refl,
  ap, ◌∙◌, sym, arith, Bool-cases, inl, inr, ++-nil, take, drop, length-drop, if◌then◌else◌,
}
use storage_testbench.Errors.{grpc, grpc_abort, StatusCode, ok}
use storage_testbench.Database.State.{Database, Blob}
use storage_testbench.Database.Objects.{get_object}
use storage_testbench.Database.RetryTests.{dequeue_next_instruction}
use storage_testbench.Media.{Bytes, chunks, concat, concat-chunks}
use storage_testbench.Downloads.Read.{
  ReadRequest, ReadResponse, Head, no_head, is_due, read_start, read_end, read_range,
  broken_stream_after, stream, stream_end, stream_range, break_stream, read_object, read_method,
}

-- The bytes of the responses.
unfoldable pub contents : List ReadResponse → Bytes
contents [] = []
contents (r ∷ rs) = r.content ++ contents rs

module _ (crc32c : Bytes → ℕ) (broken : ℕ) (media : Bytes) where
  -- Without a fault, whatever stands behind an empty end.
  stream-intact :
      (cs : List Bytes) (position : ℕ) (head : Head) (behind : Head → List ReadResponse × Bool)
      → broken ≡ 0
      → ((h : Head) → (contents (behind h).0 ≡ []) × ((behind h).1 ≡ false))
      → (contents (stream crc32c broken media cs position head behind).0 ≡ concat cs)
        × ((stream crc32c broken media cs position head behind).1 ≡ false)
  unfolding stream contents concat
  stream-intact [] position head behind intact ending = ending head
  stream-intact (c ∷ cs) position head behind intact ending =
      let (rest_of, unbroken) =
        stream-intact cs (position + length c) no_head behind intact ending in
      let undue : is_due crc32c broken media (position + length c) ≡ false = ground arith in
      rw undue (ap (λ r. c ++ r) rest_of, unbroken)

  -- With a fault that is due before the end.
  stream-broken :
      (fuel position end size : ℕ) (head : Head) (behind : Head → List ReadResponse × Bool)
      → 0 < size
      → end - position ≤ fuel
      → position < end
      → end ≤ length media
      → 0 < broken
      → broken ≤ end
      → (contents
            (stream crc32c broken media
              (chunks fuel media position end size)
              position
              head
              behind).0
          ≡ slice position broken media)
        × ((stream crc32c broken media (chunks fuel media position end size) position head behind).1
            ≡ true)
  unfolding stream contents chunks
  stream-broken zero position end size head behind positive enough some_bytes inside due early =
      absurd (omega arith)
  stream-broken (suc fuel) position end size head behind positive enough some_bytes inside due
        early =
      let stop = min (position + size) end in
      let more : ltb position end ≡ true = ground arith in
      let here : position + length (slice position stop media) ≡ stop =
        ground (arith, length-slice position stop media) in
      rw (more, here)
        (elim (Bool-cases (leb broken stop)) [
          | inl now ↦
              let is_now : is_due crc32c broken media stop ≡ true = ground arith in
              rw is_now (++-nil (slice position broken media), refl)
          | inr later ↦
              let not_now : is_due crc32c broken media stop ≡ false = ground arith in
              let (rest_of, breaks) =
                stream-broken fuel stop end size no_head behind positive (ground arith)
                  (ground arith) inside due early in
              rw not_now (
                ap (λ r. slice position stop media ++ r) rest_of
                    ∙ slice-slice position stop broken media (ground arith) (ground arith),
                breaks,
              )
        ])

-- The metadata of the first response.
unfoldable pub first_metadata : List ReadResponse → Option Blob
first_metadata [] = none
first_metadata (r ∷ rs) = r.metadata

module _ (crc32c : Bytes → ℕ) (media : Bytes) (size start end : ℕ) (head : Head)
    (chunked : 0 < size) (ordered : start ≤ end) (inside : end ≤ length media) where
  stream_end-empty :
      (h : Head)
      → (contents (stream_end crc32c 0 media size start end h).0 ≡ [])
        × ((stream_end crc32c 0 media size start end h).1 ≡ false)
  unfolding stream_end contents
  stream_end-empty h = elim (Bool-cases ((end - start) % size == 0)) [
    | inl whole ↦ rw whole (refl, refl)
    | inr rest_of ↦ rw rest_of (refl, refl)
  ]

  stream_range-intact :
      (contents (stream_range crc32c 0 media size start end head).0 ≡ slice start end media)
      × ((stream_range crc32c 0 media size start end head).1 ≡ false)
  unfolding stream_range
  stream_range-intact =
      let (same, unbroken) =
        stream-intact crc32c 0 media (chunks (end - start) media start end size) start head
          (stream_end crc32c 0 media size start end) refl stream_end-empty in
      (same ∙ concat-chunks (end - start) media start end size chunked (omega arith), unbroken)

  -- An empty range too has a response.
  first_metadata-stream :
      (fuel : ℕ)
      → end - start ≡ fuel
      → first_metadata
          (stream crc32c 0 media
            (chunks fuel media start end size)
            start
            head
            (stream_end crc32c 0 media size start end)).0
        ≡ head.metadata
  unfolding stream stream_end chunks first_metadata
  first_metadata-stream zero e =
      let whole : ((end - start) % size == 0) ≡ true = ground arith in rw whole refl
  first_metadata-stream (suc fuel) e =
      let more : ltb start end ≡ true = ground arith in rw more refl

-- The last `n` bytes, or all if there are not as many.
unfoldable pub last_bytes : ℕ → Bytes → Bytes
last_bytes n [] = []
last_bytes n (b ∷ bs) =
    let rest = last_bytes n bs in if ltb n (suc (length bs)) then rest else b ∷ bs

-- What a request asks for: the bytes from an offset on, which counts from the end if it is negative, and
-- of them the first ones, as many as a positive limit says.
abbrev pub from_offset : ℤ → Bytes → Bytes
from_offset (pos n) media = drop n media
from_offset (negsuc n) media = last_bytes (suc n) media

abbrev pub up_to_limit : ℤ → Bytes → Bytes
up_to_limit (pos (suc n)) bs = take (suc n) bs
up_to_limit (pos zero) bs = bs
up_to_limit (negsuc n) bs = bs

drop-last_bytes : (n : ℕ) (bs : Bytes) → drop (length bs - n) bs ≡ last_bytes n bs
unfolding last_bytes drop
drop-last_bytes n [] = ground arith
drop-last_bytes n (b ∷ bs) = elim (Bool-cases (ltb n (suc (length bs)))) [
  | inl more ↦
      let e : suc (length bs) - n ≡ suc (length bs - n) = ground arith in
      rw (more, e) (drop-last_bytes n bs)
  | inr enough ↦ let e : suc (length bs) - n ≡ 0 = ground arith in rw (enough, e) refl
]

take_beyond : (n : ℕ) (bs : Bytes) → length bs ≤ n → take n bs ≡ bs
unfolding take
take_beyond zero [] e = refl
take_beyond zero (b ∷ bs) e = absurd (omega arith)
take_beyond (suc n) [] e = refl
take_beyond (suc n) (b ∷ bs) e = ap (λ r. b ∷ r) (take_beyond n bs (omega arith))

drop-from_offset :
    (offset : ℤ) (media : Bytes)
    → drop (read_start offset (length media)) media ≡ from_offset offset media
unfolding read_start
drop-from_offset (pos n) media = refl
drop-from_offset (negsuc n) media = drop-last_bytes (suc n) media

slice-up_to_limit :
    (limit : ℤ) (start : ℕ) (media : Bytes)
    → start ≤ length media
    → slice start (read_end limit start (length media)) media ≡ up_to_limit limit (drop start media)
unfolding read_end
slice-up_to_limit (pos zero) start media low =
    take_beyond _ _ (ground (arith, length-drop start media))
slice-up_to_limit (pos (suc n)) start media low =
    elim (Bool-cases (ltb (start + suc n) (length media))) [
      | inl short ↦
          let e : min (length media) (start + suc n) - start ≡ suc n = ground arith in
          ap (λ k. take k (drop start media)) e
      | inr long ↦
          take_beyond _ _ (ground (arith, length-drop start media))
          ∙ sym (take_beyond (suc n) _ (ground (arith, length-drop start media)))
    ]
slice-up_to_limit (negsuc n) start media low =
    take_beyond _ _ (ground (arith, length-drop start media))

-- A negative offset is never behind the end.
read_start-within :
    (offset : ℤ) (size : ℕ) → ((n : ℕ) → offset ≡ pos n → n ≤ size) → read_start offset size ≤ size
unfolding read_start
read_start-within (pos n) size low = low n refl
read_start-within (negsuc n) size low = omega arith

read_end-within :
    (limit : ℤ) (start size : ℕ)
    → start ≤ size
    → (start ≤ read_end limit start size) × (read_end limit start size ≤ size)
unfolding read_end
read_end-within (pos zero) start size low = (low, omega arith)
read_end-within (pos (suc n)) start size low = (omega arith, omega arith)
read_end-within (negsuc n) start size low = (low, omega arith)

break_stream-intact :
    (t : Option Text) (p : List ReadResponse × Bool) (s : Database)
    → p.1 ≡ false
    → break_stream t p s ≡ (ok (p.0, none), s)
unfolding break_stream
break_stream-intact t (responses, false) s e = refl
break_stream-intact t (responses, true) s e = ground arith

break_stream-broken :
    (test_id : Text) (p : List ReadResponse × Bool) (i : Option Text) (s s' : Database)
    → p.1 ≡ true
    → dequeue_next_instruction test_id read_method s ≡ (ok i, s')
    → break_stream (some test_id) p s
      ≡ (ok (p.0, some (grpc_abort (some StatusCode.unavailable))), s')
unfolding break_stream
break_stream-broken test_id (responses, false) i s s' e dequeued = ground arith
break_stream-broken test_id (responses, true) i s s' e dequeued = rw dequeued refl

module _ (crc32c : Bytes → ℕ) (size : ℕ) (r : ReadRequest) (blob : Blob) (s : Database)
    (chunked : 0 < size)
    (readable : get_object r.bucket r.object grpc (some r.generation) r.preconditions s
      ≡ (ok (some blob), s)) where
  abbrev from : ℕ
  from = read_start r.read_offset (length blob.media)

  abbrev to : ℕ
  to = read_end r.read_limit from (length blob.media)

  abbrev head : Head
  head = record { metadata = some blob; content_range = read_range r from to (length blob.media) }

  read_object-stream :
      (broken : ℕ)
      → broken_stream_after r.test_id s ≡ (ok broken, s)
      → from ≤ length blob.media
      → read_object crc32c size r s
        ≡ break_stream r.test_id (stream_range crc32c broken blob.media size from to head) s
  unfolding read_object
  read_object-stream broken asked low =
      let satisfiable : ltb (length blob.media) from ≡ false = ground arith in
      rw readable (rw satisfiable (rw asked refl))

  -- `ReadObject` of an object that is found, without a retry test: if the offset is not behind the end of the
  -- object, the contents of the responses together are its bytes from the offset on, or as many at its end
  -- as a negative offset says, and of these all, or the first ones, as many as a positive limit says;
  -- whatever the (positive) size of the chunks. The first response has the metadata, even where there are no
  -- bytes; and the database is left alone.
  pub read_object-intact :
      r.test_id ≡ none
      → ((n : ℕ) → r.read_offset ≡ pos n → n ≤ length blob.media)
      → (responses : List ReadResponse) × (read_object crc32c size r s ≡ (ok (responses, none), s))
        × (contents responses ≡ up_to_limit r.read_limit (from_offset r.read_offset blob.media))
        × (first_metadata responses ≡ some blob)
  unfolding broken_stream_after stream_range
  read_object-intact no_test offset_within =
      let low = read_start-within r.read_offset (length blob.media) offset_within in
      let asked_for : slice from to blob.media
          ≡ up_to_limit r.read_limit (from_offset r.read_offset blob.media) =
        slice-up_to_limit r.read_limit from blob.media low
        ∙ ap (up_to_limit r.read_limit) (drop-from_offset r.read_offset blob.media) in
      let (ordered, inside) = read_end-within r.read_limit from (length blob.media) low in
      let (same, unbroken) =
        stream_range-intact crc32c blob.media size from to head chunked ordered inside in
      let responses = (stream_range crc32c 0 blob.media size from to head).0 in
      (
        responses,
        read_object-stream 0 (rw no_test refl) low ∙ break_stream-intact r.test_id _ s unbroken,
        same ∙ asked_for,
        first_metadata-stream crc32c blob.media size from to head chunked ordered inside (to - from)
            refl,
      )

  -- `ReadObject` with a broken stream, of an object that is found: where the instruction of the retry test
  -- breaks it within a range that is not empty, or before it, the contents of the responses together are
  -- the bytes up to the break, none if it is before the range; the stream is aborted with `UNAVAILABLE`, and
  -- the instruction is taken from its queue.
  pub read_object-broken :
      (test_id : Text) (broken : ℕ) (i : Option Text) (s' : Database)
      → r.test_id ≡ some test_id
      → broken_stream_after (some test_id) s ≡ (ok broken, s)
      → dequeue_next_instruction test_id read_method s ≡ (ok i, s')
      → from < to
      → to ≤ length blob.media
      → 0 < broken
      → broken ≤ to
      → (responses : List ReadResponse) × (read_object crc32c size r s
          ≡ (ok (responses, some (grpc_abort (some StatusCode.unavailable))), s'))
        × (contents responses ≡ slice from broken blob.media)
  unfolding stream_range
  read_object-broken test_id broken i s' tested asked dequeued some_bytes inside due early =
      let (same, breaks) =
        stream-broken crc32c broken blob.media (to - from) from to size head
          (stream_end crc32c broken blob.media size from to) chunked (omega arith) some_bytes inside
          due early in
      let responses = (stream_range crc32c broken blob.media size from to head).0 in
      (
        responses,
        read_object-stream broken (rw tested asked) (omega arith)
            ∙ ap (λ t. break_stream t (stream_range crc32c broken blob.media size from to head) s)
                tested
            ∙ break_stream-broken test_id _ i s s' breaks dequeued,
        same,
      )
