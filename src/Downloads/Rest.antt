-- ===== src/Downloads/Rest.antt =====
-- `rest_media` of gcs/object.py, and the branch of `object_get` of testbench/rest_server.py that calls it.
-- The delays of the faults, and the headers that come from `content_type` and `content_disposition`, are not
-- modelled.
pub mod Ranges
use storage_testbench.Base.{
  ℕ, zero, suc, ◌+◌, ◌-◌, min, Bool, true, false, not, ◌&&◌, ◌||◌, ◌==◌, leb, ltb, Option, none,
  some, List, [], ◌∷◌, ◌++◌, Text, codes, text_eq, starts_with, slice, length, ℤ, pos, negsuc,
  int_eq, if◌then◌else◌,
}
use storage_testbench.Errors.{
  Context, rest, Error, rest_exception, invalid, range_not_satisfiable, Result, ok, err, pure, lift,
  raise_if, ◌>>=◌, ◌>>◌,
}
use storage_testbench.Database.State.{Blob, Encryption, ObjectPrecondition}
use storage_testbench.Database.Access.{Action}
use storage_testbench.Database.Buckets.{or_none_type}
use storage_testbench.Database.Objects.{get_object}
use storage_testbench.Instructions.{Piece, literal, group, match_pieces, strip, is_digit, to_int}
use storage_testbench.Media.{Bytes, chunks, concat}
use storage_testbench.Blobs.{Codecs}
use storage_testbench.Blobs.Checksums.{rest_crc32c_from_proto, rest_md5_from_proto}
use storage_testbench.Blobs.Keys.{validation}
use storage_testbench.Blobs.Create.{corrupt_media}
use storage_testbench.Uploads.Resumable.{read_digits}

-- a - b
unfoldable pub int_sub : ℕ → ℕ → ℤ
int_sub a b = if leb b a then pos (a - b) else negsuc (b - a - 1)

-- i + n
unfoldable pub int_add : ℤ → ℕ → ℤ
int_add (pos m) n = pos (m + n)
int_add (negsuc m) n = int_sub n (suc m)

-- max(0, i)
unfoldable pub not_below_zero : ℤ → ℕ
not_below_zero (pos n) = n
not_below_zero (negsuc n) = 0

-- max(0, -i)
abbrev below_zero : ℤ → ℕ
below_zero (pos n) = 0
below_zero (negsuc n) = suc n

abbrev pub int_ltb : ℤ → ℕ → Bool
int_ltb (pos m) n = ltb m n
int_ltb (negsuc m) n = true

-- min(i, n)
abbrev int_min : ℤ → ℕ → ℤ
int_min (pos m) n = pos (min m n)
int_min (negsuc m) n = negsuc m

abbrev int_bound : ℤ → ℕ → ℕ
int_bound (pos n) size = n
int_bound (negsuc n) size = size - suc n

-- `b[i:j]`, where a bound below 0 counts from the end
unfoldable pub int_slice : ℤ → ℤ → Bytes → Bytes
int_slice i j b = slice (int_bound i (length b)) (int_bound j (length b)) b

-- `bytes=([0-9]+)-([0-9]+)`; what stands behind does not matter.
unfoldable pub match_closed : Text → Option (ℕ × ℕ)
unfolding strip read_digits
match_closed header = elim (strip (codes "bytes=") header) [
  | none ↦ none
  | some t ↦ elim (read_digits t) [
    | none ↦ none
    | some (first, behind) ↦ elim (strip (codes "-") behind) [
      | none ↦ none
      | some u ↦ elim (read_digits u) [ none ↦ none | some (last, _) ↦ some (first, last) ]
    ]
  ]
]

-- `bytes=([0-9]+)-$`
abbrev pub open_range : List Piece
open_range = literal (codes "bytes=") ∷ group is_digit ∷ literal (codes "-") ∷ []

-- `bytes=-([0-9]+)$`
abbrev pub suffix_range : List Piece
suffix_range = literal (codes "bytes=-") ∷ group is_digit ∷ []

-- The range by the matches of the three expressions, the last one that matches.
unfoldable pub choose_range : ℕ → Option (List Text) → Option (List Text) → Option (ℕ × ℕ) → ℤ × ℕ
unfolding to_int int_sub
choose_range size (some (last ∷ groups)) _ _ = (int_sub size (to_int 0 last), size)
choose_range size _ (some (first ∷ groups)) _ = (pos (to_int 0 first), size)
choose_range size _ _ (some (first, last)) = (pos first, min (last + 1) size)
choose_range size _ _ none = (pos 0, size)

-- `_download_range`: the begin, which may be below 0, and the end
unfoldable pub download_range : Option Text → ℕ → ℤ × ℕ
unfolding match_closed match_pieces choose_range
download_range none size = (pos 0, size)
download_range (some header) size =
    choose_range size (match_pieces suffix_range header) (match_pieces open_range header)
      (match_closed header)

pub record MediaRequest : Type 0 where
  pub range : Option Text
  -- empty if it is not there
  pub accept_encoding : Text
  pub instruction : Option Text

-- The headers of an answer: `content_range` is its begin, its last byte and the length.
pub record MediaHeaders : Type 0 where
  pub content_range : ℤ × ℤ × ℕ
  pub gunzipped : Bool
  pub goog_hash : Text
  pub generation : ℕ
  pub metageneration : ℕ
  pub storage_class : Text
  pub stored_content_length : ℕ
  pub content_length : ℤ
  pub stored_content_encoding : Option Text
  pub content_encoding : Option Text

-- An answer: its body, piece by piece, and the error that breaks it off.
pub record MediaResponse : Type 0 where
  pub status : ℕ
  pub headers : Option MediaHeaders
  pub body : List Bytes
  pub failure : Option Error

-- `s in t`
unfoldable pub is_within : Text → Text → Bool
is_within s [] = starts_with [] s
is_within s (c ∷ t) = starts_with (c ∷ t) s || is_within s t

-- `_decompress_on_download`
unfoldable pub decompress_on_download : MediaRequest → Blob → Bool
unfolding is_within
decompress_on_download r o =
    text_eq o.content_encoding (codes "gzip") && not (is_within (codes "gzip") r.accept_encoding)

-- `x_goog_hash_header`
unfoldable pub x_goog_hash_header : Codecs → Blob → Text
unfolding rest_crc32c_from_proto rest_md5_from_proto
x_goog_hash_header lib o =
    let crc32c = codes "crc32c=" ++ rest_crc32c_from_proto lib o.crc32c in
    elim o.md5_hash [
      | [] ↦ crc32c
      | b ∷ md5 ↦ crc32c ++ (codes ",md5=" ++ rest_md5_from_proto lib (b ∷ md5))
    ]

-- The streamers that break the connection: chunks of `size` bytes, up to the first that begins at `limit`.
unfoldable pub break_at : ℕ → Bytes → ℕ → ℕ → ℕ → ℕ → List Bytes × Option Error
break_at zero payload position size limit code = ([], none)
break_at (suc fuel) payload position size limit code =
    let (body, failure) = break_at fuel payload (position + size) size limit code in
    if ltb position (length payload)
    then if leb limit position
      then ([], some (rest_exception code))
      else (slice position (min (position + size) (length payload)) payload ∷ body, failure)
    else ([], none)

-- The streamers that stall.
unfoldable pub stall_chunks : ℕ → Bytes → ℤ → ℕ → ℕ → List Bytes
unfolding int_add int_slice
stall_chunks zero payload position end size = []
stall_chunks (suc fuel) payload position end size =
    let body = stall_chunks fuel payload (int_add position size) end size in
    if int_ltb position end
    then int_slice position (int_min (int_add position size) end) payload ∷ body
    else []

-- `DOWNLOAD_CHUNK_SIZE`
abbrev pub download_chunk_size : ℕ
download_chunk_size = 131072

abbrev starts_one_of : Text → Text → Text → Bool
starts_one_of i a b = starts_with i a || starts_with i b

abbrev ends_with : Text → Text → Bool
ends_with t s = text_eq (slice (length t - length s) (length t) t) s

-- What an instruction makes of the answer: a body under the headers, or an answer without them.
pub data Served : Type 0 where
  streamed : List Bytes → Option Error → Served
  refused : Served
  plain : Served

abbrev broken_off : List Bytes × Option Error → Served
broken_off (body, failure) = streamed body failure

-- The choice of the streamer; `normal` is the body without a fault.
unfoldable pub serve : Option Text → ℤ → ℕ → Bytes → List Bytes → ℕ → Served
unfolding break_at stall_chunks corrupt_media
serve none begin end payload normal letter = streamed normal none
serve (some i) begin end payload normal letter =
    let stalled = streamed (stall_chunks (end + below_zero begin) payload begin end 16384) none in
    if text_eq i (codes "return-broken-stream")
    then broken_off (break_at (length payload) payload 0 65536 1048576 500)
    else if text_eq i (codes "return-corrupted-data")
    then streamed (corrupt_media letter payload ∷ []) none
    else if starts_with i (codes "stall-always")
    then stalled
    else if text_eq i (codes "stall-at-256KiB") && int_eq begin 0
    then stalled
    else if starts_one_of i (codes "return-503-after-256K") (codes "break-after-256K")
    then if int_eq begin 0
      then broken_off (break_at (length payload) payload 0 4096 262144 503)
      else if ends_with i (codes "/retry-1") || ends_with i (codes "/retry-2")
      then refused
      else plain
    else streamed normal none

module _ (lib : Codecs) (gunzip : Bytes → List Bytes) where
  -- `begin`, `end` and `length`
  unfoldable pub served_range : MediaRequest → Blob → ℤ × ℕ × ℕ
  unfolding download_range decompress_on_download concat
  served_range r o =
      if decompress_on_download r o
      then (pos 0, length (concat (gunzip o.media)), length (concat (gunzip o.media)))
      else (
        (download_range r.range (length o.media)).0,
        (download_range r.range (length o.media)).1,
        length o.media,
      )

  unfoldable pub media_headers : MediaRequest → Blob → ℤ → ℕ → ℕ → MediaHeaders
  unfolding decompress_on_download x_goog_hash_header int_sub not_below_zero
  media_headers r o begin end size =
      let transcoded = decompress_on_download r o in
      let encoding : Option Text = elim o.content_encoding [ [] ↦ none | c ∷ t ↦ some (c ∷ t) ] in
      record {
        content_range = (begin, int_sub end 1, size);
        gunzipped = transcoded;
        goog_hash = x_goog_hash_header lib o;
        generation = o.generation;
        metageneration = o.metageneration;
        storage_class = o.storage_class;
        stored_content_length = o.size;
        content_length = if transcoded then pos end else int_sub end (not_below_zero begin);
        stored_content_encoding = encoding;
        content_encoding = if transcoded then none else encoding;
      }

  -- The body without a fault: `_stream_transcode` or `_stream_media`.
  unfoldable pub normal_body : MediaRequest → Blob → ℤ → ℕ → List Bytes
  unfolding decompress_on_download chunks not_below_zero
  normal_body r o begin end =
      if decompress_on_download r o
      then gunzip o.media
      else chunks (end - not_below_zero begin) o.media (not_below_zero begin) end
          download_chunk_size

  -- 206, if there is a range and it is not transcoded
  unfoldable pub media_status : MediaRequest → Blob → ℕ
  unfolding decompress_on_download
  media_status r o = elim r.range [
    | none ↦ 200
    | some [] ↦ 200
    | some (_ ∷ _) ↦ if decompress_on_download r o then 200 else 206
  ]

  abbrev answer_media : ℕ → MediaHeaders → Bytes → Served → MediaResponse
  answer_media status headers payload (streamed body failure) = record {
    status = status;
    headers = some headers;
    body = body;
    failure = failure;
  }
  answer_media status headers payload refused = record {
    status = 503;
    headers = none;
    body = codes "Service Unavailable" ∷ [];
    failure = none;
  }
  answer_media status headers payload plain = record {
    status = 200;
    headers = none;
    body = payload ∷ [];
    failure = none;
  }

  abbrev has_range : Option Text → Bool
  has_range none = false
  has_range (some _) = true

  -- `rest_media`, with the letter that `random.sample` draws
  unfoldable pub rest_media : MediaRequest → Blob → ℕ → Result MediaResponse
  unfolding serve
  rest_media r o letter =
      let (begin, end, size) = served_range r o in
      let payload = if decompress_on_download r o then concat (gunzip o.media) else o.media in
      if has_range r.range && not (int_ltb begin size)
      then err (range_not_satisfiable rest)
      else ok (
          answer_media (media_status r o) (media_headers r o begin end size) payload
            (serve r.instruction begin end payload (normal_body r o begin end) letter))

  -- `object_get` with `alt=media`
  unfoldable pub object_get_media :
      Text
      → Text
      → Option ℕ
      → List ObjectPrecondition
      → Bool
      → Encryption
      → MediaRequest
      → ℕ
      → Action MediaResponse
  object_get_media bucket_name object_name generation preconditions soft_deleted encryption r
        letter =
      do
        raise_if soft_deleted (invalid rest)
        o ← or_none_type (← get_object bucket_name object_name rest generation preconditions)
        lift (validation lib encryption o.key_sha256 rest)
        lift (rest_media r o letter)
