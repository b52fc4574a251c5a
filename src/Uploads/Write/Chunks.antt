-- ===== src/Uploads/Write/Chunks.antt =====
-- A `WriteObject` stream that sends the bytes of an object in pieces, some of them again.
use storage_testbench.Base.{
  reach, take-slice-reach, take_all, drop-slice, take, slice, length-take, slice-zero, ℕ, ◌≤◌, Bool,
  true, false, ◌||◌, ltb, none, some, List, [], ◌∷◌, ◌≡◌, refl, ap, ◌∙◌, Text, length,
  if◌then◌else◌, arith, Bool-cases, inl, inr, lookup,
}
use storage_testbench.Errors.{grpc, ok}
use storage_testbench.Database.State.{Database, Bucket, Blob, Upload}
use storage_testbench.Database.Objects.{insert_object}
use storage_testbench.Database.Access.{get_bucket, check_bucket, bucket_key}
use storage_testbench.Instructions.{get_retry_uploads_error_after_bytes, read_next}
use storage_testbench.Media.{Bytes}
use storage_testbench.Blobs.{Codecs}
use storage_testbench.Blobs.Create.{Clock, init_object}
use storage_testbench.Uploads.Write.{
  First, no_first, write_object_spec, Spec, Data, Message, Stream, set_upload, with_upload,
  take_first, take_checksums, new_content, check_data, inject_fault, take_data, take_message,
  take_messages, init_first_write, note_checksums, init_write_object, finish_object, write_loop,
  write_object, resource, start, save, on_database,
}

-- The bytes of the whole from `begin` to `end`, with their checksum or without.
abbrev pub piece : (Bytes → ℕ) → Bytes → ℕ → ℕ → Bool → Data
piece crc32c whole begin end stated = record {
  content = slice begin end whole;
  crc32c = if stated then some (crc32c (slice begin end whole)) else none;
}

abbrev pub message : (Bytes → ℕ) → Bytes → First → ℕ → ℕ → Bool → Bool → Message
message crc32c whole first begin end stated finish = record {
  first_message = first;
  object_checksums = none;
  checksummed = some (piece crc32c whole begin end stated);
  write_offset = begin;
  finish_write = finish;
}

-- Messages that leave no gap: each begins at or before the first byte that has not arrived.
pub data Sends (crc32c : Bytes → ℕ) (whole : Bytes) : ℕ → List Message → ℕ → Type 0 where
  sent : {p : ℕ} → Sends crc32c whole p [] p
  send :
      {p q : ℕ} {ms : List Message} (begin end : ℕ) (stated finish : Bool)
      → begin ≤ p
      → end ≤ length whole
      → Sends crc32c whole (reach p end) ms q
      → Sends crc32c whole p (message crc32c whole no_first begin end stated finish ∷ ms) q

unfoldable pub finishes : List Message → Bool
finishes [] = false
finishes (m ∷ ms) = m.finish_write || finishes ms

-- The upload when the first `p` bytes have arrived.
abbrev pub arrived : Bytes → ℕ → Bool → Upload → Upload
arrived whole p done u = record u { media = take p whole; complete = done }

module _ (crc32c : Bytes → ℕ) (whole : Bytes) (p begin end : ℕ) (low : begin ≤ p)
    (high : p ≤ length whole) where
  abbrev content : Bytes
  content = slice begin end whole

  kept : new_content begin (take p whole) content ≡ ok (slice p end whole)
  unfolding new_content
  kept =
      let size : length (take p whole) ≡ p = length-take p whole high in
      elim (Bool-cases (ltb begin p)) [
        | inl again ↦ rw (size, again, drop-slice begin p end whole low) refl
        | inr next ↦ let same : begin ≡ p = ground arith in rw size (rw (next, same) (ground arith))
      ]

  -- One message, in a stream that no fault is injected in.
  take_message-piece :
      (new_id : Text) (stated finish done : Bool) (u : Upload) (x : Stream)
      → take_message crc32c none new_id
          (message crc32c whole no_first begin end stated finish)
          (set_upload (arrived whole p done u) x)
        ≡ (ok tt, set_upload (arrived whole (reach p end) (finish || done) u) x)
  unfolding take_message take_first take_checksums take_data check_data inject_fault with_upload
      set_upload on_database get_retry_uploads_error_after_bytes read_next
  take_message-piece new_id stated finish done u x =
      ground (arith, kept, take-slice-reach p end whole)

-- A stream that leaves no gap and that no fault is injected in: the upload has the bytes of the whole up to the
-- last one sent, however they are cut and whatever is sent again.
pub take_messages-Sends :
    (crc32c : Bytes → ℕ) (whole : Bytes) (new_id : Text) (u : Upload) (x : Stream) (done : Bool)
    {p q : ℕ} {ms : List Message}
    → p ≤ length whole
    → Sends crc32c whole p ms q
    → take_messages crc32c none new_id ms (set_upload (arrived whole p done u) x)
      ≡ (ok tt, set_upload (arrived whole q (finishes ms || done) u) x)
unfolding take_messages finishes
take_messages-Sends crc32c whole new_id u x done high sent = refl
take_messages-Sends crc32c whole new_id u x done {p} {q} high
      (send {ms = ms} begin end stated finish low inside more) =
    rw (take_message-piece crc32c whole p begin end low high new_id stated finish done u x) (
      take_messages-Sends crc32c whole new_id u x (finish || done) (ground arith) more
      ∙ ap (λ b. (ok tt, set_upload (arrived whole q b u) x)) (ground arith))

-- The first message of a stream that creates an object.
take_message-first :
    (crc32c : Bytes → ℕ) (whole : Bytes) (new_id : Text) (spec : Spec) (end : ℕ)
    (stated finish : Bool) (b : Bucket) (s : Database)
    → lookup spec.bucket_name s.buckets ≡ some b
    → take_message crc32c none new_id
        (message crc32c whole (write_object_spec spec) 0 end stated finish)
        (start s)
      ≡ (ok tt, set_upload (arrived whole end finish (init_first_write new_id spec)) (start s))
unfolding take_message take_first take_checksums take_data check_data inject_fault with_upload
    set_upload on_database save get_retry_uploads_error_after_bytes read_next get_bucket
    check_bucket bucket_key new_content init_first_write
take_message-first crc32c whole new_id spec end stated finish b s is_bucket =
    ground (arith, slice-zero end whole)

module _ (lib : Codecs) (clock : Clock) (new_id : Text) (spec : Spec) (whole : Bytes) (end : ℕ)
    (stated finish : Bool) (ms : List Message) (b : Bucket) (s : Database)
    (is_bucket : lookup spec.bucket_name s.buckets ≡ some b) (inside : end ≤ length whole)
    (more : Sends lib.crc32c whole end ms (length whole))
    (finished : (finishes ms || finish) ≡ true) where
  -- The upload behind the loop.
  abbrev sent_upload : Upload
  sent_upload = record (note_checksums lib none (init_first_write new_id spec)) {
    media = whole;
    complete = true;
  }

  abbrev messages : List Message
  messages = message lib.crc32c whole (write_object_spec spec) 0 end stated finish ∷ ms

  init_write_object-Sends :
      init_write_object lib none new_id messages (start s)
      ≡ (ok sent_upload, set_upload sent_upload (start s))
  unfolding init_write_object take_messages note_checksums with_upload set_upload
  init_write_object-Sends =
      rw
        (
          take_message-first lib.crc32c whole new_id spec end stated finish b s is_bucket,
          take_messages-Sends lib.crc32c whole new_id (init_first_write new_id spec) (start s)
              finish inside more,
        )
        (rw (take_all whole, finished) refl)

  -- `WriteObject` from end to end, for a stream of which each message brings data, with the CRC-32C of the
  -- data or with none, and no message has `object_checksums`: if it names a bucket that is there, sends all
  -- bytes without a gap and has `finish_write` in one of them, with no fault injected, it creates
  -- the object that `Object.init` makes of the whole, and answers with it; if `Object.init` and the
  -- insertion raise nothing.
  pub write_object-Sends :
      (blob : Blob) (s' : Database)
      → init_object lib clock spec.origin
          (note_checksums lib none (init_first_write new_id spec)).metadata
          whole
          grpc
        ≡ ok blob
      → insert_object spec.bucket_name blob grpc spec.origin.preconditions s ≡ (ok tt, s')
      → write_object lib clock none new_id messages s ≡ (ok (resource blob), s')
  unfolding write_object write_loop finish_object on_database set_upload save note_checksums
      init_first_write
  write_object-Sends blob s' made inserted = rw init_write_object-Sends (rw made (rw inserted refl))
