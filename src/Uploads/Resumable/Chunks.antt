-- ===== src/Uploads/Resumable/Chunks.antt =====
-- A resumable upload over REST whose requests send the bytes of an object in order, some of them again.
use storage_testbench.Base.{
  ℕ, suc, ◌+◌, ◌-◌, ◌≤◌, ◌<◌, Bool, true, false, not, ◌&&◌, ◌||◌, ◌==◌, leb, Option, none, some,
  List, [], ◌∷◌, ◌++◌, Text, Dict, slice, take, drop, take_all, drop-slice, take_longer, reach,
  take-slice-reach, length-take, length, lookup, insert, lookup-insert, insert-insert, text_eq_iff,
  if◌then◌else◌, ◌≡◌, ◌⊎◌, refl, ap, ◌∙◌, arith, Bool-cases, inl, inr,
}
use storage_testbench.Errors.{rest, ok, Exec, pure, gets, ◌>>=◌}
use storage_testbench.Database.State.{Database, Blob, Upload, ObjectPrecondition}
use storage_testbench.Database.Access.{Action, get_bucket_for_object, get_live_generation}
use storage_testbench.Database.Objects.{insert_object, commit_object}
use storage_testbench.Database.Folders.{get_upload}
use storage_testbench.Instructions.{
  get_retry_uploads_error_after_bytes, get_stall_uploads_after_bytes, read_next,
}
use storage_testbench.Media.{Bytes}
use storage_testbench.Uploads.{Session, extend}
use storage_testbench.Blobs.{Codecs}
use storage_testbench.Blobs.Create.{Clock, init_object}
use storage_testbench.Uploads.Resumable.{
  from_to, content_range_split, ChunkRequest, ChunkAnswer, completed, created, incomplete,
  resumable_status_rest, apply_final_checksums, last_byte_persisted, new_bytes, in_database,
  note_request, set_complete, inject_faults, finish_upload, take_bytes, take_request,
  resumable_upload_chunk,
}

-- The part of a piece that is behind the bytes that have arrived.
slice-resent :
    (begin p end : ℕ) (whole : Bytes)
    → begin ≤ p
    → slice (p - begin) end (slice begin end whole) ≡ slice p end whole
slice-resent begin p end whole low =
    ap (take (end - (p - begin))) (drop-slice begin p end whole low)
    ∙ take_longer (end - (p - begin)) (end - p) (drop p whole) (omega arith)

-- What a request adds that begins at or before the first byte that has not arrived. Behind the first byte
-- alone, a request that begins with it again would add it again.
new_bytes-slice :
    (p begin end : ℕ) (whole : Bytes)
    → begin ≤ p
    → p ≤ length whole
    → (p ≡ 1 → begin ≡ 1)
    → take p whole
        ++ new_bytes (last_byte_persisted (take p whole)) begin end (slice begin end whole)
      ≡ take (reach p end) whole
unfolding new_bytes last_byte_persisted
new_bytes-slice p begin end whole low high one =
    let size : length (take p whole) ≡ p = length-take p whole high in
    rw size (elim (Bool-cases (leb p 1)) [
      | inl start ↦
          let same : begin ≡ p = ground arith in
          let nothing : (if p == 0 then 0 else p - 1) ≡ 0 = ground arith in
          rw (nothing, same) (take-slice-reach p end whole)
      | inr on ↦
          let some_bytes : (if p == 0 then 0 else p - 1) ≡ p - 1 = ground arith in
          let more : (p - 1 == 0) ≡ false = ground arith in
          rw (some_bytes, more)
            (elim (Bool-cases (leb begin (p - 1))) [
              | inl again ↦
                  let places : p - 1 - begin + 1 ≡ p - begin = ground arith in
                  rw (again, places, slice-resent begin p end whole low)
                    (take-slice-reach p end whole)
              | inr next ↦
                  let same : begin ≡ p = ground arith in
                  rw next (rw same (take-slice-reach p end whole))
            ])
    ])

-- A request for the bytes from `begin` to `last` of the whole, without a fault.
pub record Brings (whole : Bytes) (begin last : ℕ) (r : ChunkRequest) : Type 0 where
  pub brought : r.content ≡ slice begin (suc last) whole
  pub length_stated : r.content_length ≡ some (length r.content)
  pub header : Text
  pub ranged : r.content_range ≡ some header
  pub split : content_range_split header ≡ some (from_to begin (some last), some (length whole))
  pub no_test : r.test_id ≡ none
  pub no_instruction : r.instruction ≡ none

-- Requests that leave no gap: each begins at or before the first byte that has not arrived, and the last one
-- brings the last byte.
pub data Delivers (whole : Bytes) : ℕ → List ChunkRequest → ChunkRequest → Type 0 where
  ends :
      {p : ℕ} (begin last : ℕ) (r : ChunkRequest)
      → begin ≤ p
      → (p ≡ 1 → begin ≡ 1)
      → suc last ≡ length whole
      → Brings whole begin last r
      → Delivers whole p (r ∷ []) r
  goes_on :
      {p : ℕ} {rs : List ChunkRequest} {final : ChunkRequest} (begin last : ℕ) (r : ChunkRequest)
      → begin ≤ p
      → (p ≡ 1 → begin ≡ 1)
      → suc last < length whole
      → Brings whole begin last r
      → Delivers whole (reach p (suc last)) rs final
      → Delivers whole p (r ∷ rs) final

inject_faults-none :
    (r : ChunkRequest) (persisted first chunk_end : ℕ) (x : Session)
    → r.test_id ≡ none
    → r.instruction ≡ none
    → inject_faults r persisted first chunk_end x ≡ (ok tt, x)
unfolding inject_faults in_database get_retry_uploads_error_after_bytes
    get_stall_uploads_after_bytes read_next
inject_faults-none r persisted first chunk_end x e e' = rw (e, e') refl

-- The upload when the first `p` bytes have arrived.
abbrev pub arrived : Bytes → ℕ → Upload → Upload
arrived whole p u = record u { media = take p whole; complete = false }

module _ (lib : Codecs) (clock : Clock) (bucket_name : Text) where
  -- The client: it sends its requests until one is answered with an object.
  unfoldable pub send_chunks : Text → List ChunkRequest → Action (Option Blob)
  send_chunks upload_id [] = pure none
  send_chunks upload_id (r ∷ rs) = do
    answer ← resumable_upload_chunk lib clock bucket_name (some upload_id) r
    elim answer [
      | completed ↦ pure none
      | created blob ↦ pure (some blob)
      | incomplete last overridden ↦ send_chunks upload_id rs
    ]

  -- What a request does behind its bytes.
  abbrev settled : ChunkRequest → Bool → Exec Session ChunkAnswer
  settled r complete =
      if complete
      then finish_upload lib clock bucket_name r.hash (note_request r)
      else gets (λ x. resumable_status_rest r.no_308 x.upload)

  take_request-Brings :
      (whole : Bytes) (p begin last : ℕ) (r : ChunkRequest) (u : Upload) (s : Database)
      → begin ≤ p
      → p < length whole
      → (p ≡ 1 → begin ≡ 1)
      → suc last ≤ length whole
      → (u.origin.content_length ≡ 0) ⊎ (u.origin.content_length ≡ length whole)
      → Brings whole begin last r
      → take_request lib clock bucket_name r (record { upload = arrived whole p u; database = s })
        ≡ settled r (suc last == length whole) (record {
          upload = record u {
            media = take (reach p (suc last)) whole;
            complete = suc last == length whole;
          };
          database = s;
        })
  unfolding take_request take_bytes extend set_complete
  take_request-Brings whole p begin last r u s low high one inside stated b =
      let full : (length r.content == length r.content) ≡ true = ground arith in
      let agrees : (not (u.origin.content_length == 0)
            && not (u.origin.content_length == length whole))
          ≡ false =
        ground arith in
      let size : length (take (reach p (suc last)) whole) ≡ reach p (suc last) =
        length-take (reach p (suc last)) whole (ground arith) in
      let ended : (length whole == reach p (suc last) || suc last == length whole)
          ≡ (suc last == length whole) =
        ground arith in
      rw (b.length_stated, full, b.ranged, b.split, agrees)
        (rw
          (inject_faults-none r (last_byte_persisted (take p whole)) begin (suc last)
            (record { upload = arrived whole p u; database = s }) b.no_test b.no_instruction)
          (rw (b.brought, new_bytes-slice p begin (suc last) whole low (omega arith) one)
            (rw (size, ended) refl)))

insert_object-uploads :
    (bucket_name : Text) (blob : Blob) (preconditions : List ObjectPrecondition)
    (uploads : Dict Upload) (s s' : Database)
    → insert_object bucket_name blob rest preconditions s ≡ (ok tt, s')
    → insert_object bucket_name blob rest preconditions (record s { uploads = uploads })
      ≡ (ok tt, record s' { uploads = uploads })
unfolding insert_object get_bucket_for_object get_live_generation commit_object
insert_object-uploads bucket_name blob preconditions uploads s s' e = ground arith

lookup-inserted : (k : Text) (u : Upload) (d : Dict Upload) → lookup k (insert k u d) ≡ some u
lookup-inserted k u d = ground (arith, lookup-insert k k u d, text_eq_iff k k)

module _ (lib : Codecs) (clock : Clock) (bucket_name upload_id : Text) (whole : Bytes) (u : Upload)
    (s : Database)
    (stated : (u.origin.content_length ≡ 0) ⊎ (u.origin.content_length ≡ length whole)) where
  -- The database when the first `p` bytes have arrived.
  abbrev at : ℕ → Database
  at p = record s { uploads = insert upload_id (arrived whole p u) s.uploads }

  resumable_upload_chunk-more :
      (p begin last : ℕ) (r : ChunkRequest)
      → begin ≤ p
      → p < length whole
      → (p ≡ 1 → begin ≡ 1)
      → suc last < length whole
      → Brings whole begin last r
      → resumable_upload_chunk lib clock bucket_name (some upload_id) r (at p) ≡ (
        ok (resumable_status_rest r.no_308 (arrived whole (reach p (suc last)) u)),
        at (reach p (suc last)),
      )
  unfolding resumable_upload_chunk get_upload
  resumable_upload_chunk-more p begin last r low high one short b =
      let open_still : (suc last == length whole) ≡ false = ground arith in
      rw (lookup-inserted upload_id (arrived whole p u) s.uploads) (
        rw
          (take_request-Brings lib clock bucket_name whole p begin last r u (at p) low high one
            (omega arith) stated b)
          (rw open_still (rw insert-insert refl)))

  -- The upload behind the last request.
  abbrev finished : ChunkRequest → Upload
  finished r = record u {
    metadata = apply_final_checksums r.hash u.metadata;
    media = whole;
    complete = true;
  }

  resumable_upload_chunk-ends :
      (p begin last : ℕ) (r : ChunkRequest) (blob : Blob) (s' : Database)
      → begin ≤ p
      → p < length whole
      → (p ≡ 1 → begin ≡ 1)
      → suc last ≡ length whole
      → Brings whole begin last r
      → init_object lib clock u.origin (apply_final_checksums r.hash u.metadata) whole rest
        ≡ ok blob
      → insert_object bucket_name (note_request r blob) rest u.origin.preconditions s ≡ (ok tt, s')
      → resumable_upload_chunk lib clock bucket_name (some upload_id) r (at p) ≡ (
        ok (created (note_request r blob)),
        record s' { uploads = insert upload_id (finished r) s.uploads },
      )
  unfolding resumable_upload_chunk get_upload finish_upload in_database
  resumable_upload_chunk-ends p begin last r blob s' low high one last_byte b made inserted =
      let closed : (suc last == length whole) ≡ true = ground arith in
      let all : reach p (suc last) ≡ length whole = ground arith in
      rw (lookup-inserted upload_id (arrived whole p u) s.uploads) (
        rw
          (take_request-Brings lib clock bucket_name whole p begin last r u (at p) low high one
            (omega arith) stated b)
          (rw (closed, all, take_all whole)
            (rw made (
              rw
                (insert_object-uploads bucket_name (note_request r blob) u.origin.preconditions
                  (at p).uploads s s' inserted)
                (rw insert-insert refl)))))

  -- A resumable upload over REST from end to end, of which the first bytes may have arrived: requests that
  -- leave no gap, of any size, which may send bytes again, up to the last byte, with no fault injected.
  -- The `Content-Range` of every request gives its first byte, its last byte and the true length of the
  -- whole, as in `bytes 0-4/10` (not `*`), and its `Content-Length` is the number of bytes that it brings. A client that sends them until it gets an object gets the one that `Object.init` makes
  -- of all bytes, with the notes of the last request, and that one is inserted; if the upload states no
  -- length or the right one, and `Object.init` and the insertion raise nothing. Where one byte alone has
  -- arrived, a request must not send it again.
  pub send_chunks-Delivers :
      {p : ℕ} {rs : List ChunkRequest} {final : ChunkRequest} (blob : Blob) (s' : Database)
      → p < length whole
      → Delivers whole p rs final
      → init_object lib clock u.origin (apply_final_checksums final.hash u.metadata) whole rest
        ≡ ok blob
      → insert_object bucket_name (note_request final blob) rest u.origin.preconditions s
        ≡ (ok tt, s')
      → send_chunks lib clock bucket_name upload_id rs (at p) ≡ (
        ok (some (note_request final blob)),
        record s' { uploads = insert upload_id (finished final) s.uploads },
      )
  unfolding send_chunks resumable_status_rest
  send_chunks-Delivers {p} blob s' high (ends begin last r low one last_byte b) made inserted =
      rw (resumable_upload_chunk-ends p begin last r blob s' low high one last_byte b made inserted)
        refl
  send_chunks-Delivers {p} blob s' high (goes_on begin last r low one short b more) made inserted =
      rw (resumable_upload_chunk-more p begin last r low high one short b)
        (send_chunks-Delivers blob s' (ground arith) more made inserted)
