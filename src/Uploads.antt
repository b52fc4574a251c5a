-- ===== src/Uploads.antt =====
-- testbench/common.py: the faults that a retry test injects into resumable uploads, by the number of
-- bytes that have arrived. The sleep of a stall is its length in the answer.
pub mod Partial
pub mod Write
pub mod Resumable
use storage_testbench.Base.{
  take, drop, ℕ, ◌+◌, ◌-◌, Bool, false, not, ◌&&◌, ◌==◌, ltb, leb, Option, none, some, [], ◌∷◌,
  ◌++◌, Text, codes, length, if◌then◌else◌,
}
use storage_testbench.Errors.{
  Context, rest, generic, StatusCode, ok, err, Exec, pure, raise, gets, modify, ◌>>=◌, ◌>>◌,
}
use storage_testbench.Database.State.{Database, Upload}
use storage_testbench.Database.RetryTests.{dequeue_next_instruction}
use storage_testbench.Media.{Bytes}

-- An upload and the database.
pub record Session : Type 0 where
  pub upload : Upload
  pub database : Database

abbrev pub method : Text
method = codes "storage.objects.insert"

-- `database.dequeue_next_instruction(test_id, "storage.objects.insert")`
unfoldable pub dequeue : Text → Exec Session (Unit {0})
dequeue test_id x =
    let (r, d) = dequeue_next_instruction test_id method x.database in
    (elim r [ ok _ ↦ ok tt | err e ↦ err e ], record x { database = d })

-- `upload.media += data`
unfoldable pub extend : Bytes → Session → Session
extend data_ x = record x { upload = record x.upload { media = x.upload.media ++ data_ } }

-- `if test_id: database.dequeue_next_instruction(...)`
unfoldable pub dequeue_if : Text → Exec Session (Unit {0})
unfolding dequeue
dequeue_if [] = pure tt
dequeue_if (c ∷ test_id) = dequeue (c ∷ test_id)

-- `handle_stall_uploads_after_bytes`: how long it sleeps.
unfoldable pub handle_stall : Bytes → ℕ → ℕ → Text → Exec Session (Option ℕ)
unfolding dequeue_if
handle_stall data_ stall_time after_bytes test_id x =
    if leb (length x.upload.media) after_bytes
      && ltb after_bytes (length x.upload.media + length data_)
    then (dequeue_if test_id >>= λ _. pure (some stall_time)) x
    else (ok none, x)

-- `media[range_start : len(media) - cut]`; a bound below 0 counts from the end once more.
unfoldable pub partial_media_but : ℕ → ℕ → Bytes → Bytes
partial_media_but range_start cut media =
    let range_end =
      if leb cut (length media) then length media - cut else length media - (cut - length media) in
    take (range_end - range_start) (drop range_start media)

-- What `handle_retry_uploads_error_after_bytes` takes of the request.
unfoldable pub committed : Bytes → ℕ → ℕ → ℕ → ℕ → Bytes
unfolding partial_media_but
committed data_ after_bytes last_byte_persisted chunk_first_byte chunk_last_byte =
    partial_media_but
      (if not (last_byte_persisted == 0) && leb chunk_first_byte last_byte_persisted
        then last_byte_persisted - chunk_first_byte + 1
        else 0)
      (if leb after_bytes chunk_last_byte then chunk_last_byte - after_bytes + 1 else 0) data_

-- Its first half.
unfoldable pub commit_partial : Bytes → ℕ → ℕ → ℕ → ℕ → Session → Session
unfolding committed
commit_partial data_ after_bytes last_byte_persisted chunk_first_byte chunk_last_byte x =
    if ltb last_byte_persisted after_bytes && leb after_bytes (chunk_last_byte + 1)
    then record x {
      upload = record x.upload {
        media =
            x.upload.media
            ++ committed data_ after_bytes last_byte_persisted chunk_first_byte chunk_last_byte;
        complete = false;
      };
    }
    else x

-- Its second half.
unfoldable pub interrupt : ℕ → ℕ → Text → Exec Session (Unit {0})
unfolding dequeue_if
interrupt error_code after_bytes test_id = do
  reached ← gets (λ x. leb after_bytes (length x.upload.media))
  (if reached then (dequeue_if test_id >>= λ _. raise (generic error_code none rest)) else pure tt)

-- `handle_retry_uploads_error_after_bytes`
unfoldable pub handle_error : Bytes → ℕ → ℕ → ℕ → ℕ → ℕ → Text → Exec Session (Unit {0})
unfolding commit_partial interrupt
handle_error data_ error_code after_bytes last_byte_persisted chunk_first_byte chunk_last_byte
      test_id =
    do
      modify (commit_partial data_ after_bytes last_byte_persisted chunk_first_byte chunk_last_byte)
      interrupt error_code after_bytes test_id

-- `_grpc_forced_failure_from_http_instruction`
unfoldable pub forced_failure : ℕ → Option StatusCode
forced_failure code =
    if code == 400
    then some StatusCode.invalid_argument
    else if code == 401
    then some StatusCode.unauthenticated
    else if code == 408
    then some StatusCode.unavailable
    else if code == 429
    then some StatusCode.resource_exhausted
    else if code == 500
    then some StatusCode.internal
    else if code == 503
    then some StatusCode.unavailable
    else if code == 504
    then some StatusCode.deadline_exceeded
    else none

-- `handle_grpc_retry_uploads_error_after_bytes`
unfoldable pub handle_grpc_error : Context → Bytes → ℕ → ℕ → Text → Exec Session (Unit {0})
unfolding extend dequeue forced_failure
handle_grpc_error context data_ rest_code after_bytes test_id x =
    if ltb (length x.upload.media) after_bytes
      && leb after_bytes (length x.upload.media + length data_)
    then (modify (extend (take (after_bytes - length x.upload.media) data_)) >>= λ _.
          dequeue test_id >>= λ _. raise (generic rest_code (forced_failure rest_code) context))
        x
    else (ok tt, x)
