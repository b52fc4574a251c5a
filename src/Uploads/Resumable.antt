-- ===== src/Uploads/Resumable.antt =====
-- `resumable_upload_chunk` of testbench/rest_server.py, and `resumable_status_rest` and
-- `apply_final_checksums` of gcs/upload.py. The projection and the fields of the answer are not modelled.
pub mod Chunks
pub mod Ranges
use storage_testbench.Base.{
  ℕ, zero, suc, ◌+◌, ◌-◌, Bool, true, false, not, ◌&&◌, ◌||◌, ◌==◌, leb, ltb, Option, none, some,
  List, [], ◌∷◌, ◌++◌, Text, Dict, codes, text_eq, starts_with, slice, drop, insert, erase, length,
  if◌then◌else◌,
}
use storage_testbench.Errors.{
  rest, py, attribute_error, rest_exception, invalid, missing, Exec, pure, raise, gets, lift,
  modify, raise_if, ◌>>=◌, ◌>>◌,
}
use storage_testbench.Database.State.{Resource, Blob, Upload}
use storage_testbench.Database.Access.{Action}
use storage_testbench.Database.Objects.{insert_object}
use storage_testbench.Database.Folders.{get_upload}
use storage_testbench.Instructions.{
  strip, span, is_digit, to_int, get_retry_uploads_error_after_bytes, get_stall_uploads_after_bytes,
}
use storage_testbench.Media.{Bytes}
use storage_testbench.Uploads.{Session, extend, handle_error, handle_stall, interrupt}
use storage_testbench.Blobs.{Codecs}
use storage_testbench.Blobs.Create.{Clock, init_object}

-- The bytes that a `content-range` names, `none` for a `*`: no bytes, or those from one place to another.
pub data Span : Type 0 where
  no_bytes : Span
  from_to : ℕ → Option ℕ → Span

-- The number that a run of digits writes, and the rest behind it; one digit at least
unfoldable pub number_of : Text × Text → Option (ℕ × Text)
unfolding to_int
number_of ([], rest_of) = none
number_of (c ∷ cs, rest_of) = some (to_int 0 (c ∷ cs), rest_of)

-- `[0-9]+`
unfoldable pub read_digits : Text → Option (ℕ × Text)
unfolding span number_of
read_digits t = number_of (span is_digit t)

-- `\*|[0-9]+`, and the rest behind it
unfoldable pub read_bound : Text → Option (Option ℕ × Text)
unfolding read_digits strip
read_bound t = elim (strip (codes "*") t) [
  | some rest_of ↦ some (none, rest_of)
  | none ↦ elim (read_digits t) [ none ↦ none | some (n, rest_of) ↦ some (some n, rest_of) ]
]

unfoldable pub read_span : Text → Option (Span × Text)
unfolding read_bound strip
read_span t = elim (read_bound t) [
  | none ↦ none
  | some (none, rest_of) ↦ some (no_bytes, rest_of)
  | some (some first, behind) ↦ elim (strip (codes "-") behind) [
    | none ↦ none
    | some last ↦ elim (read_bound last) [
      | none ↦ none
      | some (bound, rest_of) ↦ some (from_to first bound, rest_of)
    ]
  ]
]

-- `content_range_split.match(header)`: the span and the total
unfoldable pub content_range_split : Text → Option (Span × Option ℕ)
unfolding read_span read_bound strip
content_range_split header = elim (strip (codes "bytes ") header) [
  | none ↦ none
  | some t ↦ elim (read_span t) [
    | none ↦ none
    | some (bytes, behind) ↦ elim (strip (codes "/") behind) [
      | none ↦ none
      | some total ↦ elim (read_bound total) [ none ↦ none | some (n, _) ↦ some (bytes, n) ]
    ]
  ]
]

-- A request: `content` is its media, `transfer_encodings` what `":".join(upload.transfer)` gives with its
-- own encoding added, and `test_id` the header of a retry test.
pub record ChunkRequest : Type 0 where
  pub content : Bytes
  pub content_length : Option ℕ
  pub content_range : Option Text
  pub hash : Text
  pub custom_header : Text
  pub transfer_encodings : Text
  pub test_id : Option Text
  pub instruction : Option Text
  pub no_308 : Bool

-- The answers: the object was created before; it is created; or 308 with the last byte of the `Range`
-- header, as 200 if it is overridden.
pub data ChunkAnswer : Type 0 where
  completed : ChunkAnswer
  created : Blob → ChunkAnswer
  incomplete : Option ℕ → Bool → ChunkAnswer

-- `resumable_status_rest`
unfoldable pub resumable_status_rest : Bool → Upload → ChunkAnswer
resumable_status_rest override_308 u =
    incomplete
      (if ltb 1 (length u.media) && not u.complete then some (length u.media - 1) else none)
      override_308

-- `hash_header.split(",")`
unfoldable pub split_commas : Text → List Text
split_commas [] = [] ∷ []
split_commas (c ∷ t) =
    let rest_of = split_commas t in
    if c == 44
    then [] ∷ rest_of
    else elim rest_of [ [] ↦ (c ∷ []) ∷ [] | part ∷ parts ↦ (c ∷ part) ∷ parts ]

-- The loop of `apply_final_checksums`, on the custom metadata.
unfoldable pub note_hashes : List Text → Dict Text → Dict Text
note_hashes [] m = m
note_hashes (checksum ∷ checksums) m =
    let m' =
      if starts_with checksum (codes "md5=")
      then erase (codes "x_emulator_no_md5") (insert (codes "x_emulator_md5") (drop 4 checksum) m)
      else m in
    let m'' =
      if starts_with checksum (codes "crc32c=")
      then erase (codes "x_emulator_no_crc32c")
          (insert (codes "x_emulator_crc32c") (drop 7 checksum) m')
      else m' in
    note_hashes checksums m''

-- `apply_final_checksums`
unfoldable pub apply_final_checksums : Text → Resource → Resource
unfolding note_hashes split_commas
apply_final_checksums [] r = r
apply_final_checksums (c ∷ hash) r = record r {
  metadata = note_hashes (split_commas (c ∷ hash)) r.metadata;
}

-- `last_byte_persisted`
unfoldable pub last_byte_persisted : Bytes → ℕ
last_byte_persisted media = if length media == 0 then 0 else length media - 1

-- The bytes of a request that are new: `range_start` and `partial_media`. `chunk_end` is behind the last byte.
unfoldable pub new_bytes : ℕ → ℕ → ℕ → Bytes → Bytes
new_bytes persisted chunk_first_byte chunk_end content =
    if not (persisted == 0) && leb chunk_first_byte persisted
    then slice (persisted - chunk_first_byte + 1) chunk_end content
    else content

-- A method of the database.
unfoldable pub in_database : {A : Type 0} → Action A → Exec Session A
in_database m x = let (r, d) = m x.database in (r, record x { database = d })

-- The notes on an object that a request with bytes, or without a range, creates.
unfoldable pub note_request : ChunkRequest → Blob → Blob
note_request r o = record o {
  metadata = insert (codes "x_emulator_custom_header") r.custom_header (
      insert (codes "x_emulator_upload") (codes "resumable")
        (insert (codes "x_emulator_transfer_encoding") r.transfer_encodings o.metadata));
}

-- The note of a request that names no bytes.
unfoldable pub note_transfer : ChunkRequest → Blob → Blob
note_transfer r o = record o {
  metadata = insert (codes "x_emulator_transfer_encoding") r.transfer_encodings o.metadata;
}

unfoldable pub set_complete : Bool → Session → Session
set_complete complete x = record x { upload = record x.upload { complete = complete } }

-- The error that is due in a request of the bytes up to `chunk_end`; the last byte of an empty request from
-- the start is -1, and no partial data is committed then.
unfoldable pub force_error : Bytes → ℕ → ℕ → ℕ → ℕ → ℕ → Text → Exec Session (Unit {0})
unfolding interrupt handle_error
force_error content error_code after_bytes persisted first zero test_id =
    interrupt error_code after_bytes test_id
force_error content error_code after_bytes persisted first (suc last) test_id =
    handle_error content error_code after_bytes persisted first last test_id

-- The error-after-bytes instructions, and the stalls.
unfoldable pub inject_faults : ChunkRequest → ℕ → ℕ → ℕ → Exec Session (Unit {0})
unfolding force_error handle_stall in_database
inject_faults r persisted first chunk_end = do
  (error_code, after_bytes, id) ←
      in_database (get_retry_uploads_error_after_bytes r.test_id (codes "HTTP"))
  let forced : Bool = elim r.instruction [
    | none ↦ false
    | some i ↦ text_eq i (codes "return-503-after-256K")
  ]
  (if forced
      then force_error r.content 503 262144 persisted first chunk_end id
      else if error_code == 0
      then pure tt
      else force_error r.content error_code after_bytes persisted first chunk_end id)
  (stall_time, stall_after, stall_id) ←
      in_database (get_stall_uploads_after_bytes r.test_id (codes "HTTP"))
  slept ←
      (if stall_time == 0
        then pure none
        else handle_stall r.content stall_time stall_after stall_id)
  pure tt

module _ (lib : Codecs) (clock : Clock) where
  -- What is done when the upload is complete: `note` is what is added to the object.
  unfoldable pub finish_upload : Text → Text → (Blob → Blob) → Exec Session ChunkAnswer
  unfolding apply_final_checksums in_database
  finish_upload bucket_name hash note = do
    modify (λ x. record x {
      upload = record x.upload { metadata = apply_final_checksums hash x.upload.metadata };
    })
    u ← gets (λ x. x.upload)
    blob ← lift (init_object lib clock u.origin u.metadata u.media rest)
    in_database (insert_object bucket_name (note blob) rest u.origin.preconditions)
    pure (created (note blob))

  -- A request of the bytes from `first` to `last`.
  unfoldable pub take_bytes :
      Text → ChunkRequest → ℕ → Option ℕ → Option ℕ → Exec Session ChunkAnswer
  unfolding inject_faults new_bytes extend set_complete finish_upload last_byte_persisted
      resumable_status_rest note_request
  take_bytes bucket_name r first last total = do
    u ← gets (λ x. x.upload)
    let chunk_end : ℕ = elim last [ none ↦ first + length r.content | some l ↦ suc l ]
    let stated : ℕ = elim last [
      | none ↦ if u.origin.content_length == 0 then length r.content else u.origin.content_length
      | some l ↦ u.origin.content_length
    ]
    let total_size : ℕ = elim total [ none ↦ stated | some t ↦ t ]
    raise_if (not (stated == 0) && not (stated == total_size)) (rest_exception 400)
    inject_faults r (last_byte_persisted u.media) first chunk_end
    modify (extend (new_bytes (last_byte_persisted u.media) first chunk_end r.content))
    size ← gets (λ x. length x.upload.media)
    let complete = total_size == size || chunk_end == total_size
    modify (set_complete complete)
    (if complete
        then finish_upload bucket_name r.hash (note_request r)
        else gets (λ x. resumable_status_rest r.no_308 x.upload))

  -- A request that names no bytes.
  unfoldable pub take_status : Text → ChunkRequest → Option ℕ → Exec Session ChunkAnswer
  unfolding finish_upload set_complete resumable_status_rest note_transfer
  take_status bucket_name r total = do
    size ← gets (λ x. length x.upload.media)
    let ends : Bool = elim total [ none ↦ false | some t ↦ t == size ]
    (if ends
        then (modify (set_complete true) >> finish_upload bucket_name r.hash (note_transfer r))
        else gets (λ x. resumable_status_rest false x.upload))

  unfoldable pub take_request : Text → ChunkRequest → Exec Session ChunkAnswer
  unfolding take_bytes take_status finish_upload set_complete extend content_range_split
      note_request
  take_request bucket_name r = do
    let wrong_length : Bool = elim r.content_length [
      | none ↦ false
      | some n ↦ not (n == length r.content)
    ]
    raise_if wrong_length (invalid rest)
    elim r.content_range [
      | none ↦ do
        modify (extend r.content)
        modify (set_complete true)
        finish_upload bucket_name r.hash (note_request r)
      | some header ↦ elim (content_range_split header) [
        | none ↦ raise (py attribute_error)
        | some (no_bytes, total) ↦ take_status bucket_name r total
        | some (from_to first last, total) ↦ take_bytes bucket_name r first last total
      ]
    ]

  -- `resumable_upload_chunk`: what is done to the upload is done to the one that the database holds,
  -- whether the request is answered or raises.
  unfoldable pub resumable_upload_chunk : Text → Option Text → ChunkRequest → Action ChunkAnswer
  unfolding take_request get_upload
  resumable_upload_chunk bucket_name none r = raise (missing rest)
  resumable_upload_chunk bucket_name (some upload_id) r = do
    u ← get_upload upload_id rest
    (if u.complete then pure completed else λ s.
        let (answer, x) = take_request bucket_name r (record { upload = u; database = s }) in
        (answer, record x.database { uploads = insert upload_id x.upload x.database.uploads }))
