-- ===== src/Uploads/Write.antt =====
-- gcs/upload.py: `init_write_object_grpc`, the loop over the messages of a `WriteObject` stream, and
-- `WriteObject` of testbench/grpc_server.py. Offsets are not negative.
pub mod Chunks
use storage_testbench.Base.{
  drop, ℕ, ◌+◌, ◌-◌, Bool, true, false, not, ◌&&◌, ◌==◌, ltb, Option, none, some, is_some, List, [],
  ◌∷◌, ◌++◌, Text, Dict, codes, insert, length, if◌then◌else◌,
}
use storage_testbench.Errors.{
  Context, grpc, Error, py, grpc_abort, StatusCode, invalid, mismatch, missing, Result, ok, err,
  Exec, pure, raise, gets, lift, modify, raise_if, or_raise, ◌>>=◌, ◌>>◌,
}
use storage_testbench.Database.State.{
  Database, Bucket, Blob, Resource, ObjectPrecondition, Encryption, Origin, Upload,
}
use storage_testbench.Database.Access.{Action, get_bucket}
use storage_testbench.Database.Buckets.{or_none_type}
use storage_testbench.Database.Objects.{insert_object}
use storage_testbench.Database.Folders.{get_upload}
use storage_testbench.Instructions.{get_retry_uploads_error_after_bytes}
use storage_testbench.Media.{Bytes}
use storage_testbench.Uploads.{Session, handle_grpc_error}
use storage_testbench.Blobs.{Codecs}
use storage_testbench.Blobs.Checksums.{rest_crc32c_from_proto, rest_md5_from_proto}
use storage_testbench.Blobs.Create.{Clock, init_object}

-- `write_object_spec`, with what is kept of the request
pub record Spec : Type 0 where
  pub bucket_name : Text
  pub resource : Resource
  pub origin : Origin

pub data First : Type 0 where
  no_first : First
  upload_id : Text → First
  write_object_spec : Spec → First

-- `object_checksums`: an empty `md5_hash` is not set.
pub record Checksums : Type 0 where
  pub crc32c : Option ℕ
  pub md5_hash : Bytes

-- `checksummed_data`
pub record Data : Type 0 where
  pub content : Bytes
  pub crc32c : Option ℕ

pub record Message : Type 0 where
  pub first_message : First
  pub object_checksums : Option Checksums
  pub checksummed : Option Data
  pub write_offset : ℕ
  pub finish_write : Bool

-- The variables of the loop. `attached` says that `upload` is the one that the database holds, so that
-- what is done to it is done there too.
pub record Stream : Type 0 where
  pub upload : Option Upload
  pub attached : Bool
  pub object_checksums : Option Checksums
  pub is_resumable : Bool
  pub database : Database

abbrev pub Step : Type 0 → Type 0
Step A = Exec Stream A

-- What the database holds of an attached upload.
unfoldable pub save : Stream → Stream
save x = elim x.upload [
  | none ↦ x
  | some u ↦
      if x.attached
      then record x {
        database = record x.database { uploads = insert u.upload_id u x.database.uploads };
      }
      else x
]

-- A method of the database.
unfoldable pub on_database : {A : Type 0} → Action A → Step A
on_database m x = let (r, d) = m x.database in (r, record x { database = d })

abbrev put_metadata : Text → Text → Upload → Upload
put_metadata k v u = record u {
  metadata = record u.metadata { metadata = insert k v u.metadata.metadata };
}

-- `__init_first_write_grpc`, with the identifier that it draws
unfoldable pub init_first_write : Text → Spec → Upload
init_first_write new_id spec = put_metadata (codes "x_emulator_upload") (codes "grpc") (record {
  upload_id = new_id;
  bucket_name = spec.bucket_name;
  metadata = spec.resource;
  origin = spec.origin;
  media = [];
  complete = false;
  blob = none;
})

-- `request.WhichOneof("first_message")`
unfoldable pub take_first : Text → First → Step Unit
unfolding save on_database init_first_write get_upload get_bucket
take_first new_id no_first = do raise_if (not (is_some (← gets (λ x. x.upload)))) (invalid grpc)
take_first new_id (upload_id id) = do
  modify save
  upload ← on_database (get_upload id grpc)
  modify (λ x. record x { upload = some upload; attached = true })
  raise_if upload.complete (invalid grpc)
  modify (λ x. record x { is_resumable = true })
take_first new_id (write_object_spec spec) = do
  modify save
  bucket ← on_database (get_bucket spec.bucket_name grpc [] >>= or_none_type)
  modify (λ x. record x { upload = some (init_first_write new_id spec); attached = false })

abbrev is_no_first : First → Bool
is_no_first no_first = true
is_no_first _ = false

-- `if request.HasField("object_checksums")`
unfoldable pub take_checksums : Message → Step Unit
take_checksums m = elim m.object_checksums [
  | none ↦ pure tt
  | some c ↦ do
    raise_if (is_no_first m.first_message && not m.finish_write) (invalid grpc)
    raise_if (is_some (← gets (λ x. x.object_checksums))) (invalid grpc)
    modify (λ x. record x { object_checksums = some c })
]

-- The variable `upload` behind the test for a first message.
unfoldable pub with_upload : {A : Type 0} → (Upload → Step A) → Step A
with_upload f x = elim x.upload [ none ↦ (err (invalid grpc), x) | some u ↦ f u x ]

unfoldable pub set_upload : Upload → Stream → Stream
set_upload u x = record x { upload = some u }

-- The checksum of the data of a message.
unfoldable pub check_data : (Bytes → ℕ) → Data → Step Unit
check_data crc32c d = elim d.crc32c [
  | none ↦ pure tt
  | some c ↦ raise_if (not (crc32c d.content == c)) (mismatch grpc)
]

-- The bytes that have not arrived yet, or `OUT_OF_RANGE` if some are left out.
unfoldable pub new_content : ℕ → Bytes → Bytes → Result Bytes
unfolding drop
new_content write_offset media content =
    if ltb write_offset (length media)
    then ok (drop (length media - write_offset) content)
    else if ltb (length media) write_offset
    then err (grpc_abort (some StatusCode.out_of_range))
    else ok content

-- The faults of retry tests act on the upload and on the database.
unfoldable pub on_session : Exec Session (Unit {0}) → Step Unit
on_session m x = elim x.upload [
  | none ↦ (err (invalid grpc), x)
  | some u ↦
      let (r, y) = m (record { upload = u; database = x.database }) in
      (r, record x { upload = some y.upload; database = y.database })
]

unfoldable pub inject_fault : Option Text → Bytes → Step Unit
unfolding on_session handle_grpc_error
inject_fault test_id content = do
  (rest_code, after_bytes, id) ←
      on_database (get_retry_uploads_error_after_bytes test_id (codes "GRPC"))
  (if rest_code == 0
      then pure tt
      else on_session (handle_grpc_error grpc content rest_code after_bytes id))

-- The data of a message, and its end.
unfoldable pub take_data : (Bytes → ℕ) → Option Text → Message → Step Unit
unfolding with_upload set_upload check_data new_content inject_fault
take_data crc32c test_id m = elim m.checksummed [
  | none ↦ do
    raise_if (not m.finish_write) (invalid grpc)
    with_upload (λ u. modify (set_upload (record u { complete = true })))
  | some d ↦ do
    check_data crc32c d
    content ← with_upload (λ u. lift (new_content m.write_offset u.media d.content))
    inject_fault test_id content
    with_upload (λ u. modify (
        set_upload (record u {
          media = u.media ++ content;
          complete = if m.finish_write then true else u.complete;
        })))
]

-- One turn of the loop.
unfoldable pub take_message : (Bytes → ℕ) → Option Text → Text → Message → Step Unit
unfolding take_first take_checksums take_data
take_message crc32c test_id new_id m = do
  take_first new_id m.first_message
  take_checksums m
  take_data crc32c test_id m

unfoldable pub take_messages : (Bytes → ℕ) → Option Text → Text → List Message → Step Unit
unfolding take_message
take_messages crc32c test_id new_id [] = pure tt
take_messages crc32c test_id new_id (m ∷ ms) = do
  take_message crc32c test_id new_id m
  take_messages crc32c test_id new_id ms

-- What is noted of the checksums of the object.
unfoldable pub note_checksums : Codecs → Option Checksums → Upload → Upload
note_checksums lib none u =
    put_metadata (codes "x_emulator_no_md5") (codes "true")
      (put_metadata (codes "x_emulator_no_crc32c") (codes "true") u)
note_checksums lib (some c) u =
    let u' : Upload = elim c.crc32c [
      | none ↦ put_metadata (codes "x_emulator_no_crc32c") (codes "true") u
      | some n ↦ put_metadata (codes "x_emulator_crc32c") (rest_crc32c_from_proto lib n) u
    ] in
    elim c.md5_hash [
      | [] ↦ put_metadata (codes "x_emulator_no_md5") (codes "true") u'
      | b ∷ md5 ↦ put_metadata (codes "x_emulator_md5") (rest_md5_from_proto lib (b ∷ md5)) u'
    ]

-- `init_write_object_grpc`
unfoldable pub init_write_object : Codecs → Option Text → Text → List Message → Step Upload
unfolding take_messages note_checksums
init_write_object lib test_id new_id ms = do
  take_messages lib.crc32c test_id new_id ms
  with_upload (λ u. do
    object_checksums ← gets (λ x. x.object_checksums)
    modify (set_upload (note_checksums lib object_checksums u))
    pure (note_checksums lib object_checksums u))

-- The answer of `WriteObject`.
pub data Written : Type 0 where
  persisted_size : ℕ → Written
  resource : Blob → Written

unfoldable pub finish_object : Codecs → Clock → Upload → Step Written
finish_object lib clock u = do
  blob ← lift (init_object lib clock u.origin u.metadata u.media grpc)
  modify (set_upload (record u { blob = some blob }))
  on_database (insert_object u.bucket_name blob grpc u.origin.preconditions)
  pure (resource blob)

unfoldable pub write_loop : Codecs → Clock → Option Text → Text → List Message → Step Written
unfolding finish_object
write_loop lib clock test_id new_id ms = do
  u ← init_write_object lib test_id new_id ms
  is_resumable ← gets (λ x. x.is_resumable)
  (if u.complete
      then finish_object lib clock u
      else if is_resumable
      then pure (persisted_size (length u.media))
      else raise (missing grpc))

abbrev pub start : Database → Stream
start s = record {
  upload = none;
  attached = false;
  object_checksums = none;
  is_resumable = false;
  database = s;
}

-- `WriteObject`: whether it returns or raises, the upload stays as the loop has left it.
unfoldable pub write_object : Codecs → Clock → Option Text → Text → List Message → Action Written
unfolding save
write_object lib clock test_id new_id ms s =
    let (r, x) = write_loop lib clock test_id new_id ms (start s) in (r, (save x).database)
