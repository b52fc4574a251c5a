-- ===== src/FileStore/Methods.antt =====
-- testbench/filestore.py: what the methods of `FileStore` write for each notification, with the contents of
-- testbench/sidecar.py. The media of an object is in memory (`BytesMedia`): the staging files of uploads and
-- rewrites are only deleted here.
use storage_testbench.Base.{
  ℕ, Bool, true, false, ◌==◌, ltb, none, some, List, [], ◌∷◌, ◌++◌, Text, codes, text_eq,
  starts_with, length, drop, lookup, insert, erase, if◌then◌else◌,
}
use storage_testbench.Errors.{
  py, file_not_found_error, os_error, value_error, runtime_error, Result, ok, err, Exec, pure,
  modify, ◌>>=◌, ◌>>◌,
}
use storage_testbench.Database.State.{
  Bucket, Blob, Event, bucket_inserted, bucket_deleted, bucket_updated, object_inserted,
  object_deleted, object_updated, object_soft_deleted, object_purged, folder_inserted,
  folder_deleted, folder_renamed, upload_deleted, rewrite_deleted, cleared,
}
use storage_testbench.Pathing.{
  Place, overflow, natural, classify, overflow_token, split, utf8_length, name_max,
}
use storage_testbench.Uploads.Resumable.Ranges.{decimal}
use storage_testbench.FileStore.{
  Content, media, object_sidecar, bucket_sidecar, folder_envelope, directory, file, Tree, Disk,
}
use storage_testbench.FileStore.Disk.{
  Process, Action, make_dir, open_dir_nofollow, walk_dirs, write_bytes_atomic, unlink_quiet,
  move_quiet, remove_tree,
}

-- `bucket_name_from_proto`
abbrev pub proto_prefix : Text
proto_prefix = codes "projects/_/buckets/"

unfoldable pub bucket_name_from_proto : Text → Text
bucket_name_from_proto bucket_name =
    if starts_with bucket_name proto_prefix
    then drop (length proto_prefix) bucket_name
    else bucket_name

-- `parts[:-1]` and `parts[-1]` of the list that `split` gives
unfoldable pub but_last : List Text → List Text
but_last [] = []
but_last (part ∷ []) = []
but_last (part ∷ next ∷ parts) = part ∷ but_last (next ∷ parts)

unfoldable pub last : List Text → Text
last [] = []
last (part ∷ []) = part
last (part ∷ next ∷ parts) = last (next ∷ parts)

-- `sidecar.dump` of the metadata of an object: without its media
abbrev pub dump : Blob → Text → Content
dump blob true_name = object_sidecar true_name (record blob { media = [] })

-- `sidecar.load`, as far as `_guard_collision` uses it: the true name. What is no envelope is refused.
unfoldable pub load_name : Content → Result Text
load_name (object_sidecar true_name blob) = ok true_name
load_name (bucket_sidecar true_name bucket) = ok true_name
load_name (media bytes) = err (py value_error)
load_name (folder_envelope name) = err (py value_error)

-- `name.partition("/")[0]`
unfoldable pub before_slash : Text → Text
before_slash [] = []
before_slash (c ∷ t) = let rest = before_slash t in if c == 47 then [] else c ∷ rest

-- `.gcsmeta`, behind the name of a file
abbrev pub meta_of : Text → Text
meta_of base = base ++ codes ".gcsmeta"

-- `_guard_collision`
unfoldable pub guard_collision : Text → Text → Text → Action Unit
guard_collision dir base object_name fs =
    if ltb name_max (utf8_length (meta_of base))
    then (err (py os_error), fs)
    else elim (lookup (dir ++ meta_of base) fs) [
      | none ↦ (ok tt, fs)
      | some directory ↦ (err (py os_error), fs)
      | some (file content) ↦ elim (load_name content) [
        | err e ↦ (err e, fs)
        | ok existing_true ↦
            (if text_eq existing_true object_name then ok tt else err (py runtime_error), fs)
      ]
    ]

-- `_SUBDIRS`, in `.gcs/`
unfoldable pub make_dirs : Text → List Text → Action Unit
make_dirs dir [] = pure tt
make_dirs dir (sub ∷ subs) = do make_dir dir sub; make_dirs dir subs

abbrev put_back : Text → Disk → Result (Unit {0}) × Tree → Result (Unit {0}) × Disk
put_back short disk (r, fs) = (r, insert short fs disk)

-- `_bucket_dirfd`: an action in the directory of a bucket
unfoldable pub in_bucket : Bool → Text → Action Unit → Exec Disk (Unit {0})
in_bucket create short action disk = elim (lookup short disk) [
  | none ↦ if create then put_back short disk (action []) else (err (py file_not_found_error), disk)
  | some fs ↦ put_back short disk (action fs)
]

-- `constrained_rmtree` of the directory of a bucket
abbrev pub remove_bucket_tree : Text → Exec Disk (Unit {0})
remove_bucket_tree short = modify (erase short)

-- `_dest_parts`
unfoldable pub parts_of : Place → List Text × Text
parts_of (overflow target) = (codes ".gcs" ∷ codes "overflow" ∷ [], target)
parts_of (natural target) = (but_last (split target), last (split target))

-- `object_deleted`
unfoldable pub delete_object_files : List Text × Text → Action Unit
delete_object_files (parts, base) = do
  dir ← walk_dirs false [] parts
  unlink_quiet dir base
  unlink_quiet dir (meta_of base)

-- `object_purged`: a directory that is not there, or a file, is left alone.
unfoldable pub purge_object_files : ℕ → Action Unit
purge_object_files generation fs =
    let dst = codes ".gcs/soft_deleted/" ++ decimal generation in
    elim (lookup dst fs) [ some directory ↦ (ok tt, remove_tree dst fs) | _ ↦ (ok tt, fs) ]

unfoldable pub purge_object : Text → ℕ → Exec Disk (Unit {0})
purge_object short generation disk = elim (lookup short disk) [
  | none ↦ (ok tt, disk)
  | some fs ↦ in_bucket false short (purge_object_files generation) disk
]

-- `_folder_bucket_short`
abbrev pub folder_bucket_short : Text → Text
folder_bucket_short folder_name = before_slash (bucket_name_from_proto folder_name)

-- `delete_upload`, `delete_rewrite`
unfoldable pub delete_staging : Text → Action Unit
delete_staging name = do
  dir ← walk_dirs true [] (codes ".gcs" ∷ codes "uploads" ∷ [])
  unlink_quiet dir name

module _ (sha256_hex : Text → Text) where
  unfoldable pub dest_parts : Text → List Text × Text
  dest_parts object_name = parts_of (classify sha256_hex object_name)

  -- `_remove_folder`
  unfoldable pub remove_folder_files : Text → Action Unit
  remove_folder_files folder_name = do
    dir ← walk_dirs false [] (codes ".gcs" ∷ codes "folders" ∷ [])
    unlink_quiet dir (overflow_token sha256_hex folder_name ++ codes ".json")

module _ (process : Process) where
  -- `bucket_inserted`, and `bucket_updated`
  unfoldable pub insert_bucket_files : Bucket → Text → Action Unit
  insert_bucket_files bucket short = do
    gcs_dir ← walk_dirs true [] (codes ".gcs" ∷ [])
    make_dirs gcs_dir (
        codes "generations"
        ∷ codes "soft_deleted"
        ∷ codes "uploads"
        ∷ codes "folders"
        ∷ codes "overflow"
        ∷ [])
    write_bytes_atomic process gcs_dir (codes "bucket.json") (bucket_sidecar short bucket)

  unfoldable pub update_bucket_files : Bucket → Text → Action Unit
  update_bucket_files bucket short = do
    gcs_dir ← walk_dirs true [] (codes ".gcs" ∷ [])
    write_bytes_atomic process gcs_dir (codes "bucket.json") (bucket_sidecar short bucket)

  -- `object_inserted`
  unfoldable pub insert_object_files : List Text × Text → Blob → Action Unit
  insert_object_files (parts, base) blob = do
    dir ← walk_dirs true [] parts
    guard_collision dir base blob.name
    write_bytes_atomic process dir base (media blob.media)
    write_bytes_atomic process dir (meta_of base) (dump blob blob.name)

  -- `object_updated`
  unfoldable pub update_object_files : List Text × Text → Blob → Action Unit
  update_object_files (parts, base) blob = do
    dir ← walk_dirs false [] parts
    write_bytes_atomic process dir (meta_of base) (dump blob blob.name)

  -- `object_soft_deleted`
  unfoldable pub soft_delete_object_files : List Text × Text → Blob → Action Unit
  soft_delete_object_files (parts, base) blob = do
    soft ← walk_dirs true [] (codes ".gcs" ∷ codes "soft_deleted" ∷ [])
    make_dir soft (decimal blob.generation)
    dst ← open_dir_nofollow soft (decimal blob.generation)
    dir ← walk_dirs false [] parts
    move_quiet dir base dst (codes "media")
    write_bytes_atomic process dst (codes "meta.gcsmeta") (dump blob blob.name)
    unlink_quiet dir (meta_of base)

module _ (sha256_hex : Text → Text) (process : Process) where
  -- `_write_folder`, in the directory of a bucket
  unfoldable pub write_folder_files : Text → Action Unit
  write_folder_files folder_name = do
    dir ← walk_dirs true [] (codes ".gcs" ∷ codes "folders" ∷ [])
    write_bytes_atomic process dir (overflow_token sha256_hex folder_name ++ codes ".json")
        (folder_envelope folder_name)

  -- The methods of `FileStore`
  unfoldable pub step : Event → Exec Disk (Unit {0})
  step (bucket_inserted bucket) =
      let short = bucket_name_from_proto bucket.name in
      in_bucket true short (insert_bucket_files process bucket short)
  step (bucket_deleted bucket_name) = remove_bucket_tree (bucket_name_from_proto bucket_name)
  step (bucket_updated bucket) =
      let short = bucket_name_from_proto bucket.name in
      in_bucket false short (update_bucket_files process bucket short)
  step (object_inserted bucket_name blob) =
      in_bucket false (bucket_name_from_proto bucket_name)
        (insert_object_files process (dest_parts sha256_hex blob.name) blob)
  step (object_deleted bucket_name object_name generation) =
      in_bucket false (bucket_name_from_proto bucket_name)
        (delete_object_files (dest_parts sha256_hex object_name))
  step (object_updated bucket_name blob) =
      in_bucket false (bucket_name_from_proto bucket_name)
        (update_object_files process (dest_parts sha256_hex blob.name) blob)
  step (object_soft_deleted bucket_name blob hard_delete_time) =
      in_bucket false (bucket_name_from_proto bucket_name)
        (soft_delete_object_files process (dest_parts sha256_hex blob.name) blob)
  step (object_purged bucket_name object_name generation) =
      purge_object (bucket_name_from_proto bucket_name) generation
  step (folder_inserted folder_name folder) =
      in_bucket false (folder_bucket_short folder_name) (write_folder_files folder_name)
  step (folder_deleted folder_name) =
      in_bucket false (folder_bucket_short folder_name) (remove_folder_files sha256_hex folder_name)
  step (folder_renamed src dst folder) = do
    in_bucket false (folder_bucket_short src) (remove_folder_files sha256_hex src)
    in_bucket false (folder_bucket_short src) (write_folder_files dst)
  step (upload_deleted bucket_name upload_id) =
      in_bucket false (bucket_name_from_proto bucket_name) (delete_staging upload_id)
  step (rewrite_deleted bucket_name token) =
      in_bucket false (bucket_name_from_proto bucket_name) (delete_staging token)
  step cleared = modify (λ disk. [])

  -- The notifications in a list, the latest first, from an empty root; the first that raises is the last.
  unfoldable pub run : List Event → Exec Disk (Unit {0})
  run [] = pure tt
  run (e ∷ es) = do run es; step e
