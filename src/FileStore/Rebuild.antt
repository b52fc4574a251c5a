-- ===== src/FileStore/Rebuild.antt =====
-- testbench/filestore.py: `rebuild_index`, the scan of the tree when the program starts. The files of two
-- paths are two files, so the collision of inodes does not arise; the order in which `os.walk` gives the
-- files of a bucket is that of the tree.
use storage_testbench.Base.{
  ◌-◌, ◌&&◌, ltb, Option, none, some, List, [], ◌∷◌, ◌++◌, map, Text, codes, text_eq, text_lt,
  length, Dict, lookup, insert, alter, take, if◌then◌else◌,
}
use storage_testbench.Errors.{
  py, value_error, attribute_error, Result, ok, err, Exec, pure, lift, modify, ◌>>=◌, ◌>>◌,
}
use storage_testbench.Database.State.{Database, Bucket, Blob}
use storage_testbench.Database.Objects.{key_of}
use storage_testbench.Media.{Bytes}
use storage_testbench.FileStore.{
  Content, media, object_sidecar, bucket_sidecar, folder_envelope, Tree, Disk,
}
use storage_testbench.FileStore.Disk.{file_at}
use storage_testbench.FileStore.Places.{Role, live, soft, folder, skip, role_of}

-- `sidecar.read` of an object's sidecar: that of a bucket has no generation.
unfoldable pub read_object_sidecar : Content → Result Blob
read_object_sidecar (object_sidecar true_name blob) = ok blob
read_object_sidecar (bucket_sidecar true_name bucket) = err (py attribute_error)
read_object_sidecar (media bytes) = err (py value_error)
read_object_sidecar (folder_envelope name) = err (py value_error)

unfoldable pub read_bucket_sidecar : Content → Result Bucket
read_bucket_sidecar (bucket_sidecar true_name bucket) = ok bucket
read_bucket_sidecar (object_sidecar true_name blob) = err (py attribute_error)
read_bucket_sidecar (media bytes) = err (py value_error)
read_bucket_sidecar (folder_envelope name) = err (py value_error)

-- `json.load(handle)["name"]`
unfoldable pub envelope_name : Content → Result Text
envelope_name (folder_envelope name) = ok name
envelope_name (object_sidecar true_name blob) = ok true_name
envelope_name (bucket_sidecar true_name bucket) = ok true_name
envelope_name (media bytes) = err (py value_error)

-- `filename[: -len(suffix)]`, of a path
abbrev pub without : Text → Text → Text
without suffix path = take (length path - length suffix) path

-- `d.setdefault(name, []).append(blob)`
abbrev pub append_blob : Blob → Dict (List Blob) → Dict (List Blob)
append_blob blob d = elim (lookup blob.name d) [
  | none ↦ insert blob.name (blob ∷ []) d
  | some blobs ↦ insert blob.name (blobs ++ blob ∷ []) d
]

-- `sorted(os.listdir(self._root))`, with the trees
unfoldable pub insert_sorted : Text × Tree → Disk → Disk
insert_sorted e [] = e ∷ []
insert_sorted e (f ∷ disk) =
    let rest = insert_sorted e disk in if text_lt f.0 e.0 then f ∷ rest else e ∷ f ∷ disk

unfoldable pub sorted : Disk → Disk
sorted [] = []
sorted (e ∷ disk) = insert_sorted e (sorted disk)

-- `_hydrate_folder` behind the reading of the file
abbrev pub put_folder : Text → Database → Database
put_folder name s = record s {
  folders = insert name (record { name = name; metageneration = 1 }) s.folders;
}

module _ (bk : Text) where
  -- `_hydrate_live` and `_hydrate_soft_deleted` behind the reading of the file
  abbrev pub put_live : Blob → Database → Database
  put_live blob s = record s {
    objects = alter bk (insert (key_of blob) blob) s.objects;
    live_generations = alter bk (insert blob.name blob.generation) s.live_generations;
  }

  abbrev pub put_soft : Blob → Database → Database
  put_soft blob s = record s {
    soft_deleted_objects = alter bk (append_blob blob) s.soft_deleted_objects;
  }

-- The body of the loop of `rebuild_index`, behind the reading of `bucket.json`
abbrev pub reset_bucket : Bucket → Database → Database
reset_bucket bucket s = record s {
  buckets = insert bucket.name bucket s.buckets;
  objects = insert bucket.name [] s.objects;
  live_generations = insert bucket.name [] s.live_generations;
  soft_deleted_objects = insert bucket.name [] s.soft_deleted_objects;
}

-- The MD5 of no bytes, and the bytes of the text of an envelope, which are not modelled
module _ (md5_of_empty : Bytes) (text_of : Content → Bytes) where
  unfoldable pub bytes_of : Content → Bytes
  bytes_of (media bytes) = bytes
  bytes_of (object_sidecar true_name blob) = text_of (object_sidecar true_name blob)
  bytes_of (bucket_sidecar true_name bucket) = text_of (bucket_sidecar true_name bucket)
  bytes_of (folder_envelope name) = text_of (folder_envelope name)

  -- `_hydrate_media`, with what `FileMedia` reads: the whole file, or as many bytes as the sidecar says
  unfoldable pub hydrate_media : Option Content → Blob → Bytes
  hydrate_media none o = []
  hydrate_media (some content) o =
      if ltb 0 o.size && text_eq o.md5_hash md5_of_empty
      then bytes_of content
      else take o.size (bytes_of content)

  module _ (bk : Text) (tree : Tree) where
    unfoldable pub hydrate_live : Text → Content → Exec Database (Unit {0})
    hydrate_live path content = do
      o ← lift (read_object_sidecar content)
      modify (
          put_live bk
            (record o { media = hydrate_media (file_at tree (without (codes ".gcsmeta") path)) o }))

    unfoldable pub hydrate_soft_deleted : Text → Content → Exec Database (Unit {0})
    hydrate_soft_deleted path content = do
      o ← lift (read_object_sidecar content)
      modify (
          put_soft bk (record o {
            media =
                hydrate_media (file_at tree (without (codes "meta.gcsmeta") path ++ codes "media"))
                  o;
          }))

    unfoldable pub hydrate_folder : Content → Exec Database (Unit {0})
    hydrate_folder content = do name ← lift (envelope_name content); modify (put_folder name)

    -- The body of the loops of `_scan_bucket`
    unfoldable pub scan_file : Role → Text → Option Content → Exec Database (Unit {0})
    scan_file r path none = pure tt
    scan_file live path (some content) = hydrate_live path content
    scan_file soft path (some content) = hydrate_soft_deleted path content
    scan_file folder path (some content) = hydrate_folder content
    scan_file skip path (some content) = pure tt

    unfoldable pub scan_files : List Text → Exec Database (Unit {0})
    scan_files [] = pure tt
    scan_files (path ∷ paths) = do
      scan_file (role_of path) path (file_at tree path)
      scan_files paths

    -- `_scan_bucket`
    unfoldable pub scan_bucket : Exec Database (Unit {0})
    scan_bucket = scan_files (map (λ e. e.0) tree)

  unfoldable pub rebuild_bucket : Bucket → Tree → Exec Database (Unit {0})
  rebuild_bucket bucket tree = do modify (reset_bucket bucket); scan_bucket bucket.name tree

  unfoldable pub rebuild_tree : Option Content → Tree → Exec Database (Unit {0})
  rebuild_tree none tree = pure tt
  rebuild_tree (some content) tree = do
    bucket ← lift (read_bucket_sidecar content)
    rebuild_bucket bucket tree

  unfoldable pub rebuild_trees : Disk → Exec Database (Unit {0})
  rebuild_trees [] = pure tt
  rebuild_trees ((short, tree) ∷ disk) = do
    rebuild_tree (file_at tree (codes ".gcs/bucket.json")) tree
    rebuild_trees disk

  unfoldable pub rebuild_index : Disk → Exec Database (Unit {0})
  rebuild_index disk = rebuild_trees (sorted disk)
