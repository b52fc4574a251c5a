-- ===== src/Rewrites.antt =====
-- gcs/rewrite.py, and the handlers of a rewrite in testbench/rest_server.py (`objects_rewrite`) and
-- testbench/grpc_server.py (`RewriteObject`).
pub mod Progress
use storage_testbench.Base.{
  ℕ, zero, suc, ◌+◌, ◌-◌, ◌*◌, min, Bool, true, false, ◌==◌, leb, ltb, Option, none, some, List, [],
  ◌∷◌, ◌++◌, Text, contains, lookup, insert, alter, length, if◌then◌else◌,
}
use storage_testbench.Errors.{
  Context, rest, grpc, Result, pure, lift, modify, gets, raise, ◌>>=◌, ◌>>◌,
}
use storage_testbench.Database.State.{Database, Bucket, Blob, Resource, Origin, Rewrite}
use storage_testbench.Database.Access.{Action, bucket_key, get_bucket}
use storage_testbench.Database.Buckets.{or_none_type}
use storage_testbench.Database.Objects.{key_of, get_object, insert_object, put_blob}
use storage_testbench.Database.Folders.{get_rewrite, insert_rewrite}
use storage_testbench.Media.{Bytes, chunks, concat}
use storage_testbench.Blobs.{Codecs}
use storage_testbench.Blobs.Keys.{validation}
use storage_testbench.Blobs.Create.{Clock, init_object}

-- `MIN_REWRITE_BYTES`
abbrev pub min_rewrite_bytes : ℕ
min_rewrite_bytes = 1048576

-- `_normalize_max_bytes`
unfoldable pub normalize_max_bytes : Option ℕ → ℕ
normalize_max_bytes none = min_rewrite_bytes
normalize_max_bytes (some max_bytes) =
    if ltb max_bytes min_rewrite_bytes then min_rewrite_bytes else max_bytes

-- `total_bytes_rewritten`: behind an end of the source that has moved back, it is that end.
unfoldable pub total_bytes : Rewrite → Bytes → ℕ
total_bytes rewrite source =
    let offset = length rewrite.media in
    if leb offset (length source)
    then offset + min rewrite.max_bytes (length source - offset)
    else length source

-- The window of one call, appended in chunks of `size` bytes.
unfoldable pub copy_window : ℕ → Rewrite → Bytes → Rewrite
unfolding total_bytes chunks concat
copy_window size rewrite source =
    let offset = length rewrite.media in
    let total = total_bytes rewrite source in
    record rewrite {
      media = rewrite.media ++ concat (chunks (total - offset) source offset total size);
    }

pub data Answer : Type 0 where
  more : Text → ℕ → Answer
  done : Blob → Answer

-- The metadata of the source, under another name.
unfoldable pub resource_of : Text → Blob → Resource
resource_of name o = record {
  name = name;
  storage_class = o.storage_class;
  md5_hash = o.md5_hash;
  crc32c = some o.crc32c;
  content_encoding = o.content_encoding;
  key_sha256 = o.key_sha256;
  metadata = o.metadata;
  details = o.details;
}

-- The metadata that `RewriteObject` gives the object: the destination of the request, if it has one.
unfoldable pub destination_of : Option Resource → Text → Blob → Resource
unfolding resource_of
destination_of none name o = resource_of name o
destination_of (some r) name o = record r { name = name }

-- A change of an object behind its insertion: it is there if the insertion was not given up.
unfoldable pub change_inserted : Text → Blob → Blob → Database → Database
change_inserted bk o o' s = elim (lookup bk s.objects) [
  | none ↦ s
  | some objects ↦ if contains (key_of o) objects then put_blob bk (key_of o) o' s else s
]

-- The last lines of the REST handlers: `patch` is the change that the body of the request asks for.
unfoldable pub settle : (Blob → Blob) → Blob → Blob
settle patch o = let p = patch o in record p { metageneration = 1; update_time = p.create_time }

-- The names of a call: over REST they stand in the path of each request, over gRPC they are those of the
-- first one.
pub record Names : Type 0 where
  pub src_bucket_name : Text
  pub src_object_name : Text
  pub dst_bucket_name : Text
  pub dst_object_name : Text

abbrev pub names_of : Rewrite → Names
names_of r = record {
  src_bucket_name = r.src_bucket_name;
  src_object_name = r.src_object_name;
  dst_bucket_name = r.dst_bucket_name;
  dst_object_name = r.dst_object_name;
}

module _ (lib : Codecs) (size : ℕ) where
  -- What both handlers do up to the end of the window: the rewrite behind it, and the source.
  unfoldable pub advance : Context → Names → Rewrite → Action (Rewrite × Blob)
  unfolding insert_rewrite
  advance context names rewrite = do
    src_object ←
        or_none_type
          (← get_object names.src_bucket_name names.src_object_name context
            rewrite.origin.source_generation rewrite.origin.source_preconditions)
    lift (validation lib rewrite.origin.source_encryption src_object.key_sha256 context)
    let rewrite' = copy_window size rewrite src_object.media
    insert_rewrite rewrite'
    pure (rewrite', src_object)

  abbrev is_done : Rewrite → Blob → Bool
  is_done rewrite src_object = total_bytes rewrite src_object.media == length src_object.media

  -- The end of `objects_rewrite`: `call` is the request of this call.
  unfoldable pub finish_rest :
      Clock → Origin → (Blob → Blob) → Names → Rewrite → Blob → Action Answer
  unfolding settle change_inserted resource_of
  finish_rest clock call patch names rewrite src_object = do
    dst_bucket ← or_none_type (← get_bucket names.dst_bucket_name rest [])
    dst_object ← lift (
        init_object lib clock call (resource_of names.dst_object_name src_object) rewrite.media
          rest)
    insert_object names.dst_bucket_name dst_object rest rewrite.origin.preconditions
    modify (
        change_inserted (bucket_key names.dst_bucket_name rest) dst_object
          (settle patch dst_object))
    pure (done (settle patch dst_object))

  -- `objects_rewrite` behind the lookup of the rewrite
  unfoldable pub continue_rest : Clock → Origin → (Blob → Blob) → Names → Rewrite → Action Answer
  continue_rest clock call patch names rewrite = do
    (rewrite', src_object) ← advance rest names rewrite
    (if is_done rewrite src_object
        then finish_rest clock call patch names rewrite' src_object
        else pure (more rewrite.token (length rewrite'.media)))

  unfoldable pub objects_rewrite :
      Clock → Origin → (Blob → Blob) → Option Text → Rewrite → Action Answer
  unfolding continue_rest get_rewrite insert_rewrite
  objects_rewrite clock call patch none named = do
    insert_rewrite named
    continue_rest clock call patch (names_of named) named
  objects_rewrite clock call patch (some token) named = do
    rewrite ← get_rewrite token rest
    continue_rest clock call patch (names_of named) rewrite

  -- The end of `RewriteObject`: `destination` is the field of the request.
  unfoldable pub finish_grpc : Clock → Option Resource → Rewrite → Blob → Action Answer
  finish_grpc clock destination rewrite src_object = do
    dst_bucket ← or_none_type (← get_bucket rewrite.dst_bucket_name grpc [])
    dst_object ← lift (
        init_object lib clock rewrite.origin
          (destination_of destination rewrite.dst_object_name src_object) rewrite.media grpc)
    insert_object rewrite.dst_bucket_name dst_object grpc rewrite.origin.preconditions
    pure (done dst_object)

  unfoldable pub continue_grpc : Clock → Option Resource → Rewrite → Action Answer
  continue_grpc clock destination rewrite = do
    (rewrite', src_object) ← advance grpc (names_of rewrite) rewrite
    (if is_done rewrite src_object
        then finish_grpc clock destination rewrite' src_object
        else pure (more rewrite.token (total_bytes rewrite src_object.media)))

  unfoldable pub rewrite_object : Clock → Option Resource → Option Text → Rewrite → Action Answer
  unfolding continue_grpc get_rewrite insert_rewrite
  rewrite_object clock destination none rewrite = do
    insert_rewrite rewrite
    continue_grpc clock destination rewrite
  rewrite_object clock destination (some token) _ = do
    rewrite ← get_rewrite token grpc
    continue_grpc clock destination rewrite
