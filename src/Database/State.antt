-- ===== src/Database/State.antt =====
-- testbench/database.py: the state of `Database`, with what it reads of the buckets, the objects,
-- the uploads, the rewrites and the retry tests, and the notifications that it sends to its store
-- (testbench/store.py). The locks are not modelled: each method is one step.
use storage_testbench.Base.{ℕ, Bool, Option, List, [], Text, Dict}
use storage_testbench.Errors.{Context, Result}

-- What `Database` reads or writes of `gcs.bucket.Bucket.metadata`; `details` stands for the rest.
pub record Bucket : Type 0 where
  pub name : Text
  pub metageneration : ℕ
  pub versioning_enabled : Bool
  -- `soft_delete_policy.retention_duration.seconds`, if `HasField("soft_delete_policy")`
  pub soft_delete_policy : Option ℕ
  pub autoclass_enabled : Bool
  pub details : Text

-- What `Database` reads or writes of `gcs.object.Object`: its metadata and its media. Times are
-- seconds; an unset `hard_delete_time` is the epoch.
pub record Blob : Type 0 where
  pub name : Text
  pub generation : ℕ
  pub metageneration : ℕ
  pub storage_class : Text
  pub create_time : ℕ
  pub soft_delete_time : Option ℕ
  pub hard_delete_time : ℕ
  pub size : ℕ
  pub md5_hash : List ℕ
  pub crc32c : ℕ
  pub update_time : ℕ
  pub finalize_time : Option ℕ
  pub content_encoding : Text
  -- SHA-256 of the customer's key; empty if there is none
  pub key_sha256 : List ℕ
  -- the custom metadata
  pub metadata : Dict Text
  pub details : Text
  pub media : List ℕ

-- What an upload or a rewrite is given of the object to create, `storage_pb2.Object`: an empty
-- `md5_hash` and no `crc32c` are checksums that are not set. `key_sha256` is that of `customer_encryption`.
pub record Resource : Type 0 where
  pub name : Text
  pub storage_class : Text
  pub md5_hash : List ℕ
  pub crc32c : Option ℕ
  pub content_encoding : Text
  pub key_sha256 : List ℕ
  pub metadata : Dict Text
  pub details : Text

-- `testbench.common.make_*_preconditions` builds lists of these; they raise or return a Boolean.
abbrev pub ObjectPrecondition : Type 0
ObjectPrecondition = Option Blob → Option ℕ → Context → Result Bool

-- The headers of a customer's encryption key, empty if they are not there.
pub record Encryption : Type 0 where
  pub algorithm : Text
  pub key_b64 : Text
  pub key_sha256_b64 : Text

-- What is kept of the request that starts an upload or a rewrite.
pub record Origin : Type 0 where
  pub preconditions : List ObjectPrecondition
  pub encryption : Encryption
  pub source_encryption : Encryption
  pub source_generation : Option ℕ
  pub source_preconditions : List ObjectPrecondition
  pub instruction : Option Text
  -- `x-upload-content-length`, 0 if it is not there
  pub content_length : ℕ

-- An upload, with the bytes that have arrived, and the object once it is created.
pub record Upload : Type 0 where
  pub upload_id : Text
  pub bucket_name : Text
  pub metadata : Resource
  pub origin : Origin
  pub media : List ℕ
  pub complete : Bool
  pub blob : Option Blob

-- A rewrite, with the bytes that are copied.
pub record Rewrite : Type 0 where
  pub token : Text
  pub src_bucket_name : Text
  pub src_object_name : Text
  pub dst_bucket_name : Text
  pub dst_object_name : Text
  pub origin : Origin
  pub max_bytes : ℕ
  pub media : List ℕ

pub record RetryTest : Type 0 where
  pub id : Text
  pub instructions : Dict (List Text)
  pub completed : Bool
  pub transport : Text

pub record Folder : Type 0 where
  pub name : Text
  pub metageneration : ℕ

-- The calls of the store, with their arguments.
pub data Event : Type 0 where
  bucket_inserted : Bucket → Event
  bucket_deleted : Text → Event
  bucket_updated : Bucket → Event
  object_inserted : Text → Blob → Event
  object_deleted : Text → Text → ℕ → Event
  object_updated : Text → Blob → Event
  object_soft_deleted : Text → Blob → ℕ → Event
  object_purged : Text → Text → ℕ → Event
  folder_inserted : Text → Folder → Event
  folder_deleted : Text → Event
  folder_renamed : Text → Text → Folder → Event
  upload_deleted : Text → Text → Event
  rewrite_deleted : Text → Text → Event
  cleared : Event

pub record Database : Type 0 where
  pub buckets : Dict Bucket
  pub objects : Dict (Dict Blob)
  pub live_generations : Dict (Dict ℕ)
  pub soft_deleted_objects : Dict (Dict (List Blob))
  pub uploads : Dict Upload
  pub rewrites : Dict Rewrite
  pub retry_tests : Dict RetryTest
  pub supported_methods : List Text
  pub folders : Dict Folder
  -- what the store was told, the latest first
  pub events : List Event

-- `Database.init()` over a store that does not hydrate it.
abbrev pub init : Database
init = record {
  buckets = [];
  objects = [];
  live_generations = [];
  soft_deleted_objects = [];
  uploads = [];
  rewrites = [];
  retry_tests = [];
  supported_methods = [];
  folders = [];
  events = [];
}

abbrev pub BucketPrecondition : Type 0
BucketPrecondition = Bucket → Context → Result Bool
