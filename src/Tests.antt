-- ===== src/Tests.antt =====
-- The theorems at concrete inputs, and the test data for them.
pub mod Stores
pub mod Queues
pub mod Formats
pub mod Transfers
pub mod Files
pub mod Accounts
use storage_testbench.Base.{ℕ, true, false, none, some, List, [], ◌∷◌, Text, codes}
use storage_testbench.Errors.{Context, rest, Result, ok}
use storage_testbench.Database.State.{
  Database, Bucket, Blob, Resource, Encryption, Origin, Upload, init,
}
use storage_testbench.Database.Requests.{
  Request, create_bucket, create_object, KeepsNames, EachKeepsNames, no_requests, and_request,
  serve, serve-IsWellFormed,
}
use storage_testbench.Database.WellFormed.{IsWellFormed, init-IsWellFormed}

abbrev pub any_name : Text → Context → Result (Unit {0})
any_name name context = ok tt

abbrev pub photos : Text
photos = codes "projects/_/buckets/photos"

-- Soft deleted objects are kept for 60 seconds.
abbrev pub photos_bucket : Bucket
photos_bucket = record {
  name = photos;
  metageneration = 4;
  versioning_enabled = true;
  soft_delete_policy = some 60;
  autoclass_enabled = false;
  details = [];
}

abbrev pub cat : ℕ → Blob
cat g = record {
  name = codes "cat";
  generation = g;
  metageneration = 1;
  storage_class = codes "STANDARD";
  create_time = 5;
  soft_delete_time = none;
  hard_delete_time = 0;
  size = 3;
  md5_hash = [];
  crc32c = 24;
  update_time = 5;
  finalize_time = some 5;
  content_encoding = [];
  key_sha256 = [];
  metadata = [];
  details = [];
  media = 7 ∷ 8 ∷ 9 ∷ [];
}

-- A bucket is created, and two generations of one object.
abbrev pub uploads : List Request
uploads =
    create_bucket photos_bucket rest
    ∷ create_object (codes "photos") (cat 12) rest []
    ∷ create_object (codes "photos") (cat 15) rest []
    ∷ []

abbrev pub album : Database
album = serve any_name uploads init

pub uploads-EachKeepsNames : EachKeepsNames uploads
unfolding KeepsNames
uploads-EachKeepsNames = and_request tt (and_request tt (and_request tt no_requests))

pub album-IsWellFormed : IsWellFormed album
album-IsWellFormed = serve-IsWellFormed any_name uploads uploads-EachKeepsNames init-IsWellFormed

abbrev pub no_encryption : Encryption
no_encryption = record { algorithm = []; key_b64 = []; key_sha256_b64 = [] }

-- A request without preconditions.
abbrev pub plain : Origin
plain = record {
  preconditions = [];
  encryption = no_encryption;
  source_encryption = no_encryption;
  source_generation = none;
  source_preconditions = [];
  instruction = none;
  content_length = 0;
}

abbrev pub cat_resource : Resource
cat_resource = record {
  name = codes "cat";
  storage_class = codes "STANDARD";
  md5_hash = [];
  crc32c = none;
  content_encoding = [];
  key_sha256 = [];
  metadata = [];
  details = [];
}

-- An upload to which these bytes have come.
abbrev pub upload : List ℕ → Upload
upload media = record {
  upload_id = codes "u";
  bucket_name = photos;
  metadata = cat_resource;
  origin = plain;
  media = media;
  complete = false;
  blob = none;
}
