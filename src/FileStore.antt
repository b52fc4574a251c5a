-- ===== src/FileStore.antt =====
-- testbench/filestore.py, with testbench/containment.py and testbench/sidecar.py: the file backend.
pub mod Disk
pub mod Methods
pub mod Effects
pub mod Places
pub mod Outcomes
pub mod SoftDeletion
pub mod Shown
pub mod Current
pub mod Buckets
pub mod Internal
pub mod Trees
pub mod Steps
pub mod Mirrored
pub mod Rebuild
pub mod ScanFile
pub mod Scan
pub mod Restart
use storage_testbench.Base.{ℕ, List, Text, Dict}
use storage_testbench.Database.State.{Blob, Bucket}

-- What a file holds: the bytes of an object, or a text that `json.dumps` makes, kept as what it is made
-- of. An object's sidecar has the true name and the metadata, which are kept as a `Blob` without media.
pub data Content : Type 0 where
  media : List ℕ → Content
  object_sidecar : Text → Blob → Content
  bucket_sidecar : Text → Bucket → Content
  folder_envelope : Text → Content

pub data Node : Type 0 where
  directory : Node
  file : Content → Node

-- The tree under the directory of a bucket, by the paths from there; `a/b` is `b` in the directory `a`.
abbrev pub Tree : Type 0
Tree = Dict Node

-- The directories of the buckets in `self._root`. Other files there are not modelled.
abbrev pub Disk : Type 0
Disk = Dict Tree
