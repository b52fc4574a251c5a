-- ===== src/Blobs.antt =====
-- gcs/object.py: the creation of objects, with testbench/csek.py. The library functions of Python are given
-- as a record.
pub mod Checksums
pub mod Keys
pub mod Create
use storage_testbench.Base.{ℕ, Option, List, Text}

-- CRC-32C, MD5, SHA-256 and base64; `decode64` fails where `base64.b64decode` raises.
pub record Codecs : Type 0 where
  pub crc32c : List ℕ → ℕ
  pub md5 : List ℕ → List ℕ
  pub sha256 : List ℕ → List ℕ
  pub encode64 : List ℕ → Text
  pub decode64 : Text → Option (List ℕ)
