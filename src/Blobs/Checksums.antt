-- ===== src/Blobs/Checksums.antt =====
-- testbench/common.py: checksums as REST and as gRPC have them.
use storage_testbench.Base.{
  ℕ, ◌+◌, ◌*◌, ◌/◌, ◌%◌, ◌<◌, Option, none, some, List, [], ◌∷◌, ◌≡◌, ap, Text, arith,
}
use storage_testbench.Blobs.{Codecs}

-- `struct.pack(">I", n)`
unfoldable pub pack : ℕ → List ℕ
pack n = n / 16777216 % 256 ∷ n / 65536 % 256 ∷ n / 256 % 256 ∷ n % 256 ∷ []

-- `struct.unpack(">I", b)[0]`: four bytes are asked for.
unfoldable pub unpack : List ℕ → Option ℕ
unpack (a ∷ b ∷ c ∷ d ∷ []) = some (((a * 256 + b) * 256 + c) * 256 + d)
unpack _ = none

module _ (lib : Codecs) where
  -- `none` where the source raises
  unfoldable pub rest_crc32c_to_proto : Text → Option ℕ
  unfolding unpack
  rest_crc32c_to_proto crc32c = elim (lib.decode64 crc32c) [ none ↦ none | some b ↦ unpack b ]

  unfoldable pub rest_crc32c_from_proto : ℕ → Text
  unfolding pack
  rest_crc32c_from_proto crc32c = lib.encode64 (pack crc32c)

  unfoldable pub rest_md5_to_proto : Text → Option (List ℕ)
  rest_md5_to_proto md5 = lib.decode64 md5

  unfoldable pub rest_md5_from_proto : List ℕ → Text
  rest_md5_from_proto md5 = lib.encode64 md5

unpack-pack : (n : ℕ) → n < 4294967296 → unpack (pack n) ≡ some n
unfolding unpack pack
unpack-pack n small =
    let same : ((n / 16777216 % 256 * 256 + n / 65536 % 256) * 256 + n / 256 % 256) * 256 + n % 256
        ≡ n =
      omega arith in
    ap some same

-- A CRC of 32 bits comes back from its REST form, if base64 decodes what it has encoded.
pub rest_crc32c_to_proto-from_proto :
    (lib : Codecs) (n : ℕ)
    → ((b : List ℕ) → lib.decode64 (lib.encode64 b) ≡ some b)
    → n < 4294967296
    → rest_crc32c_to_proto lib (rest_crc32c_from_proto lib n) ≡ some n
unfolding rest_crc32c_to_proto rest_crc32c_from_proto
rest_crc32c_to_proto-from_proto lib n decodes small =
    rw (rest_crc32c_to_proto, decodes (pack n)) (unpack-pack n small)
