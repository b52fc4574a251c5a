-- ===== src/Blobs/Keys.antt =====
-- testbench/csek.py: customer-supplied encryption keys.
use storage_testbench.Base.{
  ℕ, not, ◌==◌, Option, none, some, List, [], ◌∷◌, Text, codes, text_eq, length, if◌then◌else◌,
}
use storage_testbench.Errors.{Context, py, value_error, invalid, csek, Result, ok, err}
use storage_testbench.Database.State.{Encryption}
use storage_testbench.Blobs.{Codecs}

module _ (lib : Codecs) where
  -- `check` behind the decoding of the key
  unfoldable pub check_key : Option (List ℕ) → List ℕ → Context → Result (Unit {0})
  check_key none expected_sha256 context = err (py value_error)
  check_key (some key) expected_sha256 context =
      if not (length key == 32)
      then err (csek context)
      else if not (text_eq expected_sha256 (lib.sha256 key))
      then err (csek context)
      else ok tt

  unfoldable pub check : Text → Text → List ℕ → Context → Result (Unit {0})
  unfolding check_key
  check algorithm key_b64 expected_sha256 context =
      if not (text_eq algorithm (codes "AES256"))
      then err (invalid context)
      else check_key (lib.decode64 key_b64) expected_sha256 context

  -- `validation`: the key of a request against that of the object.
  unfoldable pub validation : Encryption → List ℕ → Context → Result (Unit {0})
  unfolding check
  validation e [] context = elim e.key_sha256_b64 [ [] ↦ ok tt | _ ∷ _ ↦ err (csek context) ]
  validation e (_ ∷ _) context = elim (lib.decode64 e.key_sha256_b64) [
    | none ↦ err (py value_error)
    | some expected ↦ check e.algorithm e.key_b64 expected context
  ]
