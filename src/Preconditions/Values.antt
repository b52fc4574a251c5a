-- ===== src/Preconditions/Values.antt =====
-- The values that preconditions compare (testbench/common.py).
use storage_testbench.Base.{ℕ, Bool, true, false, Option, none, some, ℤ, int_eq}
use storage_testbench.Errors.{py, assertion_error, value_error, Result, err}
use storage_testbench.Database.State.{Blob}

-- A query parameter or a header of a request: not there, no integer (`int` raises `ValueError`), or an
-- integer.
pub data Arg : Type 0 where
  absent : Arg
  malformed : Arg
  integer : ℤ → Arg

-- The parameter of a precondition, which asserts that it is there, and reads it as an integer.
abbrev pub with_match : Arg → (ℤ → Result Bool) → Result Bool
with_match absent k = err (py assertion_error)
with_match malformed k = err (py value_error)
with_match (integer i) k = k i

-- `arg in request.args`
abbrev pub given : Arg → Bool
given absent = false
given malformed = true
given (integer i) = true

-- `blob.metadata.metageneration if blob is not None else 0`
abbrev pub actual : Option Blob → ℕ
actual none = 0
actual (some blob) = blob.metageneration

-- `i == live_generation`
abbrev pub is_generation : ℤ → Option ℕ → Bool
is_generation i none = false
is_generation i (some g) = int_eq i g
