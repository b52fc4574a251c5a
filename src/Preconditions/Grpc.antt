-- ===== src/Preconditions/Grpc.antt =====
-- testbench/common.py: `make_grpc_preconditions`. A field of a request is `malformed` never.
use storage_testbench.Base.{
  Bool, true, not, ◌&&◌, Option, none, some, is_some, List, [], ◌∷◌, ◌++◌, Text, codes, ℤ, int_eq,
  if◌then◌else◌,
}
use storage_testbench.Errors.{py, assertion_error, Result, ok, err, mismatch, notchanged}
use storage_testbench.Database.State.{ObjectPrecondition}
use storage_testbench.Preconditions.Values.{actual, is_generation}

-- `assert request.HasField(...)`
abbrev with_field : Option ℤ → (ℤ → Result Bool) → Result Bool
with_field none k = err (py assertion_error)
with_field (some i) k = k i

unfoldable pub if_metageneration_match : Option ℤ → ObjectPrecondition
if_metageneration_match field blob live context = with_field field λ match.
    if int_eq match 0 && not (is_some blob)
    then ok true
    else if not (int_eq match 0) && int_eq match (actual blob)
    then ok true
    else err (mismatch context)

unfoldable pub if_metageneration_not_match : Option ℤ → ObjectPrecondition
if_metageneration_not_match field blob live context = with_field field λ match.
    if int_eq match 0 && is_some blob
    then ok true
    else if not (int_eq match 0) && not (int_eq match (actual blob))
    then ok true
    else err (notchanged context)

unfoldable pub if_generation_match : Option ℤ → ObjectPrecondition
if_generation_match field blob live context = with_field field λ match.
    if int_eq match 0 && not (is_some live)
    then ok true
    else if not (int_eq match 0) && is_generation match live
    then ok true
    else err (mismatch context)

unfoldable pub if_generation_not_match : Option ℤ → ObjectPrecondition
if_generation_not_match field blob live context = with_field field λ match.
    if int_eq match 0 && is_some live
    then ok true
    else if not (int_eq match 0) && not (is_generation match live)
    then ok true
    else err (notchanged context)

-- `if hasattr(request, field) and request.HasField(field): preconditions.append(predicate)`
abbrev append_field :
    Option ℤ → ObjectPrecondition → List ObjectPrecondition → List ObjectPrecondition
append_field none predicate preconditions = preconditions
append_field (some i) predicate preconditions = predicate ∷ preconditions

-- `make_grpc_preconditions`: `field` gives the optional fields of the request.
unfoldable pub make_grpc_preconditions : (Text → Option ℤ) → Text → List ObjectPrecondition
make_grpc_preconditions field prefix =
    let metageneration_match = field (prefix ++ codes "metageneration_match") in
    let metageneration_not_match = field (prefix ++ codes "metageneration_not_match") in
    let generation_match = field (prefix ++ codes "generation_match") in
    let generation_not_match = field (prefix ++ codes "generation_not_match") in
    append_field metageneration_match (if_metageneration_match metageneration_match) (
      append_field metageneration_not_match (if_metageneration_not_match metageneration_not_match) (
        append_field generation_match (if_generation_match generation_match)
          (append_field generation_not_match (if_generation_not_match generation_not_match) [])))
