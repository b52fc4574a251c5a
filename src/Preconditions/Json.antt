-- ===== src/Preconditions/Json.antt =====
-- testbench/common.py: `make_json_preconditions`.
use storage_testbench.Base.{
  ℕ, Bool, true, not, ◌&&◌, ◌==◌, Option, none, some, is_some, List, [], ◌∷◌, ◌++◌, Text, codes,
  int_eq, if◌then◌else◌,
}
use storage_testbench.Errors.{py, attribute_error, ok, err, mismatch, notchanged}
use storage_testbench.Database.State.{ObjectPrecondition}
use storage_testbench.Preconditions.Values.{Arg, with_match, given, actual, is_generation}

-- `live_generation is None or live_generation == 0`
abbrev pub is_unset : Option ℕ → Bool
is_unset none = true
is_unset (some g) = g == 0

-- Each precondition takes the value of its parameter. If there is no object, the report of a mismatch
-- reads the metageneration of `None`.
unfoldable pub if_metageneration_match : Arg → ObjectPrecondition
if_metageneration_match arg blob live context = with_match arg λ match.
    if int_eq match 0 && not (is_some blob)
    then ok true
    else if not (int_eq match 0) && int_eq match (actual blob)
    then ok true
    else elim blob [ none ↦ err (py attribute_error) | some _ ↦ err (mismatch context) ]

unfoldable pub if_metageneration_not_match : Arg → ObjectPrecondition
if_metageneration_not_match arg blob live context = with_match arg λ match.
    if int_eq match 0 && is_some blob
    then ok true
    else if not (int_eq match 0) && not (int_eq match (actual blob))
    then ok true
    else err (notchanged context)

unfoldable pub if_generation_match : Arg → ObjectPrecondition
if_generation_match arg blob live context = with_match arg λ match.
    if int_eq match 0 && is_unset live
    then ok true
    else if not (int_eq match 0) && is_generation match live
    then ok true
    else err (mismatch context)

unfoldable pub if_generation_not_match : Arg → ObjectPrecondition
if_generation_not_match arg blob live context = with_match arg λ match.
    if int_eq match 0 && not (is_unset live)
    then ok true
    else if not (int_eq match 0) && not (is_generation match live)
    then ok true
    else err (notchanged context)

-- `if arg in request.args: preconditions.append(predicate)`
abbrev pub append_given :
    Arg → ObjectPrecondition → List ObjectPrecondition → List ObjectPrecondition
append_given arg predicate preconditions =
    if given arg then predicate ∷ preconditions else preconditions

-- `make_json_preconditions`: `args` gives the parameters of the request, `prefix` is `if` or `ifSource`.
unfoldable pub make_json_preconditions : (Text → Arg) → Text → List ObjectPrecondition
make_json_preconditions args prefix =
    let metageneration_match = args (prefix ++ codes "MetagenerationMatch") in
    let metageneration_not_match = args (prefix ++ codes "MetagenerationNotMatch") in
    let generation_match = args (prefix ++ codes "GenerationMatch") in
    let generation_not_match = args (prefix ++ codes "GenerationNotMatch") in
    append_given metageneration_match (if_metageneration_match metageneration_match) (
      append_given metageneration_not_match (if_metageneration_not_match metageneration_not_match) (
        append_given generation_match (if_generation_match generation_match)
          (append_given generation_not_match (if_generation_not_match generation_not_match) [])))
