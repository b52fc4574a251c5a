-- ===== src/Preconditions/Xml.antt =====
-- testbench/common.py: `make_xml_preconditions`.
use storage_testbench.Base.{true, not, ◌&&◌, is_some, List, [], Text, codes, int_eq, if◌then◌else◌}
use storage_testbench.Errors.{ok, err, mismatch}
use storage_testbench.Database.State.{ObjectPrecondition}
use storage_testbench.Preconditions.Values.{Arg, with_match, actual, is_generation}
use storage_testbench.Preconditions.Json.{append_given}

unfoldable pub if_metageneration_match : Arg → ObjectPrecondition
if_metageneration_match arg blob live context = with_match arg λ match.
    if int_eq match 0 && not (is_some blob)
    then ok true
    else if not (int_eq match 0) && int_eq match (actual blob)
    then ok true
    else err (mismatch context)

unfoldable pub if_generation_match : Arg → ObjectPrecondition
if_generation_match arg blob live context = with_match arg λ match.
    if int_eq match 0 && not (is_some live)
    then ok true
    else if not (int_eq match 0) && is_generation match live
    then ok true
    else err (mismatch context)

unfoldable pub make_xml_preconditions : (Text → Arg) → List ObjectPrecondition
make_xml_preconditions headers =
    let metageneration_match = headers (codes "x-goog-if-metageneration-match") in
    let generation_match = headers (codes "x-goog-if-generation-match") in
    append_given metageneration_match (if_metageneration_match metageneration_match)
      (append_given generation_match (if_generation_match generation_match) [])
