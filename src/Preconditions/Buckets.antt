-- ===== src/Preconditions/Buckets.antt =====
-- testbench/common.py: `make_json_bucket_preconditions` and `make_grpc_bucket_preconditions`. A
-- precondition on a bucket meets a bucket that is there: `get_bucket` has found it.
use storage_testbench.Base.{
  Bool, true, false, not, ◌&&◌, Option, none, some, List, [], ◌∷◌, ◌≡◌, ◌≢◌, Text, codes, ℤ, int_eq,
  arith, if◌then◌else◌,
}
use storage_testbench.Errors.{Context, py, assertion_error, Result, ok, err, mismatch, notchanged}
use storage_testbench.Database.State.{Bucket, BucketPrecondition}
use storage_testbench.Database.Access.{check_bucket}
use storage_testbench.Preconditions.Values.{Arg, absent, integer, with_match, given}

-- The test that both transports share.
abbrev matches : ℤ → Bucket → Context → Result Bool
matches match bucket context =
    if not (int_eq match 0) && int_eq match bucket.metageneration
    then ok true
    else err (mismatch context)

abbrev differs : ℤ → Bucket → Context → Result Bool
differs match bucket context =
    if int_eq match 0
    then ok true
    else if not (int_eq match 0) && not (int_eq match bucket.metageneration)
    then ok true
    else err (notchanged context)

unfoldable pub json_metageneration_match : Arg → BucketPrecondition
json_metageneration_match arg bucket context = with_match arg λ match. matches match bucket context

unfoldable pub json_metageneration_not_match : Arg → BucketPrecondition
json_metageneration_not_match arg bucket context =
    with_match arg λ match. differs match bucket context

abbrev append_given : Arg → BucketPrecondition → List BucketPrecondition → List BucketPrecondition
append_given arg predicate preconditions =
    if given arg then predicate ∷ preconditions else preconditions

unfoldable pub make_json_bucket_preconditions : (Text → Arg) → List BucketPrecondition
unfolding json_metageneration_match json_metageneration_not_match
make_json_bucket_preconditions args =
    let metageneration_match = args (codes "ifMetagenerationMatch") in
    let metageneration_not_match = args (codes "ifMetagenerationNotMatch") in
    append_given metageneration_match (json_metageneration_match metageneration_match) (
      append_given metageneration_not_match (json_metageneration_not_match metageneration_not_match)
        [])

-- `assert request.HasField(...)`
abbrev with_field : Option ℤ → (ℤ → Result Bool) → Result Bool
with_field none k = err (py assertion_error)
with_field (some i) k = k i

unfoldable pub grpc_metageneration_match : Option ℤ → BucketPrecondition
grpc_metageneration_match field bucket context =
    with_field field λ match. matches match bucket context

unfoldable pub grpc_metageneration_not_match : Option ℤ → BucketPrecondition
grpc_metageneration_not_match field bucket context =
    with_field field λ match. differs match bucket context

abbrev append_field :
    Option ℤ → BucketPrecondition → List BucketPrecondition → List BucketPrecondition
append_field none predicate preconditions = preconditions
append_field (some i) predicate preconditions = predicate ∷ preconditions

unfoldable pub make_grpc_bucket_preconditions : (Text → Option ℤ) → List BucketPrecondition
unfolding grpc_metageneration_match grpc_metageneration_not_match
make_grpc_bucket_preconditions field =
    let metageneration_match = field (codes "if_metageneration_match") in
    let metageneration_not_match = field (codes "if_metageneration_not_match") in
    append_field metageneration_match (grpc_metageneration_match metageneration_match) (
      append_field metageneration_not_match (grpc_metageneration_not_match metageneration_not_match)
        [])

abbrev pub arg_of : Option ℤ → Arg
arg_of none = absent
arg_of (some i) = integer i

-- A JSON and a gRPC request with the same conditions on the metageneration of a bucket are answered
-- alike.
pub bucket_preconditions-agree :
    (args : Text → Arg) (field : Text → Option ℤ) (b : Bucket) (context : Context)
    → args (codes "ifMetagenerationMatch") ≡ arg_of (field (codes "if_metageneration_match"))
    → args (codes "ifMetagenerationNotMatch") ≡ arg_of (field (codes "if_metageneration_not_match"))
    → check_bucket (make_json_bucket_preconditions args) b context
      ≡ check_bucket (make_grpc_bucket_preconditions field) b context
unfolding make_json_bucket_preconditions make_grpc_bucket_preconditions check_bucket
bucket_preconditions-agree args field b context m mn = rw (m, mn) (ground arith)

-- The preconditions of a JSON request on a bucket return `True` or raise.
pub json_bucket_never_false :
    (args : Text → Arg) (b : Bucket) (context : Context)
    → check_bucket (make_json_bucket_preconditions args) b context ≢ ok false
unfolding make_json_bucket_preconditions check_bucket
json_bucket_never_false args b context h = ground arith
