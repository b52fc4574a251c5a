-- ===== src/Preconditions/Spec.antt =====
-- What the preconditions of the JSON and the gRPC transport mean, and where they differ.
use storage_testbench.Base.{
  ℕ, suc, ◌<◌, Bool, true, false, not, Option, none, some, ◌++◌, ◌≡◌, ◌≢◌, Text, codes, ℤ, int_eq,
  arith,
}
use storage_testbench.Errors.{
  Context, Error, py, attribute_error, Result, ok, err, mismatch, notchanged,
}
use storage_testbench.Database.State.{Blob}
use storage_testbench.Database.Access.{check_object}
use storage_testbench.Preconditions.Values.{Arg, absent, integer}
use storage_testbench.Preconditions.Json
use storage_testbench.Preconditions.Json.{make_json_preconditions}
use storage_testbench.Preconditions.Grpc
use storage_testbench.Preconditions.Grpc.{make_grpc_preconditions}

-- The four optional conditions of a request.
pub record Conditions : Type 0 where
  pub metageneration_match : Option ℤ
  pub metageneration_not_match : Option ℤ
  pub generation_match : Option ℤ
  pub generation_not_match : Option ℤ

-- The first condition that fails, in the order of the source.
abbrev require : Option Bool → Error → Result Bool → Result Bool
require none e rest_of = rest_of
require (some true) e rest_of = rest_of
require (some false) e rest_of = err e

abbrev equals : Option ℤ → ℕ → Option Bool
equals none n = none
equals (some i) n = some (int_eq i n)

abbrev differs : Option ℤ → ℕ → Option Bool
differs none n = none
differs (some i) n = some (not (int_eq i n))

-- What the conditions mean for an object that is there, with numbers from 1 on: each number is equal,
-- or is not, and the first that fails decides between 412 and 304.
unfoldable pub outcome : Conditions → ℕ → ℕ → Context → Result Bool
outcome c metageneration generation context =
    require (equals c.metageneration_match metageneration) (mismatch context) (
      require (differs c.metageneration_not_match metageneration) (notchanged context) (
        require (equals c.generation_match generation) (mismatch context)
          (require (differs c.generation_not_match generation) (notchanged context) (ok true))))

abbrev arg_of : Option ℤ → Arg
arg_of none = absent
arg_of (some i) = integer i

-- The parameters of a JSON request that state these conditions.
pub record JsonStates (args : Text → Arg) (prefix : Text) (c : Conditions) : Type 0 where
  pub m : args (prefix ++ codes "MetagenerationMatch") ≡ arg_of c.metageneration_match
  pub mn : args (prefix ++ codes "MetagenerationNotMatch") ≡ arg_of c.metageneration_not_match
  pub g : args (prefix ++ codes "GenerationMatch") ≡ arg_of c.generation_match
  pub gn : args (prefix ++ codes "GenerationNotMatch") ≡ arg_of c.generation_not_match

-- The fields of a gRPC request that state these conditions.
pub record GrpcStates (field : Text → Option ℤ) (prefix : Text) (c : Conditions) : Type 0 where
  pub m : field (prefix ++ codes "metageneration_match") ≡ c.metageneration_match
  pub mn : field (prefix ++ codes "metageneration_not_match") ≡ c.metageneration_not_match
  pub g : field (prefix ++ codes "generation_match") ≡ c.generation_match
  pub gn : field (prefix ++ codes "generation_not_match") ≡ c.generation_not_match

module _ (o : Blob) (g : ℕ) (context : Context) (c : Conditions)
    (positive : 0 < o.metageneration) where
  -- On an object that is there, live at a positive generation and with a positive metageneration, the
  -- conditions of a JSON request mean what they say: the first that fails decides the error.
  pub json_outcome :
      (args : Text → Arg) (prefix : Text)
      → JsonStates args prefix c
      → check_object (make_json_preconditions args prefix) (some o) (some (suc g)) context
        ≡ outcome c o.metageneration (suc g) context
  unfolding make_json_preconditions outcome Json.if_metageneration_match
      Json.if_metageneration_not_match Json.if_generation_match Json.if_generation_not_match
      check_object
  json_outcome args prefix h = rw (h.m, h.mn, h.g, h.gn) (ground arith)

  -- On an object that is there, live at a positive generation and with a positive metageneration, the
  -- conditions of a gRPC request mean what they say: the first that fails decides the error.
  pub grpc_outcome :
      (field : Text → Option ℤ) (prefix : Text)
      → GrpcStates field prefix c
      → check_object (make_grpc_preconditions field prefix) (some o) (some (suc g)) context
        ≡ outcome c o.metageneration (suc g) context
  unfolding make_grpc_preconditions outcome Grpc.if_metageneration_match
      Grpc.if_metageneration_not_match Grpc.if_generation_match Grpc.if_generation_not_match
      check_object
  grpc_outcome field prefix h = rw (h.m, h.mn, h.g, h.gn) (ground arith)

-- The preconditions of a JSON request return `True` or raise: no method meets one that returns `False`.
pub json_never_false :
    (args : Text → Arg) (prefix : Text) (o : Option Blob) (live : Option ℕ) (context : Context)
    → check_object (make_json_preconditions args prefix) o live context ≢ ok false
unfolding make_json_preconditions Json.if_metageneration_match Json.if_metageneration_not_match
    Json.if_generation_match Json.if_generation_not_match check_object
json_never_false args prefix o live context h = ground arith

-- Where there is no object, a condition that its metageneration is a number other than 0 is answered with 412 over
-- gRPC, and raises `AttributeError` in a JSON request.
pub metageneration_match_of_missing :
    (i : ℤ) (live : Option ℕ) (context : Context)
    → int_eq i 0 ≡ false
    → (Json.if_metageneration_match (integer i) none live context ≡ err (py attribute_error))
      × (Grpc.if_metageneration_match (some i) none live context ≡ err (mismatch context))
unfolding Json.if_metageneration_match Grpc.if_metageneration_match
metageneration_match_of_missing i live context h = ground arith
