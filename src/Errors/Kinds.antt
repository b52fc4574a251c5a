-- ===== src/Errors/Kinds.antt =====
-- testbench/error.py: one function for each kind of error. The messages are not modelled.
use storage_testbench.Base.{ℕ, Option, none, some}
use storage_testbench.Errors.Status.{StatusCode}

-- `context`: `None` for a REST request, the servicer context of a gRPC call.
pub data Context : Type 0 where
  rest grpc : Context

-- Exceptions of Python that no handler raises on purpose.
pub data PyError : Type 0 where
  attribute_error key_error type_error assertion_error value_error index_error : PyError
  struct_error runtime_error file_not_found_error file_exists_error not_a_directory_error os_error :
      PyError

pub data Error : Type 0 where
  rest_exception : ℕ → Error
  grpc_abort : Option StatusCode → Error
  py : PyError → Error

unfoldable pub generic : ℕ → Option StatusCode → Context → Error
generic rest_code grpc_code rest = rest_exception rest_code
generic rest_code grpc_code grpc = grpc_abort grpc_code

abbrev pub invalid : Context → Error
invalid = generic 400 (some StatusCode.invalid_argument)

abbrev pub mismatch : Context → Error
mismatch = generic 412 (some StatusCode.failed_precondition)

abbrev pub not_soft_deleted : Context → Error
not_soft_deleted = generic 412 (some StatusCode.failed_precondition)

abbrev pub notchanged : Context → Error
notchanged = generic 304 (some StatusCode.aborted)

abbrev pub notfound : Context → Error
notfound = generic 404 (some StatusCode.not_found)

-- `already_exists(context=None)` has this one parameter.
abbrev pub already_exists : Context → Error
already_exists = generic 409 (some StatusCode.already_exists)

abbrev pub unimplemented : Context → Error
unimplemented = generic 501 (some StatusCode.unimplemented)

-- The others have a detailed message, or a transport that has no code for them.
abbrev pub csek : Context → Error
csek = generic 400 (some StatusCode.invalid_argument)

abbrev pub missing : Context → Error
missing = generic 400 (some StatusCode.invalid_argument)

abbrev pub notallowed : Context → Error
notallowed = generic 405 none

abbrev pub range_not_satisfiable : Context → Error
range_not_satisfiable = generic 416 (some StatusCode.out_of_range)

abbrev pub inject_error : ℕ → Option StatusCode → Context → Error
inject_error = generic
