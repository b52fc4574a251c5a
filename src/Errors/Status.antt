-- ===== src/Errors/Status.antt =====
-- grpc.StatusCode
-- The members of `grpc.StatusCode` that the program names.
pub data StatusCode : Type 0 where
  invalid_argument unauthenticated not_found already_exists resource_exhausted : StatusCode
  failed_precondition aborted out_of_range unimplemented internal unavailable : StatusCode
  deadline_exceeded : StatusCode
