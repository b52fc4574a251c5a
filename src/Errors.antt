-- ===== src/Errors.antt =====
-- testbench/error.py: the errors that the handlers raise, for the REST and the gRPC transport.
-- `context.abort` of grpc raises (its documented behaviour), so both transports leave the caller.
mod Monad
unfoldable pub use Monad.*
mod Status
pub use Status.{StatusCode}
mod Kinds
unfoldable pub use Kinds.*
