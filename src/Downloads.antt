-- ===== src/Downloads.antt =====
-- Reads of the bytes of an object: `ReadObject` of testbench/grpc_server.py, and `rest_media` of
-- gcs/object.py with `object_get` of testbench/rest_server.py.
pub mod Read
pub mod Rest
