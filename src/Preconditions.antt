-- ===== src/Preconditions.antt =====
-- testbench/common.py: the preconditions of requests, `ifGenerationMatch` and its relatives.
pub mod Values
pub mod Json
pub mod Xml
pub mod Grpc
pub mod Spec
pub mod Buckets
