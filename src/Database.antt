-- ===== src/Database.antt =====
-- testbench/database.py: the in-memory index of the testbench, method by method.
pub mod Key
pub mod State
pub mod Access
pub mod Buckets
pub mod Objects
pub mod Deletion
pub mod Reads
pub mod Folders
pub mod RetryTests
pub mod WellFormed
pub mod Requests
pub mod Listing
pub mod ListBuckets
pub mod Outcomes
pub mod Mirror
