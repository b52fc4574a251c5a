-- ===== src/Database/Outcomes.antt =====
-- testbench/database.py: what the methods on objects return and change, on every branch.
pub mod Lookup
pub mod Insert
pub mod Delete
pub mod Gone
pub mod Restore
pub mod RoundTrip
