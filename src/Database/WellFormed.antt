-- ===== src/Database/WellFormed.antt =====
-- testbench/database.py: what holds of the index of `Database` between two calls.
pub mod Updates
pub mod Objects
pub mod Restore
pub mod Buckets
pub mod Folders
use storage_testbench.Base.{
  ℕ, Bool, true, Option, none, some, ◌≡◌, refl, Text, Dict, lookup, lookup2, contains, is_some,
  arith,
}
use storage_testbench.Database.Key.{object_key}
use storage_testbench.Database.State.{Database, Bucket, Blob, init}
use storage_testbench.Database.Objects.{key_of}

-- The four dictionaries of resources have the same buckets, each bucket stands under its name, each
-- object under its key, and each live generation is there.
pub record IsWellFormed (s : Database) : Type 0 where
  pub same_objects : (k : Text) → contains k s.objects ≡ contains k s.buckets
  pub same_live : (k : Text) → contains k s.live_generations ≡ contains k s.buckets
  pub same_soft : (k : Text) → contains k s.soft_deleted_objects ≡ contains k s.buckets
  pub named : (k : Text) (b : Bucket) → lookup k s.buckets ≡ some b → k ≡ b.name
  pub keyed : (k j : Text) (o : Blob) → lookup2 k j s.objects ≡ some o → j ≡ key_of o
  pub live_present :
      (k n : Text) (g : ℕ)
      → lookup2 k n s.live_generations ≡ some g
      → is_some (lookup2 k (object_key n g) s.objects) ≡ true

pub init-IsWellFormed : IsWellFormed init
unfolding lookup
init-IsWellFormed = record {
  same_objects = λ k. refl;
  same_live = λ k. refl;
  same_soft = λ k. refl;
  named = λ k b e. ground arith;
  keyed = λ k j o e. ground arith;
  live_present = λ k n g e. ground arith;
}
