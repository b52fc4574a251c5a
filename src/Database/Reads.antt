-- ===== src/Database/Reads.antt =====
-- testbench/database.py: the helpers of `Database` that change nothing, and what they find.
use storage_testbench.Base.{
  ℕ, Bool, Option, some, List, ◌≡◌, Text, lookup, lookup2, arith, inl, inr, Option-cases,
}
use storage_testbench.Errors.{Context, ok, Reads}
use storage_testbench.Database.Key.{object_key}
use storage_testbench.Database.State.{
  Database, Bucket, Blob, ObjectPrecondition, BucketPrecondition,
}
use storage_testbench.Database.Access.{
  bucket_key, get_bucket, get_bucket_for_object, get_live_generation,
}
use storage_testbench.Database.Objects.{lookup_generation, get_object_entry}
use storage_testbench.Database.Deletion.{get_soft_deleted_object}

pub get_bucket-Reads :
    (n : Text) (context : Context) (ps : List BucketPrecondition) → Reads (get_bucket n context ps)
unfolding get_bucket
get_bucket-Reads n context ps s = ground arith

-- A bucket that is found stands under the key of the name.
pub get_bucket-found :
    (n : Text) (context : Context) (ps : List BucketPrecondition) (s : Database) {b : Bucket}
    → (get_bucket n context ps s).0 ≡ ok (some b)
    → lookup (bucket_key n context) s.buckets ≡ some b
unfolding get_bucket
get_bucket-found n context ps s e = ground arith

pub get_bucket_for_object-Reads :
    (n : Text) (context : Context) → Reads (get_bucket_for_object n context)
unfolding get_bucket_for_object
get_bucket_for_object-Reads n context s = ground arith

pub get_live_generation-Reads :
    (n o : Text) (context : Context) → Reads (get_live_generation n o context)
unfolding get_live_generation
get_live_generation-Reads n o context s = ground arith

pub get_soft_deleted_object-Reads :
    (bk o : Text) (g : ℕ) (context : Context) → Reads (get_soft_deleted_object bk o g context)
unfolding get_soft_deleted_object
get_soft_deleted_object-Reads bk o g context s = ground arith

module _ (bucket_name object_name : Text) (context : Context) (generation : Option ℕ)
    (ps : List ObjectPrecondition) (required : Bool) where
  pub get_object_entry-Reads :
      Reads (get_object_entry bucket_name object_name context generation ps required)
  unfolding get_object_entry
  get_object_entry-Reads s = ground arith

  -- What a successful lookup of an object has found.
  pub get_object_entry-found :
      (s : Database) {blob : Blob} {live : Option ℕ}
      → (get_object_entry bucket_name object_name context generation ps required s).0
        ≡ ok (some blob, live)
      → (g : ℕ) × (lookup_generation generation live ≡ some g)
        × (live ≡ lookup2 (bucket_key bucket_name context) object_name s.live_generations)
        × (lookup2 (bucket_key bucket_name context) (object_key object_name g) s.objects
            ≡ some blob)
  unfolding get_object_entry
  get_object_entry-found s e =
      elim (Option-cases (lookup (bucket_key bucket_name context) s.live_generations)) [
        | inl missing ↦ absurd (ground arith)
        | inr (inner, present) ↦
            elim (Option-cases (lookup_generation generation (lookup object_name inner))) [
              | inl nothing ↦ absurd (ground arith)
              | inr (g, asked) ↦ (g, ground arith, ground arith, ground arith)
            ]
      ]
