-- ===== src/Database/Buckets.antt =====
-- testbench/database.py: the methods of `Database` on buckets.
use storage_testbench.Base.{
  Bool, true, false, Option, none, some, List, [], ◌∷◌, Text, contains, insert, erase,
  if◌then◌else◌,
}
use storage_testbench.Errors.{
  Context, rest, py, attribute_error, Result, Exec, pure, gets, lift, modify, raise_if, or_raise,
  ◌>>=◌, ◌>>◌, invalid, already_exists,
}
use storage_testbench.Database.State.{
  Database, Bucket, BucketPrecondition, bucket_inserted, bucket_updated, bucket_deleted,
}
use storage_testbench.Database.Access.{Action, bucket_key, notify, read, get_bucket}

-- `insert_bucket`, over the hook `validate_bucket_name` of the store.
module _ (validate_bucket_name : Text → Context → Result (Unit {0})) where
  unfoldable pub insert_bucket : Bucket → Context → Action Unit
  insert_bucket bucket context = do
    lift (validate_bucket_name bucket.name context)
    raise_if (← gets (λ s. contains bucket.name s.buckets)) (already_exists context)
    modify (λ s. record s { buckets = insert bucket.name bucket s.buckets })
    modify (λ s. record s { objects = insert bucket.name [] s.objects })
    modify (λ s. record s { live_generations = insert bucket.name [] s.live_generations })
    modify (λ s. record s { soft_deleted_objects = insert bucket.name [] s.soft_deleted_objects })
    notify (bucket_inserted bucket)

  -- `seed_buckets`: `make` is `Bucket.init` of a request that holds the name alone.
  unfoldable pub seed_buckets : (Text → Bucket) → List Text → Action Unit
  unfolding insert_bucket
  seed_buckets make [] = pure tt
  seed_buckets make (name ∷ names) = do
    present ← gets (λ s. contains (bucket_key name rest) s.buckets)
    (if present then pure tt else insert_bucket (make name) rest)
    seed_buckets make names

-- `len(d) > 0`
abbrev pub nonempty {ℓ} : {A : Type ℓ} → List A → Bool
nonempty [] = false
nonempty (x ∷ xs) = true

-- `get_bucket` returned `None`, and the next line reads a field of it.
abbrev pub or_none_type {ℓ} : {A : Type ℓ} → Option A → Exec Database A
or_none_type found = or_raise found (py attribute_error)

-- `delete_bucket` behind the lookup.
unfoldable pub remove_bucket : Bucket → Context → Action Unit
remove_bucket bucket context = do
  live ← read (λ s. s.live_generations) bucket.name
  raise_if (nonempty live) (invalid context)
  read (λ s. s.buckets) bucket.name
  modify (λ s. record s { buckets = erase bucket.name s.buckets })
  read (λ s. s.objects) bucket.name
  modify (λ s. record s { objects = erase bucket.name s.objects })
  modify (λ s. record s { live_generations = erase bucket.name s.live_generations })
  read (λ s. s.soft_deleted_objects) bucket.name
  modify (λ s. record s { soft_deleted_objects = erase bucket.name s.soft_deleted_objects })
  notify (bucket_deleted bucket.name)

unfoldable pub delete_bucket : Text → Context → List BucketPrecondition → Action Unit
delete_bucket bucket_name context preconditions = do
  bucket ← or_none_type (← get_bucket bucket_name context preconditions)
  remove_bucket bucket context

-- The part of `do_update_bucket` behind the lookup: what `update_fn` had changed stays changed when
-- it raises, and the store is not told then.
unfoldable pub update_bucket :
    Text → (Bucket → Result (Unit {0}) × Bucket) → Option Bucket → Action (Option Bucket)
update_bucket key update_fn none = pure none
update_bucket key update_fn (some bucket) =
    let (r, bucket') = update_fn bucket in
    do
      modify (λ s. record s { buckets = insert key bucket' s.buckets })
      lift r
      notify (bucket_updated bucket')
      pure (some bucket')

unfoldable pub do_update_bucket :
    Text
    → (Bucket → Result (Unit {0}) × Bucket)
    → Context
    → List BucketPrecondition
    → Action (Option Bucket)
do_update_bucket bucket_name update_fn context preconditions = do
  found ← get_bucket bucket_name context preconditions
  update_bucket (bucket_key bucket_name context) update_fn found
