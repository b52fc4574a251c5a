-- ===== src/Database/Objects.antt =====
-- testbench/database.py: the methods of `Database` on live objects.
use storage_testbench.Base.{
  ℕ, zero, suc, Bool, true, Option, none, some, List, Text, Dict, lookup, insert, erase, alter,
  if◌then◌else◌,
}
use storage_testbench.Errors.{
  Context, Result, pure, raise, gets, lift, modify, or_raise, ◌>>=◌, ◌>>◌, notfound,
}
use storage_testbench.Database.Key.{object_key}
use storage_testbench.Database.State.{
  Database, Blob, ObjectPrecondition, object_inserted, object_updated,
}
use storage_testbench.Database.Access.{
  Action, bucket_key, notify, get_bucket_for_object, get_live_generation, check_object,
}

abbrev pub key_of : Blob → Text
key_of blob = object_key blob.name blob.generation

-- The generation that `__get_object` looks for: the live one if none is asked for, or 0.
unfoldable pub lookup_generation : Option ℕ → Option ℕ → Option ℕ
lookup_generation none live_generation = live_generation
lookup_generation (some zero) live_generation = live_generation
lookup_generation (some (suc g)) live_generation = some (suc g)

-- `__get_object` behind the lookup of the bucket: the blob with the live generation, or twice
-- `None` if a precondition returned `False`, or if nothing is live and that is allowed.
unfoldable pub fetch_object :
    Text
    → Text
    → Context
    → List ObjectPrecondition
    → Bool
    → Option ℕ
    → Option ℕ
    → Action (Option Blob × Option ℕ)
unfolding get_bucket_for_object
fetch_object bucket_name object_name context preconditions required live_generation none =
    if required then raise (notfound context) else pure (none, none)
fetch_object bucket_name object_name context preconditions required live_generation (some g) = do
  bucket ← get_bucket_for_object bucket_name context
  blob ← or_raise (lookup (object_key object_name g) bucket) (notfound context)
  holds ← lift (check_object preconditions (some blob) live_generation context)
  pure (if holds then (some blob, live_generation) else (none, none))

-- `__get_object`
unfoldable pub get_object_entry :
    Text
    → Text
    → Context
    → Option ℕ
    → List ObjectPrecondition
    → Bool
    → Action (Option Blob × Option ℕ)
unfolding fetch_object
get_object_entry bucket_name object_name context generation preconditions required = do
  live ←
      or_raise (← gets (λ s. lookup (bucket_key bucket_name context) s.live_generations))
        (notfound context)
  let live_generation = lookup object_name live
  fetch_object bucket_name object_name context preconditions required live_generation
      (lookup_generation generation live_generation)

-- `objects[bucket_key][key] = blob`
abbrev pub put_blob : Text → Text → Blob → Database → Database
put_blob bk key blob s = record s { objects = alter bk (insert key blob) s.objects }

-- `objects[bucket_key].pop(key, None)`
abbrev pub pop_blob : Text → Text → Database → Database
pop_blob bk key s = record s { objects = alter bk (erase key) s.objects }

-- `__set_live_generation`
abbrev pub set_live_generation : Text → Text → ℕ → Database → Database
set_live_generation bk object_name g s = record s {
  live_generations = alter bk (insert object_name g) s.live_generations;
}

-- `__del_live_generation`
abbrev pub del_live_generation : Text → Text → Database → Database
del_live_generation bk object_name s = record s {
  live_generations = alter bk (erase object_name) s.live_generations;
}

-- The object that a new generation replaces.
unfoldable pub current_object : Text → Option ℕ → Dict Blob → Option Blob
current_object object_name none bucket = none
current_object object_name (some g) bucket = lookup (object_key object_name g) bucket

-- The writes of `insert_object`.
unfoldable pub commit_object : Text → Blob → Action Unit
commit_object bk blob = do
  modify (put_blob bk (key_of blob) blob)
  modify (set_live_generation bk blob.name blob.generation)
  notify (object_inserted bk blob)

unfoldable pub insert_object : Text → Blob → Context → List ObjectPrecondition → Action Unit
unfolding get_bucket_for_object get_live_generation commit_object
insert_object bucket_name blob context preconditions = do
  bucket ← get_bucket_for_object bucket_name context
  live_generation ← get_live_generation bucket_name blob.name context
  holds ← lift (
      check_object preconditions (current_object blob.name live_generation bucket) live_generation
        context)
  (if holds then commit_object (bucket_key bucket_name context) blob else pure tt)

-- `get_object` with `soft_deleted=False`: a snapshot of the object.
unfoldable pub get_object :
    Text → Text → Context → Option ℕ → List ObjectPrecondition → Action (Option Blob)
unfolding get_object_entry
get_object bucket_name object_name context generation preconditions = do
  found ← get_object_entry bucket_name object_name context generation preconditions true
  pure found.0

-- `do_update_object` behind the lookup. `update_fn` gives its result and what it changes in the blob
-- in place: the change stays when it raises, and the store is not told then.
unfoldable pub update_object :
    {T : Type 0}
    → Text
    → (Option Blob → Option ℕ → Result T × (Blob → Blob))
    → Option Blob × Option ℕ
    → Action T
update_object bk update_fn (none, live_generation) = lift (update_fn none live_generation).0
update_object bk update_fn (some blob, live_generation) =
    let (r, change) = update_fn (some blob) live_generation in
    do
      modify (put_blob bk (key_of blob) (change blob))
      result ← lift r
      notify (object_updated bk (change blob))
      pure result

unfoldable pub do_update_object :
    {T : Type 0}
    → Text
    → Text
    → (Option Blob → Option ℕ → Result T × (Blob → Blob))
    → Context
    → Option ℕ
    → List ObjectPrecondition
    → Bool
    → Action T
do_update_object bucket_name object_name update_fn context generation preconditions required = do
  found ← get_object_entry bucket_name object_name context generation preconditions required
  update_object (bucket_key bucket_name context) update_fn found
