-- ===== src/Database/Deletion.antt =====
-- testbench/database.py: deletion, soft deletion and restoration of objects. `now` is the UTC time of
-- a call; `local_now` is what `datetime.datetime.now()` reads at the same moment.
use storage_testbench.Base.{
  ℕ, ◌+◌, Bool, true, false, not, Option, none, some, List, [], ◌∷◌, ◌++◌, Text, Dict, lookup,
  contains, insert, alter, ltb, ◌==◌, ◌||◌, is_some, if◌then◌else◌, codes,
}
use storage_testbench.Errors.{
  Context, pure, modify, raise_if, or_raise, ◌>>=◌, ◌>>◌, notfound, invalid, not_soft_deleted,
}
use storage_testbench.Database.Key.{object_key}
use storage_testbench.Database.State.{
  Database, Blob, Event, ObjectPrecondition, object_deleted, object_soft_deleted, object_purged,
}
use storage_testbench.Database.Access.{
  Action, bucket_key, notify, read, get_bucket, get_bucket_for_object,
}
use storage_testbench.Database.Buckets.{or_none_type}
use storage_testbench.Database.Objects.{
  key_of, get_object_entry, pop_blob, del_live_generation, insert_object,
}

-- `soft_deleted_objects[bucket_key][object_name] = blobs`
abbrev pub set_soft_deleted : Text → Text → List Blob → Database → Database
set_soft_deleted bk object_name blobs s = record s {
  soft_deleted_objects = alter bk (insert object_name blobs) s.soft_deleted_objects;
}

-- `d.get(k, [])`
abbrev pub get_list {ℓ} : {V : Type ℓ} → Text → Dict (List V) → List V
get_list k d = elim (lookup k d) [ none ↦ [] | some xs ↦ xs ]

-- `__soft_delete_object`
unfoldable pub soft_delete_object : Text → Text → Option Blob → ℕ → ℕ → Action Unit
soft_delete_object bk object_name found retention_duration now = do
  entries ← read (λ s. s.soft_deleted_objects) bk
  modify (set_soft_deleted bk object_name (get_list object_name entries))
  blob ← or_none_type found
  let hard_delete_time = now + retention_duration
  let blob' = record blob { soft_delete_time = some now; hard_delete_time = hard_delete_time }
  modify (set_soft_deleted bk object_name (get_list object_name entries ++ blob' ∷ []))
  notify (object_soft_deleted bk blob' hard_delete_time)

-- What `delete_object` does by the soft delete policy of the bucket.
unfoldable pub retire_object : Text → Text → Option Blob → Option ℕ → ℕ → Action Unit
unfolding soft_delete_object
retire_object bk object_name found (some retention_duration) now = do
  soft_delete_object bk object_name found retention_duration now
  blob ← or_none_type found
  modify (pop_blob bk (key_of blob))
retire_object bk object_name found none now = do
  blob ← or_none_type found
  modify (pop_blob bk (key_of blob))
  notify (object_deleted bk blob.name blob.generation)

-- The second half of `delete_object`, behind the deletion of the live generation.
unfoldable pub retire_from_bucket : Text → Text → Context → Option Blob → ℕ → Action Unit
unfolding get_bucket_for_object get_bucket
retire_from_bucket bucket_name object_name context found now = do
  get_bucket_for_object bucket_name context
  bucket ← or_none_type (← get_bucket bucket_name context [])
  retire_object (bucket_key bucket_name context) object_name found bucket.soft_delete_policy now

-- `live_generation == generation`
abbrev pub is_live : Option ℕ → ℕ → Bool
is_live none generation = false
is_live (some g) generation = g == generation

-- `delete_object` behind the lookup.
unfoldable pub delete_found : Text → Text → Context → ℕ → ℕ → Option Blob × Option ℕ → Action Unit
delete_found bucket_name object_name context generation now (found, live_generation) = do
  (if generation == 0 || is_live live_generation generation
      then modify (del_live_generation (bucket_key bucket_name context) object_name)
      else pure tt)
  retire_from_bucket bucket_name object_name context found now

unfoldable pub delete_object : Text → Text → Context → ℕ → List ObjectPrecondition → ℕ → Action Unit
unfolding delete_found
delete_object bucket_name object_name context generation preconditions now = do
  found ← get_object_entry bucket_name object_name context (some generation) preconditions true
  delete_found bucket_name object_name context generation now found

-- The loop of `__remove_expired_objects_from_soft_delete`: `live` and `expired`.
unfoldable pub unexpired : ℕ → List Blob → List Blob
unexpired local_now [] = []
unexpired local_now (blob ∷ blobs) =
    let rest = unexpired local_now blobs in
    if ltb local_now blob.hard_delete_time then blob ∷ rest else rest

unfoldable pub expired : ℕ → List Blob → List Blob
expired local_now [] = []
expired local_now (blob ∷ blobs) =
    let rest = expired local_now blobs in
    if ltb local_now blob.hard_delete_time then rest else blob ∷ rest

-- `for blob in expired: self._store.object_purged(...)`
unfoldable pub purge_events : Text → Text → List Blob → List Event → List Event
purge_events bk object_name [] events = events
purge_events bk object_name (blob ∷ blobs) events =
    purge_events bk object_name blobs (object_purged bk object_name blob.generation ∷ events)

unfoldable pub drop_expired : Text → Text → ℕ → Option (List Blob) → Action Unit
unfolding unexpired expired purge_events
drop_expired bk object_name local_now none = pure tt
drop_expired bk object_name local_now (some blobs) = do
  modify (set_soft_deleted bk object_name (unexpired local_now blobs))
  modify (λ s. record s { events = purge_events bk object_name (expired local_now blobs) s.events })

-- `__remove_expired_objects_from_soft_delete`
unfoldable pub remove_expired_objects : Text → Text → ℕ → Action Unit
unfolding drop_expired
remove_expired_objects bk object_name local_now = do
  entries ← read (λ s. s.soft_deleted_objects) bk
  drop_expired bk object_name local_now (lookup object_name entries)

-- `next((blob for blob in blobs if blob.metadata.generation == generation), None)`
unfoldable pub find_generation : ℕ → List Blob → Option Blob
find_generation generation [] = none
find_generation generation (blob ∷ blobs) =
    if blob.generation == generation then some blob else find_generation generation blobs

-- `__get_soft_deleted_object`
unfoldable pub get_soft_deleted_object : Text → Text → ℕ → Context → Action Blob
unfolding find_generation
get_soft_deleted_object bk object_name generation context = do
  entries ← read (λ s. s.soft_deleted_objects) bk
  or_raise (find_generation generation (get_list object_name entries)) (notfound context)

-- The blob that `find_generation` finds is changed in place, so the list shows the change.
unfoldable pub change_generation : ℕ → (Blob → Blob) → List Blob → List Blob
change_generation generation f [] = []
change_generation generation f (blob ∷ blobs) =
    if blob.generation == generation
    then f blob ∷ blobs
    else blob ∷ change_generation generation f blobs

-- The `filter` of `__remove_restored_soft_deleted_object`, with its test as the source has it.
unfoldable pub keep_generation : ℕ → List Blob → List Blob
keep_generation generation [] = []
keep_generation generation (blob ∷ blobs) =
    let rest = keep_generation generation blobs in
    if blob.generation == generation then blob ∷ rest else rest

-- `__remove_restored_soft_deleted_object`
unfoldable pub remove_restored_object : Text → Text → ℕ → Action Unit
unfolding keep_generation
remove_restored_object bk object_name generation = do
  entries ← read (λ s. s.soft_deleted_objects) bk
  modify (λ s. elim (lookup object_name entries) [
    | none ↦ s
    | some blobs ↦ set_soft_deleted bk object_name (keep_generation generation blobs) s
  ])

-- The metadata of a restored object.
unfoldable pub revive : Bool → ℕ → Blob → Blob
revive autoclass now blob = record blob {
  create_time = now;
  soft_delete_time = none;
  metageneration = 1;
  generation = blob.generation + 1;
  storage_class = if autoclass then codes "STANDARD" else blob.storage_class;
}

-- What `restore_object` changes in the list of the object, which holds the same blob.
abbrev pub revive_listed : Text → Text → ℕ → (Blob → Blob) → Database → Database
revive_listed bk object_name generation f s = record s {
  soft_deleted_objects =
      alter bk
        (λ entries.
          insert object_name (change_generation generation f (get_list object_name entries))
            entries)
        s.soft_deleted_objects;
}

unfoldable pub restore_object :
    Text → Text → ℕ → List ObjectPrecondition → Context → ℕ → ℕ → Action Blob
restore_object bucket_name object_name generation preconditions context now local_now = do
  bucket ← or_none_type (← get_bucket bucket_name context [])
  raise_if (not (is_some bucket.soft_delete_policy)) (invalid context)
  entries ← get_bucket_for_object bucket_name context
  raise_if (contains (object_key object_name generation) entries) (not_soft_deleted context)
  remove_expired_objects (bucket_key bucket_name context) object_name local_now
  blob ← get_soft_deleted_object (bucket_key bucket_name context) object_name generation context
  let f = revive bucket.autoclass_enabled now
  modify (revive_listed (bucket_key bucket_name context) object_name generation f)
  insert_object bucket_name (f blob) context preconditions
  notify (object_purged (bucket_key bucket_name context) object_name generation)
  remove_restored_object (bucket_key bucket_name context) object_name generation
  pure (f blob)

-- `get_object` with `soft_deleted=True`
unfoldable pub get_soft_deleted : Text → Text → Context → ℕ → Action (Option Blob)
unfolding get_bucket get_soft_deleted_object
get_soft_deleted bucket_name object_name context generation = do
  bucket ← or_none_type (← get_bucket bucket_name context [])
  raise_if (not (is_some bucket.soft_delete_policy)) (invalid context)
  blob ← get_soft_deleted_object (bucket_key bucket_name context) object_name generation context
  pure (some blob)
