-- ===== src/Database/Access.antt =====
-- testbench/database.py: the helpers of `Database` that its methods share.
use storage_testbench.Base.{
  ℕ, Bool, true, false, Option, none, some, List, [], ◌∷◌, Text, Dict, lookup, if◌then◌else◌,
}
use storage_testbench.Errors.{
  Context, rest, grpc, py, key_error, Result, ok, err, Exec, pure, gets, lift, modify, or_raise,
  ◌>>=◌, notfound,
}
use storage_testbench.Database.Key.{bucket_name_to_proto}
use storage_testbench.Database.State.{
  Database, Bucket, Blob, Event, ObjectPrecondition, BucketPrecondition,
}

-- An action on the database: its result or error, and the state that it leaves.
abbrev pub Action : Type 0 → Type 0
Action A = Exec Database A

-- `__bucket_key`
unfoldable pub bucket_key : Text → Context → Text
bucket_key bucket_name grpc = bucket_name
bucket_key bucket_name rest = bucket_name_to_proto bucket_name

-- A call of a method of the store: it is kept, and returns. One that raises, after the index has changed,
-- is not modelled.
abbrev pub notify : Event → Action Unit
notify e = modify (λ s. record s { events = e ∷ s.events })

-- `d[k]` for reading
abbrev pub item {ℓ} : {V : Type ℓ} → Text → Dict V → Result V
item k d = elim (lookup k d) [ none ↦ err (py key_error) | some v ↦ ok v ]

-- `self.d[k]` for reading, in a method
abbrev pub read : {V : Type 0} → (Database → Dict V) → Text → Action V
read field k s = (item k (field s), s)

-- The loop `for precondition in preconditions: if not precondition(...): return None`.
unfoldable pub check_bucket : List BucketPrecondition → Bucket → Context → Result Bool
check_bucket [] bucket context = ok true
check_bucket (p ∷ ps) bucket context =
    let rest_of = check_bucket ps bucket context in
    elim (p bucket context) [ err e ↦ err e | ok holds ↦ if holds then rest_of else ok false ]

unfoldable pub check_object :
    List ObjectPrecondition → Option Blob → Option ℕ → Context → Result Bool
check_object [] blob live_generation context = ok true
check_object (p ∷ ps) blob live_generation context =
    let rest_of = check_object ps blob live_generation context in
    elim (p blob live_generation context) [
      | err e ↦ err e
      | ok holds ↦ if holds then rest_of else ok false
    ]

-- `get_bucket`: `none` if a precondition returned `False`.
unfoldable pub get_bucket : Text → Context → List BucketPrecondition → Action (Option Bucket)
get_bucket bucket_name context preconditions = do
  bucket ←
      or_raise (← gets (λ s. lookup (bucket_key bucket_name context) s.buckets)) (notfound context)
  holds ← lift (check_bucket preconditions bucket context)
  pure (if holds then some bucket else none)

-- `__get_bucket_for_object`
unfoldable pub get_bucket_for_object : Text → Context → Action (Dict Blob)
get_bucket_for_object bucket_name context = do
  or_raise (← gets (λ s. lookup (bucket_key bucket_name context) s.objects)) (notfound context)

-- `__get_live_generation`
unfoldable pub get_live_generation : Text → Text → Context → Action (Option ℕ)
get_live_generation bucket_name object_name context = do
  live ← read (λ s. s.live_generations) (bucket_key bucket_name context)
  pure (lookup object_name live)
