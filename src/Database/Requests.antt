-- ===== src/Database/Requests.antt =====
-- The requests that change the resources of `Database`, as data: each stands for one call of a method,
-- which may raise. A sequence of requests is what clients of the testbench send.
use storage_testbench.Base.{ℕ, Bool, Option, List, [], ◌∷◌, Text}
use storage_testbench.Errors.{Context, Result}
use storage_testbench.Database.State.{
  Database, Bucket, Blob, Folder, ObjectPrecondition, BucketPrecondition,
}
use storage_testbench.Database.Buckets.{insert_bucket, delete_bucket, do_update_bucket}
use storage_testbench.Database.Objects.{insert_object, do_update_object}
use storage_testbench.Database.Deletion.{delete_object, restore_object}
use storage_testbench.Database.Folders.{clear, insert_folder, delete_folder, rename_folder}
use storage_testbench.Database.WellFormed.{IsWellFormed}
use storage_testbench.Database.WellFormed.Buckets.{
  KeepsName, insert_bucket-IsWellFormed, delete_bucket-IsWellFormed, do_update_bucket-IsWellFormed,
  clear-IsWellFormed,
}
use storage_testbench.Database.WellFormed.Folders.{
  insert_folder-IsWellFormed, delete_folder-IsWellFormed, rename_folder-IsWellFormed,
}
use storage_testbench.Database.WellFormed.Objects.{
  insert_object-IsWellFormed, delete_object-IsWellFormed,
}
use storage_testbench.Database.WellFormed.Restore.{
  KeepsKey, restore_object-IsWellFormed, do_update_object-IsWellFormed,
}

pub data Request : Type 0 where
  create_bucket : Bucket → Context → Request
  remove_bucket : Text → Context → List BucketPrecondition → Request
  update_bucket :
      Text → (Bucket → Result (Unit {0}) × Bucket) → Context → List BucketPrecondition → Request
  create_object : Text → Blob → Context → List ObjectPrecondition → Request
  remove_object : Text → Text → Context → ℕ → List ObjectPrecondition → ℕ → Request
  update_object :
      Text
      → Text
      → (Option Blob → Option ℕ → Result (Unit {0}) × (Blob → Blob))
      → Context
      → Option ℕ
      → List ObjectPrecondition
      → Bool
      → Request
  revive_object : Text → Text → ℕ → List ObjectPrecondition → Context → ℕ → ℕ → Request
  create_folder : Text → Folder → Context → Request
  remove_folder : Text → Context → Request
  move_folder : Text → Text → Context → Request
  reset : Request

-- The callback of an update keeps the name of the bucket, or the name and the generation of the object.
unfoldable pub KeepsNames : Request → Type 0
KeepsNames (update_bucket n f context ps) = KeepsName f
KeepsNames (update_object n o f context g ps required) = KeepsKey f
KeepsNames r = Unit {0}

pub data EachKeepsNames : List Request → Type 0 where
  no_requests : EachKeepsNames []
  and_request :
      {r : Request} {rs : List Request} → KeepsNames r → EachKeepsNames rs → EachKeepsNames (r ∷ rs)

-- The state behind a request, whether it was answered or refused.
module _ (validate : Text → Context → Result (Unit {0})) where
  unfoldable pub handle : Request → Database → Database
  handle (create_bucket b context) s = (insert_bucket validate b context s).1
  handle (remove_bucket n context ps) s = (delete_bucket n context ps s).1
  handle (update_bucket n f context ps) s = (do_update_bucket n f context ps s).1
  handle (create_object n o context ps) s = (insert_object n o context ps s).1
  handle (remove_object n o context g ps now) s = (delete_object n o context g ps now s).1
  handle (update_object n o f context g ps required) s =
      (do_update_object n o f context g ps required s).1
  handle (revive_object n o g ps context now local_now) s =
      (restore_object n o g ps context now local_now s).1
  handle (create_folder n folder context) s = (insert_folder n folder context s).1
  handle (remove_folder n context) s = (delete_folder n context s).1
  handle (move_folder src dst context) s = (rename_folder src dst context s).1
  handle reset s = (clear s).1

  unfoldable pub serve : List Request → Database → Database
  unfolding handle
  serve [] s = s
  serve (r ∷ rs) s = serve rs (handle r s)

  pub handle-IsWellFormed :
      (r : Request) {s : Database} → KeepsNames r → IsWellFormed s → IsWellFormed (handle r s)
  unfolding handle KeepsNames
  handle-IsWellFormed (create_bucket b context) keeps w =
      insert_bucket-IsWellFormed validate b context w
  handle-IsWellFormed (remove_bucket n context ps) keeps w =
      delete_bucket-IsWellFormed n context ps w
  handle-IsWellFormed (update_bucket n f context ps) keeps w =
      do_update_bucket-IsWellFormed n f context ps keeps w
  handle-IsWellFormed (create_object n o context ps) keeps w =
      insert_object-IsWellFormed n o context ps w
  handle-IsWellFormed (remove_object n o context g ps now) keeps w =
      delete_object-IsWellFormed n o context g ps now w
  handle-IsWellFormed (update_object n o f context g ps required) keeps w =
      do_update_object-IsWellFormed n o f context g ps required keeps w
  handle-IsWellFormed (revive_object n o g ps context now local_now) keeps w =
      restore_object-IsWellFormed n o g ps context now local_now w
  handle-IsWellFormed (create_folder n folder context) keeps w =
      insert_folder-IsWellFormed n folder context w
  handle-IsWellFormed (remove_folder n context) keeps w = delete_folder-IsWellFormed n context w
  handle-IsWellFormed (move_folder src dst context) keeps w =
      rename_folder-IsWellFormed src dst context w
  handle-IsWellFormed reset {s} keeps w = clear-IsWellFormed s

  -- From a well-formed index, any sequence of requests whose updates keep the names of what they change
  -- leads to a well-formed index, whatever requests are refused on the way.
  pub serve-IsWellFormed :
      (rs : List Request) {s : Database}
      → EachKeepsNames rs
      → IsWellFormed s
      → IsWellFormed (serve rs s)
  unfolding serve
  serve-IsWellFormed [] no_requests w = w
  serve-IsWellFormed (r ∷ rs) (and_request k ks) w =
      serve-IsWellFormed rs ks (handle-IsWellFormed r k w)
