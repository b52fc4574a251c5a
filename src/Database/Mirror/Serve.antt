-- ===== src/Database/Mirror/Serve.antt =====
-- The refinement: whatever requests clients send, the notifications of `Database` tell a store enough
-- to keep the index of live resources.
use storage_testbench.Base.{List, [], ◌∷◌, ◌≡◌, refl, Text}
use storage_testbench.Errors.{Context, Result}
use storage_testbench.Database.State.{Database, init}
use storage_testbench.Database.WellFormed.{IsWellFormed, init-IsWellFormed}
use storage_testbench.Database.Requests.{
  Request, create_bucket, remove_bucket, update_bucket, create_object, remove_object, update_object,
  revive_object, create_folder, remove_folder, move_folder, reset, KeepsNames, EachKeepsNames,
  no_requests, and_request, handle, serve, handle-IsWellFormed,
}
use storage_testbench.Database.Mirror.{index_of, InSync, replay}
use storage_testbench.Database.Mirror.Methods.{
  RaisesClean, NeverFalse, insert_bucket-InSync, insert_object-InSync, insert_folder-InSync,
  delete_folder-InSync, rename_folder-InSync, clear-InSync, delete_bucket-InSync,
  do_update_bucket-InSync, delete_object-InSync,
}
use storage_testbench.Database.Mirror.Objects.{
  ObjectRaisesClean, restore_object-InSync, do_update_object-InSync,
}

-- A callback that raises changes nothing, and the preconditions of a deletion return `True` or raise.
unfoldable pub IsClean : Request → Type 0
IsClean (update_bucket n f context ps) = RaisesClean f
IsClean (update_object n o f context g ps required) = ObjectRaisesClean f
IsClean (remove_object n o context g ps now) = NeverFalse ps
IsClean r = Unit {0}

pub data EachClean : List Request → Type 0 where
  none_clean : EachClean []
  and_clean : {r : Request} {rs : List Request} → IsClean r → EachClean rs → EachClean (r ∷ rs)

module _ (validate : Text → Context → Result (Unit {0})) where
  handle-InSync :
      (r : Request) {s : Database}
      → KeepsNames r
      → IsClean r
      → IsWellFormed s
      → InSync s
      → InSync (handle validate r s)
  unfolding handle KeepsNames IsClean
  handle-InSync (create_bucket b context) keeps clean w h =
      insert_bucket-InSync validate b context h
  handle-InSync (remove_bucket n context ps) keeps clean w h = delete_bucket-InSync n context ps w h
  handle-InSync (update_bucket n f context ps) keeps clean w h =
      do_update_bucket-InSync n f context ps keeps clean w h
  handle-InSync (create_object n o context ps) keeps clean w h =
      insert_object-InSync n o context ps h
  handle-InSync (remove_object n o context g ps now) keeps clean w h =
      delete_object-InSync n o context g ps now clean w h
  handle-InSync (update_object n o f context g ps required) keeps clean w h =
      do_update_object-InSync n o f context g ps required keeps clean w h
  handle-InSync (revive_object n o g ps context now local_now) keeps clean w h =
      restore_object-InSync n o g ps context now local_now h
  handle-InSync (create_folder n folder context) keeps clean w h =
      insert_folder-InSync n folder context h
  handle-InSync (remove_folder n context) keeps clean w h = delete_folder-InSync n context h
  handle-InSync (move_folder src dst context) keeps clean w h =
      rename_folder-InSync src dst context h
  handle-InSync reset {s} keeps clean w h = clear-InSync s

  serve-InSync :
      (rs : List Request) {s : Database}
      → EachKeepsNames rs
      → EachClean rs
      → IsWellFormed s
      → InSync s
      → InSync (serve validate rs s)
  unfolding serve
  serve-InSync [] no_requests none_clean w h = h
  serve-InSync (r ∷ rs) (and_request k ks) (and_clean c cs) w h =
      serve-InSync rs ks cs (handle-IsWellFormed validate r k w) (handle-InSync r k c w h)

  -- Behind any sequence of requests to a new database, the notifications it has sent, replayed, give
  -- its index of live resources: if each update keeps the names of what it changes and changes nothing
  -- when it raises, and each precondition of a deletion returns `True` or raises.
  pub serve-replays :
      (rs : List Request)
      → EachKeepsNames rs
      → EachClean rs
      → replay (serve validate rs init).events ≡ index_of (serve validate rs init)
  unfolding replay
  serve-replays rs ks cs =
      (serve-InSync rs ks cs init-IsWellFormed (record { synced = refl })).synced
