-- ===== src/Database/Mirror.antt =====
-- testbench/store.py: the contract of `Store`. A store that only listens can keep a copy of the index
-- of live resources: here is such a store, an abstract view of what `FileStore` writes to disk.
pub mod Methods
pub mod Objects
pub mod Serve
use storage_testbench.Base.{
  ℕ, List, [], ◌∷◌, Text, Dict, lookup2, insert, erase, alter, if◌then◌else◌, ◌≡◌,
}
use storage_testbench.Database.Key.{object_key}
use storage_testbench.Database.State.{
  Database, Bucket, Blob, Folder, Event, bucket_inserted, bucket_deleted, bucket_updated,
  object_inserted, object_deleted, object_updated, object_soft_deleted, object_purged,
  folder_inserted, folder_deleted, folder_renamed, upload_deleted, rewrite_deleted, cleared,
}
use storage_testbench.Database.Objects.{key_of}
use storage_testbench.Database.Deletion.{is_live}

pub record Index : Type 0 where
  pub buckets : Dict Bucket
  pub objects : Dict (Dict Blob)
  pub live_generations : Dict (Dict ℕ)
  pub folders : Dict Folder

abbrev pub index_of : Database → Index
index_of s = record {
  buckets = s.buckets;
  objects = s.objects;
  live_generations = s.live_generations;
  folders = s.folders;
}

abbrev pub empty : Index
empty = record { buckets = []; objects = []; live_generations = []; folders = [] }

-- An object generation leaves the live resources.
abbrev pub drop_object : Text → Text → ℕ → Index → Index
drop_object bk n g x = record x {
  objects = alter bk (erase (object_key n g)) x.objects;
  live_generations =
      if is_live (lookup2 bk n x.live_generations) g
      then alter bk (erase n) x.live_generations
      else x.live_generations;
}

-- What the documentation of each notification says of the live resources.
unfoldable pub apply : Event → Index → Index
apply (bucket_inserted b) x = record x {
  buckets = insert b.name b x.buckets;
  objects = insert b.name [] x.objects;
  live_generations = insert b.name [] x.live_generations;
}
apply (bucket_deleted n) x = record x {
  buckets = erase n x.buckets;
  objects = erase n x.objects;
  live_generations = erase n x.live_generations;
}
apply (bucket_updated b) x = record x { buckets = insert b.name b x.buckets }
apply (object_inserted bk o) x = record x {
  objects = alter bk (insert (key_of o) o) x.objects;
  live_generations = alter bk (insert o.name o.generation) x.live_generations;
}
apply (object_deleted bk n g) x = drop_object bk n g x
apply (object_updated bk o) x = record x { objects = alter bk (insert (key_of o) o) x.objects }
apply (object_soft_deleted bk o hard_delete_time) x = drop_object bk o.name o.generation x
apply (object_purged bk n g) x = x
apply (folder_inserted n f) x = record x { folders = insert n f x.folders }
apply (folder_deleted n) x = record x { folders = erase n x.folders }
apply (folder_renamed src dst f) x = record x { folders = insert dst f (erase src x.folders) }
apply (upload_deleted bk upload_id) x = x
apply (rewrite_deleted bk token) x = x
apply cleared x = empty

-- What the store holds after the notifications, the latest first.
unfoldable pub replay : List Event → Index
unfolding apply
replay [] = empty
replay (e ∷ es) = apply e (replay es)

-- The copy of the store is the index of the database.
pub record InSync (s : Database) : Type 0 where
  pub synced : replay s.events ≡ index_of s
