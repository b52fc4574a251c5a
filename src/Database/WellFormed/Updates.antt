-- ===== src/Database/WellFormed/Updates.antt =====
-- The changes of the index that keep it well formed.
use storage_testbench.Base.{
  ℕ, true, some, List, ◌≡◌, ◌≢◌, Text, Dict, lookup2, is_some, arith, text_eq_iff, lookup2-put,
  lookup2-pop, contains-alter, insert, erase, alter,
}
use storage_testbench.Database.Key.{object_key, text_eq-object_key}
use storage_testbench.Database.State.{Database, Blob, Folder, Event}
use storage_testbench.Database.Deletion.{set_soft_deleted}
use storage_testbench.Database.Objects.{
  key_of, put_blob, pop_blob, set_live_generation, del_live_generation,
}
use storage_testbench.Database.WellFormed.{IsWellFormed}

module _ (bk : Text) {s : Database} (w : IsWellFormed s) where
  pub put_blob-IsWellFormed : (o : Blob) → IsWellFormed (put_blob bk (key_of o) o s)
  put_blob-IsWellFormed o = record {
    same_objects =
        λ k. ground (arith, contains-alter k bk (insert (key_of o) o) s.objects, w.same_objects k);
    same_live = w.same_live;
    same_soft = w.same_soft;
    named = w.named;
    keyed = λ k j x e.
        ground (
          arith,
          lookup2-put k j bk (key_of o) o s.objects,
          w.keyed k j x,
          text_eq_iff (key_of o) j,
        );
    live_present = λ k n g e.
        ground
          (arith, lookup2-put k (object_key n g) bk (key_of o) o s.objects, w.live_present k n g);
  }

  -- An object may go if it is not live.
  pub pop_blob-IsWellFormed :
      (n : Text) (g : ℕ)
      → lookup2 bk n s.live_generations ≢ some g
      → IsWellFormed (pop_blob bk (object_key n g) s)
  pop_blob-IsWellFormed n g dead = record {
    same_objects = λ k.
        ground (arith, contains-alter k bk (erase (object_key n g)) s.objects, w.same_objects k);
    same_live = w.same_live;
    same_soft = w.same_soft;
    named = w.named;
    keyed = λ k j x e. ground (arith, lookup2-pop k j bk (object_key n g) s.objects, w.keyed k j x);
    live_present = λ k m h e. ground (
      arith,
      lookup2-pop k (object_key m h) bk (object_key n g) s.objects,
      text_eq-object_key n m g h,
      text_eq_iff bk k,
      text_eq_iff n m,
      w.live_present k m h,
    );
  }

  pub set_live_generation-IsWellFormed :
      (n : Text) (g : ℕ)
      → is_some (lookup2 bk (object_key n g) s.objects) ≡ true
      → IsWellFormed (set_live_generation bk n g s)
  set_live_generation-IsWellFormed n g there = record {
    same_objects = w.same_objects;
    same_live =
        λ k. ground (arith, contains-alter k bk (insert n g) s.live_generations, w.same_live k);
    same_soft = w.same_soft;
    named = w.named;
    keyed = w.keyed;
    live_present = λ k m h e. ground (
      arith,
      lookup2-put k m bk n g s.live_generations,
      text_eq_iff bk k,
      text_eq_iff n m,
      w.live_present k m h,
    );
  }

  pub del_live_generation-IsWellFormed : (n : Text) → IsWellFormed (del_live_generation bk n s)
  del_live_generation-IsWellFormed n = record {
    same_objects = w.same_objects;
    same_live =
        λ k. ground (arith, contains-alter k bk (erase n) s.live_generations, w.same_live k);
    same_soft = w.same_soft;
    named = w.named;
    keyed = w.keyed;
    live_present =
        λ k m h e. ground (arith, lookup2-pop k m bk n s.live_generations, w.live_present k m h);
  }

  -- Whatever is done to the soft deleted objects of a bucket.
  pub soft-IsWellFormed :
      (f : Dict (List Blob) → Dict (List Blob))
      → IsWellFormed (record s { soft_deleted_objects = alter bk f s.soft_deleted_objects })
  soft-IsWellFormed f = record {
    same_objects = w.same_objects;
    same_live = w.same_live;
    same_soft = λ k. ground (arith, contains-alter k bk f s.soft_deleted_objects, w.same_soft k);
    named = w.named;
    keyed = w.keyed;
    live_present = w.live_present;
  }

  pub set_soft_deleted-IsWellFormed :
      (n : Text) (blobs : List Blob) → IsWellFormed (set_soft_deleted bk n blobs s)
  set_soft_deleted-IsWellFormed n blobs = soft-IsWellFormed (insert n blobs)

-- What the store was told is no part of the index.
pub events-IsWellFormed :
    {s : Database} → IsWellFormed s → (es : List Event) → IsWellFormed (record s { events = es })
events-IsWellFormed w es = record {
  same_objects = w.same_objects;
  same_live = w.same_live;
  same_soft = w.same_soft;
  named = w.named;
  keyed = w.keyed;
  live_present = w.live_present;
}

pub folders-IsWellFormed :
    {s : Database} → IsWellFormed s → (d : Dict Folder) → IsWellFormed (record s { folders = d })
folders-IsWellFormed w d = record {
  same_objects = w.same_objects;
  same_live = w.same_live;
  same_soft = w.same_soft;
  named = w.named;
  keyed = w.keyed;
  live_present = w.live_present;
}
