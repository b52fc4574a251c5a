-- ===== src/FileStore/Current.antt =====
-- testbench/store.py, as testbench/filestore.py relies on it: the live objects of the index behind each
-- notification. An event is current if it is about the live generation of a name.
use storage_testbench.Base.{
  ℕ, Bool, true, false, not, ◌&&◌, ◌==◌, Option, none, some, is_some, [], ◌≡◌, refl, arith, Text,
  text_eq, text_eq_iff, starts_with, length, Dict, lookup2, contains, lookup-insert, lookup-erase,
  lookup-nil, lookup2-put, lookup2-pop, if◌then◌else◌, Option-cases, inl, inr,
}
use storage_testbench.Database.Key.{object_key, text_eq-object_key}
use storage_testbench.Database.State.{
  Bucket, Blob, Folder, Event, bucket_inserted, bucket_deleted, bucket_updated, object_inserted,
  object_deleted, object_updated, object_soft_deleted, object_purged, folder_inserted,
  folder_deleted, folder_renamed, upload_deleted, rewrite_deleted, cleared,
}
use storage_testbench.Database.Objects.{key_of}
use storage_testbench.Database.Deletion.{is_live}
use storage_testbench.Database.Mirror.{Index, apply, drop_object}
use storage_testbench.FileStore.Methods.{proto_prefix}

-- The live object of a name
abbrev generation_of : Text → Dict (Dict Blob) → Text → Option ℕ → Option Blob
generation_of bk objects n none = none
generation_of bk objects n (some g) = lookup2 bk (object_key n g) objects

unfoldable pub live_object : Text → Text → Index → Option Blob
live_object bk n x = generation_of bk x.objects n (lookup2 bk n x.live_generations)

-- `projects/_/buckets/<name>`
abbrev pub is_proto : Text → Bool
is_proto bk = starts_with bk proto_prefix

abbrev pub is_whole : Blob → Bool
is_whole o = o.size == length o.media

-- The object that is written again has the bytes that it had.
abbrev same_bytes : Blob → Option Blob → Bool
same_bytes o none = false
same_bytes o (some old) = text_eq o.media old.media

unfoldable pub is_current : Event → Index → Bool
is_current (bucket_inserted b) x = is_proto b.name && not (contains b.name x.live_generations)
is_current (bucket_deleted n) x = is_proto n
is_current (bucket_updated b) x = is_proto b.name
is_current (object_inserted bk o) x =
    is_proto bk && contains bk x.objects && contains bk x.live_generations && is_whole o
is_current (object_deleted bk n g) x =
    is_proto bk && is_live (lookup2 bk n x.live_generations) g && is_some (live_object bk n x)
is_current (object_updated bk o) x =
    is_proto bk
    && contains bk x.objects
    && is_live (lookup2 bk o.name x.live_generations) o.generation
    && same_bytes o (live_object bk o.name x)
    && is_whole o
is_current (object_soft_deleted bk o hard_delete_time) x =
    is_proto bk
    && is_live (lookup2 bk o.name x.live_generations) o.generation
    && is_some (live_object bk o.name x)
is_current (object_purged bk n g) x = true
is_current (folder_inserted n f) x = true
is_current (folder_deleted n) x = true
is_current (folder_renamed src dst f) x = true
is_current (upload_deleted bk upload_id) x = true
is_current (rewrite_deleted bk token) x = true
is_current cleared x = true

module _ (x : Index) (i bk n : Text) where
  pub live-inserted :
      (o : Blob)
      → contains bk x.objects ≡ true
      → contains bk x.live_generations ≡ true
      → live_object i n (apply (object_inserted bk o) x)
        ≡ (if text_eq bk i && text_eq o.name n then some o else live_object i n x)
  unfolding live_object apply
  live-inserted o has has' = elim (Option-cases (lookup2 i n x.live_generations)) [
    | inl e ↦ ground (
      arith,
      lookup2-put i n bk o.name o.generation x.live_generations,
      lookup2-put i (object_key n o.generation) bk (key_of o) o x.objects,
      text_eq-object_key o.name n o.generation o.generation,
    )
    | inr (g, e) ↦ ground (
      arith,
      lookup2-put i n bk o.name o.generation x.live_generations,
      lookup2-put i (object_key n o.generation) bk (key_of o) o x.objects,
      lookup2-put i (object_key n g) bk (key_of o) o x.objects,
      text_eq-object_key o.name n o.generation o.generation,
      text_eq-object_key o.name n o.generation g,
    )
  ]

  pub live-updated :
      (o : Blob)
      → contains bk x.objects ≡ true
      → is_live (lookup2 bk o.name x.live_generations) o.generation ≡ true
      → live_object i n (apply (object_updated bk o) x)
        ≡ (if text_eq bk i && text_eq o.name n then some o else live_object i n x)
  unfolding live_object apply
  live-updated o has is = elim (Option-cases (lookup2 i n x.live_generations)) [
    | inl e ↦ ground (arith, text_eq_iff bk i, text_eq_iff o.name n)
    | inr (g, e) ↦ ground (
      arith,
      text_eq_iff bk i,
      text_eq_iff o.name n,
      lookup2-put i (object_key n g) bk (key_of o) o x.objects,
      text_eq-object_key o.name n o.generation g,
    )
  ]

  pub live-dropped :
      (name : Text) (g : ℕ)
      → is_live (lookup2 bk name x.live_generations) g ≡ true
      → live_object i n (drop_object bk name g x)
        ≡ (if text_eq bk i && text_eq name n then none else live_object i n x)
  unfolding live_object
  live-dropped name g is = elim (Option-cases (lookup2 i n x.live_generations)) [
    | inl e ↦ ground (arith, lookup2-pop i n bk name x.live_generations)
    | inr (h, e) ↦ ground (
      arith,
      lookup2-pop i n bk name x.live_generations,
      lookup2-pop i (object_key n h) bk (object_key name g) x.objects,
      text_eq-object_key name n g h,
    )
  ]

  pub live-bucket_inserted :
      (b : Bucket)
      → contains b.name x.live_generations ≡ false
      → live_object i n (apply (bucket_inserted b) x) ≡ live_object i n x
  unfolding live_object apply
  live-bucket_inserted b new = ground (
    arith,
    lookup-insert i b.name [] x.live_generations,
    text_eq_iff b.name i,
    lookup-insert i b.name [] x.objects,
    lookup-nil {V = ℕ} n,
  )

  pub live-bucket_deleted :
      live_object i n (apply (bucket_deleted bk) x)
      ≡ (if text_eq bk i then none else live_object i n x)
  unfolding live_object apply
  live-bucket_deleted =
      ground (arith, lookup-erase i bk x.live_generations, lookup-erase i bk x.objects)

  pub live-other :
      (bs : Dict Bucket) (fs : Dict Folder)
      → live_object i n (record x { buckets = bs; folders = fs }) ≡ live_object i n x
  unfolding live_object
  live-other bs fs = refl
