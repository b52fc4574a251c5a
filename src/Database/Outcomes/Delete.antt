-- ===== src/Database/Outcomes/Delete.antt =====
-- `delete_object` and the reads behind it.
use storage_testbench.Base.{
  ℕ, ◌+◌, true, Option, none, some, List, [], ◌∷◌, ◌++◌, ◌≡◌, refl, ◌∙◌, Text, Dict, lookup,
  lookup2, contains, arith, inl, inr, Option-cases, Bool-cases, if◌then◌else◌, ◌||◌, ◌==◌, put-put,
  alter, insert, erase,
}
use storage_testbench.Errors.{Context, ok}
use storage_testbench.Database.Key.{object_key, object_key-injective}
use storage_testbench.Database.State.{
  Database, Bucket, Blob, Event, ObjectPrecondition, object_deleted, object_soft_deleted,
}
use storage_testbench.Database.Access.{bucket_key, check_bucket}
use storage_testbench.Database.Objects.{
  key_of, lookup_generation, get_object_entry, del_live_generation,
}
use storage_testbench.Database.Deletion.{
  delete_object, delete_found, retire_from_bucket, retire_object, soft_delete_object, is_live,
  get_list,
}
use storage_testbench.Database.Reads.{get_object_entry-Reads, get_object_entry-found}
use storage_testbench.Database.WellFormed.{IsWellFormed}
use storage_testbench.Database.WellFormed.Objects.{Located}

-- The copy that a soft delete policy keeps.
abbrev pub retained : ℕ → ℕ → Blob → Blob
retained now duration blob = record blob {
  soft_delete_time = some now;
  hard_delete_time = now + duration;
}

abbrev pub deletion_event : Text → Blob → Option ℕ → ℕ → Event
deletion_event bk blob none now = object_deleted bk blob.name blob.generation
deletion_event bk blob (some duration) now =
    object_soft_deleted bk (retained now duration blob) (now + duration)

abbrev pub listed : Text → Text → Dict (Dict (List Blob)) → List Blob
listed bk n d = elim (lookup2 bk n d) [ none ↦ [] | some blobs ↦ blobs ]

abbrev pub retain :
    Text → Text → Blob → Option ℕ → ℕ → Dict (Dict (List Blob)) → Dict (Dict (List Blob))
retain bk n blob none now d = d
retain bk n blob (some duration) now d =
    alter bk (insert n (listed bk n d ++ retained now duration blob ∷ [])) d

-- The index without one object: its live generation goes if it is that of the object, the soft delete
-- policy keeps a copy, and the store is told which of the two happened.
unfoldable pub without_object : Text → Text → Blob → Option ℕ → ℕ → Database → Database
without_object bk n blob policy now s = record s {
  objects = alter bk (erase (key_of blob)) s.objects;
  live_generations =
      if is_live (lookup2 bk n s.live_generations) blob.generation
      then alter bk (erase n) s.live_generations
      else s.live_generations;
  soft_deleted_objects = retain bk n blob policy now s.soft_deleted_objects;
  events = deletion_event bk blob policy now ∷ s.events;
}

module _ (bk n : Text) (blob : Blob) (now : ℕ) (s : Database)
    (there : contains bk s.soft_deleted_objects ≡ true) where
  soft_delete_object_lem :
      (duration : ℕ)
      → soft_delete_object bk n (some blob) duration now s ≡ (
        ok tt,
        record s {
          soft_deleted_objects = retain bk n blob (some duration) now s.soft_deleted_objects;
          events = deletion_event bk blob (some duration) now ∷ s.events;
        },
      )
  unfolding soft_delete_object
  soft_delete_object_lem duration = elim (Option-cases (lookup bk s.soft_deleted_objects)) [
    | inl missing ↦ absurd (ground arith)
    | inr (entries, e) ↦ ground (
      arith,
      put-put bk n (get_list n entries ++ retained now duration blob ∷ []) (get_list n entries)
          s.soft_deleted_objects,
    )
  ]

  retire_object_lem :
      (policy : Option ℕ)
      → retire_object bk n (some blob) policy now s ≡ (
        ok tt,
        record s {
          objects = alter bk (erase (key_of blob)) s.objects;
          soft_deleted_objects = retain bk n blob policy now s.soft_deleted_objects;
          events = deletion_event bk blob policy now ∷ s.events;
        },
      )
  unfolding retire_object
  retire_object_lem none = refl
  retire_object_lem (some duration) = ground (arith, soft_delete_object_lem duration)

retire_from_bucket_lem :
    (bucket_name n : Text) (context : Context) (blob : Blob) (now : ℕ) (s : Database) (b : Bucket)
    → contains (bucket_key bucket_name context) s.objects ≡ true
    → lookup (bucket_key bucket_name context) s.buckets ≡ some b
    → retire_from_bucket bucket_name n context (some blob) now s
      ≡ retire_object (bucket_key bucket_name context) n (some blob) b.soft_delete_policy now s
unfolding retire_from_bucket check_bucket
retire_from_bucket_lem bucket_name n context blob now s b there is_bucket = ground arith

-- The test of `delete_object` says whether the object that it has found is live.
delete_test :
    (bk n : Text) (generation : ℕ) (live : Option ℕ) (blob : Blob) {s : Database}
    → IsWellFormed s
    → Located bk n generation live blob s
    → (generation == 0 || is_live live generation)
      ≡ is_live (lookup2 bk n s.live_generations) blob.generation
unfolding lookup_generation
delete_test bk n generation live blob {s} w (g, asked, lives, there) = ground (
  arith,
  object_key-injective n blob.name g blob.generation (w.keyed bk (object_key n g) blob there),
)

module _ (bucket_name n : Text) (context : Context) (generation : ℕ) (ps : List ObjectPrecondition)
    (now : ℕ) (blob : Blob) (live : Option ℕ) (b : Bucket) {s : Database} (w : IsWellFormed s)
    (found : (get_object_entry bucket_name n context (some generation) ps true s).0
      ≡ ok (some blob, live))
    (is_bucket : lookup (bucket_key bucket_name context) s.buckets ≡ some b) where
  delete_found_lem :
      delete_found bucket_name n context generation now (some blob, live) s
      ≡ (ok tt, without_object (bucket_key bucket_name context) n blob b.soft_delete_policy now s)
  unfolding delete_found without_object
  delete_found_lem =
      let bk = bucket_key bucket_name context in
      let located =
        get_object_entry-found bucket_name n context (some generation) ps true s found in
      let there : contains bk s.objects ≡ true = ground (arith, w.same_objects bk) in
      let soft_there : contains bk s.soft_deleted_objects ≡ true = ground (arith, w.same_soft bk) in
      rw (delete_test bk n generation live blob w located)
        (elim (Bool-cases (is_live (lookup2 bk n s.live_generations) blob.generation)) [
          | inl lives ↦ rw lives (
              retire_from_bucket_lem bucket_name n context blob now (del_live_generation bk n s) b
                there is_bucket
              ∙ retire_object_lem bk n blob now (del_live_generation bk n s) soft_there
                  b.soft_delete_policy)
          | inr dead ↦ rw dead (
              retire_from_bucket_lem bucket_name n context blob now s b there is_bucket
              ∙ retire_object_lem bk n blob now s soft_there b.soft_delete_policy)
        ])

  -- On a well-formed index, `delete_object` of an object that is found returns, and takes exactly that
  -- object out: with its live generation if it is live, with a copy kept if the bucket has a soft delete
  -- policy, and with the one notification that says which of the two happened.
  pub delete_object_lem :
      delete_object bucket_name n context generation ps now s
      ≡ (ok tt, without_object (bucket_key bucket_name context) n blob b.soft_delete_policy now s)
  unfolding delete_object
  delete_object_lem = ground (
    arith,
    found,
    get_object_entry-Reads bucket_name n context (some generation) ps true s,
    delete_found_lem,
  )
