-- ===== src/Database/WellFormed/Objects.antt =====
-- The methods on objects keep the index well formed, whether they return or raise.
use storage_testbench.Base.{
  inl, inr, Bool-cases, ◌==◌, ◌||◌, ℕ, true, false, Option, none, some, List, [], ◌≡◌, ◌≢◌, refl,
  Text, lookup2, contains, arith, text_eq_iff, text_eq_refl, lookup2-put, lookup2-pop,
}
use storage_testbench.Errors.{Context, bind_reader, or_raise-Reads}
use storage_testbench.Database.Key.{object_key, object_key-injective}
use storage_testbench.Database.State.{Database, Blob, ObjectPrecondition}
use storage_testbench.Database.Access.{bucket_key, get_bucket, get_bucket_for_object}
use storage_testbench.Database.Buckets.{or_none_type}
use storage_testbench.Database.Objects.{
  key_of, put_blob, set_live_generation, del_live_generation, lookup_generation, get_object_entry,
  commit_object, insert_object,
}
use storage_testbench.Database.Deletion.{
  is_live, delete_found, delete_object, soft_delete_object, retire_object, retire_from_bucket,
}
use storage_testbench.Database.Reads.{
  get_bucket-Reads, get_bucket_for_object-Reads, get_object_entry-Reads, get_object_entry-found,
}
use storage_testbench.Database.WellFormed.{IsWellFormed}
use storage_testbench.Database.WellFormed.Updates.{
  put_blob-IsWellFormed, pop_blob-IsWellFormed, set_live_generation-IsWellFormed,
  del_live_generation-IsWellFormed, set_soft_deleted-IsWellFormed, events-IsWellFormed,
}

commit_object-IsWellFormed :
    (bk : Text) (blob : Blob) {s : Database} (w : IsWellFormed s)
    → contains bk s.objects ≡ true
    → IsWellFormed (commit_object bk blob s).1
unfolding commit_object
commit_object-IsWellFormed bk blob {s} w there =
    let p : IsWellFormed (put_blob bk (key_of blob) blob s) = put_blob-IsWellFormed bk w blob in
    let q : IsWellFormed
        (set_live_generation bk blob.name blob.generation (put_blob bk (key_of blob) blob s)) =
      set_live_generation-IsWellFormed bk p blob.name blob.generation (
        ground (
          arith,
          lookup2-put bk (key_of blob) bk (key_of blob) blob s.objects,
          text_eq_refl bk,
          text_eq_refl (key_of blob),
        )) in
    events-IsWellFormed q _

pub insert_object-IsWellFormed :
    (bucket_name : Text) (blob : Blob) (context : Context) (ps : List ObjectPrecondition)
    {s : Database}
    → IsWellFormed s
    → IsWellFormed (insert_object bucket_name blob context ps s).1
unfolding insert_object
insert_object-IsWellFormed bucket_name blob context ps {s} w =
    ground (arith, commit_object-IsWellFormed (bucket_key bucket_name context) blob w)

module _ (bk object_name : Text) (found : Option Blob) (now : ℕ) {s : Database}
    (w : IsWellFormed s) where
  soft_delete_object-IsWellFormed :
      (duration : ℕ) → IsWellFormed (soft_delete_object bk object_name found duration now s).1
  unfolding soft_delete_object
  soft_delete_object-IsWellFormed duration =
      grind (arith, set_soft_deleted-IsWellFormed, events-IsWellFormed, w)

  soft_delete_object-rest :
      (duration : ℕ)
      → let s' = (soft_delete_object bk object_name found duration now s).1 in
        (s'.objects ≡ s.objects) × (s'.live_generations ≡ s.live_generations)
  unfolding soft_delete_object
  soft_delete_object-rest duration = ground arith

retire_object-IsWellFormed :
    (bk object_name : Text) (found : Option Blob) (policy : Option ℕ) (now : ℕ) {s : Database}
    → IsWellFormed s
    → ((blob : Blob)
        → found ≡ some blob
        → lookup2 bk blob.name s.live_generations ≢ some blob.generation)
    → IsWellFormed (retire_object bk object_name found policy now s).1
unfolding retire_object
retire_object-IsWellFormed bk object_name none none now w dead = w
retire_object-IsWellFormed bk object_name (some blob) none now w dead =
    events-IsWellFormed (pop_blob-IsWellFormed bk w blob.name blob.generation (dead blob refl)) _
retire_object-IsWellFormed bk object_name found (some duration) now {s} w dead = grind (
  arith,
  soft_delete_object-IsWellFormed bk object_name found now w duration,
  soft_delete_object-rest bk object_name found now w duration,
  pop_blob-IsWellFormed,
  dead,
)

-- The second half of `delete_object` may run once the blob is not live.
retire_from_bucket-IsWellFormed :
    (bucket_name object_name : Text) (context : Context) (found : Option Blob) (now : ℕ)
    {s : Database}
    → IsWellFormed s
    → ((blob : Blob)
        → found ≡ some blob
        → lookup2 (bucket_key bucket_name context) blob.name s.live_generations
          ≢ some blob.generation)
    → IsWellFormed (retire_from_bucket bucket_name object_name context found now s).1
unfolding retire_from_bucket
retire_from_bucket-IsWellFormed bucket_name object_name context found now {s} w dead =
    bind_reader IsWellFormed (get_bucket_for_object bucket_name context) _ s
      (get_bucket_for_object-Reads bucket_name context) w
      λ _ _.
        bind_reader IsWellFormed (get_bucket bucket_name context []) _ s
          (get_bucket-Reads bucket_name context []) w
          λ bucket _.
            bind_reader IsWellFormed (or_none_type bucket) _ s (or_raise-Reads bucket _) w λ b _.
              retire_object-IsWellFormed (bucket_key bucket_name context) object_name found
                b.soft_delete_policy now w dead

-- Behind the first half of `delete_object`, the blob that was found is not live.
module _ (bk object_name : Text) (generation g : ℕ) (live : Option ℕ) (blob : Blob) {s : Database}
    (w : IsWellFormed s) (asked : lookup_generation (some generation) live ≡ some g)
    (lives : live ≡ lookup2 bk object_name s.live_generations)
    (there : lookup2 bk (object_key object_name g) s.objects ≡ some blob) where
  unlive :
      (generation == 0 || is_live live generation) ≡ true
      → lookup2 bk blob.name (del_live_generation bk object_name s).live_generations
        ≢ some blob.generation
  unlive gone e = ground (
    arith,
    lookup2-pop bk blob.name bk object_name s.live_generations,
    text_eq_refl bk,
    text_eq_iff object_name blob.name,
    object_key-injective object_name blob.name g blob.generation
        (w.keyed bk (object_key object_name g) blob there),
  )

  not_live :
      (generation == 0 || is_live live generation) ≡ false
      → lookup2 bk blob.name s.live_generations ≢ some blob.generation
  unfolding lookup_generation
  not_live kept e = ground (
    arith,
    object_key-injective object_name blob.name g blob.generation
        (w.keyed bk (object_key object_name g) blob there),
  )

-- What `delete_object` knows of the object that it has found.
abbrev pub Located : Text → Text → ℕ → Option ℕ → Blob → Database → Type 0
Located bk object_name generation live blob s =
    (g : ℕ) × (lookup_generation (some generation) live ≡ some g)
    × (live ≡ lookup2 bk object_name s.live_generations)
    × (lookup2 bk (object_key object_name g) s.objects ≡ some blob)

delete_found-IsWellFormed :
    (bucket_name object_name : Text) (context : Context) (generation now : ℕ) (found : Option Blob)
    (live : Option ℕ) {s : Database}
    → IsWellFormed s
    → ((blob : Blob)
        → found ≡ some blob
        → Located (bucket_key bucket_name context) object_name generation live blob s)
    → IsWellFormed (delete_found bucket_name object_name context generation now (found, live) s).1
unfolding delete_found
delete_found-IsWellFormed bucket_name object_name context generation now found live {s} w located =
    elim (Bool-cases (generation == 0 || is_live live generation)) [
      | inl gone ↦ rw gone (
          retire_from_bucket-IsWellFormed bucket_name object_name context found now
            (del_live_generation-IsWellFormed (bucket_key bucket_name context) w object_name)
            (λ blob e.
              let (g, asked, lives, there) = located blob e in
              unlive (bucket_key bucket_name context) object_name generation g live blob w asked
                lives there gone))
      | inr kept ↦ rw kept (
          retire_from_bucket-IsWellFormed bucket_name object_name context found now w (λ blob e.
            let (g, asked, lives, there) = located blob e in
            not_live (bucket_key bucket_name context) object_name generation g live blob w asked
              lives there kept))
    ]

pub delete_object-IsWellFormed :
    (bucket_name object_name : Text) (context : Context) (generation : ℕ)
    (ps : List ObjectPrecondition) (now : ℕ) {s : Database}
    → IsWellFormed s
    → IsWellFormed (delete_object bucket_name object_name context generation ps now s).1
unfolding delete_object
delete_object-IsWellFormed bucket_name object_name context generation ps now {s} w =
    bind_reader IsWellFormed
      (get_object_entry bucket_name object_name context (some generation) ps true) _ s
      (get_object_entry-Reads bucket_name object_name context (some generation) ps true) w
      λ found e.
        delete_found-IsWellFormed bucket_name object_name context generation now found.0 found.1 w
          (λ blob is_blob.
            get_object_entry-found bucket_name object_name context (some generation) ps true s
              (ground arith))
