-- ===== src/Database/Outcomes/RoundTrip.antt =====
-- Soft deletion and restoration: an object that a policy keeps comes back, at the next generation.
use storage_testbench.Base.{
  suc, if◌then◌else◌, Bool, ap, ◌∙◌, codes, ℕ, ◌+◌, ◌<◌, true, false, Option, none, some, List, [],
  ◌∷◌, ◌++◌, ◌≡◌, refl, subst, Text, Dict, lookup, lookup2, contains, is_some, arith, inl, inr,
  Option-cases, insert, lookup2-put, lookup2-pop, contains-alter, lookup-alter, lookup-insert,
  text_eq_refl, text_eq_iff,
}
use storage_testbench.Errors.{Context, Result, ok}
use storage_testbench.Database.Key.{object_key, object_key-injective, text_eq-object_key}
use storage_testbench.Database.State.{Database, Bucket, Blob, ObjectPrecondition, object_purged}
use storage_testbench.Database.Access.{
  bucket_key, get_bucket, get_bucket_for_object, check_bucket, check_object,
}
use storage_testbench.Database.Objects.{insert_object, get_object_entry, key_of, commit_object}
use storage_testbench.Database.Deletion.{
  delete_object, restore_object, remove_expired_objects, get_soft_deleted_object,
  remove_restored_object, find_generation, change_generation, get_list, revive, revive_listed,
  unexpired,
}
use storage_testbench.Database.Reads.{get_object_entry-found}
use storage_testbench.Database.WellFormed.{IsWellFormed}
use storage_testbench.Database.WellFormed.Objects.{delete_object-IsWellFormed}
use storage_testbench.Database.Outcomes.Delete.{listed, retained, without_object, delete_object_lem}

find_generation-unexpired :
    (g local_now : ℕ) (blobs : List Blob) (o : Blob)
    → find_generation g blobs ≡ none
    → o.generation ≡ g
    → local_now < o.hard_delete_time
    → find_generation g (unexpired local_now (blobs ++ o ∷ [])) ≡ some o
unfolding find_generation unexpired
find_generation-unexpired g local_now [] o fresh same later = ground arith
find_generation-unexpired g local_now (x ∷ blobs) o fresh same later =
    ground (arith, find_generation-unexpired g local_now blobs o)

remove_restored_object-ok :
    (bk n : Text) (g : ℕ) (s : Database)
    → contains bk s.soft_deleted_objects ≡ true
    → (remove_restored_object bk n g s).0 ≡ ok tt
unfolding remove_restored_object
remove_restored_object-ok bk n g s there = ground arith

module _ (bucket_name n : Text) (g : ℕ) (context : Context) (now local_now : ℕ) (b : Bucket)
    (blobs : List Blob) (o : Blob) {s : Database} (w : IsWellFormed s)
    (is_bucket : lookup (bucket_key bucket_name context) s.buckets ≡ some b)
    (policy : is_some b.soft_delete_policy ≡ true)
    (gone : lookup2 (bucket_key bucket_name context) (object_key n g) s.objects ≡ none)
    (kept : lookup2 (bucket_key bucket_name context) n s.soft_deleted_objects ≡ some blobs)
    (found : find_generation g (unexpired local_now blobs) ≡ some o) where
  abbrev bk : Text
  bk = bucket_key bucket_name context

  abbrev s₁ : Database
  s₁ = (remove_expired_objects bk n local_now s).1

  expire : remove_expired_objects bk n local_now s ≡ (ok tt, s₁)
  unfolding remove_expired_objects
  expire = ground arith

  found_in : get_soft_deleted_object bk n g context s₁ ≡ (ok o, s₁)
  unfolding get_soft_deleted_object remove_expired_objects
  found_in = elim (Option-cases (lookup bk s.soft_deleted_objects)) [
    | inl missing ↦ absurd (ground arith)
    | inr (entries, there) ↦ ground (
      arith,
      lookup-alter bk bk (insert n (unexpired local_now blobs)) s.soft_deleted_objects,
      text_eq_refl bk,
      text_eq_refl n,
      lookup-insert n n (unexpired local_now blobs) entries,
    )
  ]

  bucket_in : get_bucket bucket_name context [] s ≡ (ok (some b), s)
  unfolding get_bucket check_bucket
  bucket_in = ground arith

  abbrev s₂ : Database
  s₂ = revive_listed bk n g (revive b.autoclass_enabled now) s₁

  inserted :
      insert_object bucket_name (revive b.autoclass_enabled now o) context [] s₂
      ≡ commit_object bk (revive b.autoclass_enabled now o) s₂
  unfolding insert_object remove_expired_objects check_object
  inserted = ground (arith, w.same_objects bk, w.same_live bk)

  entries_in :
      (entries : Dict Blob) × (get_bucket_for_object bucket_name context s ≡ (ok entries, s))
      × (contains (object_key n g) entries ≡ false)
  unfolding get_bucket_for_object
  entries_in = elim (Option-cases (lookup bk s.objects)) [
    | inl missing ↦ absurd (ground (arith, w.same_objects bk))
    | inr (entries, there) ↦ (entries, ground arith, ground arith)
  ]

  soft_there : contains bk s₂.soft_deleted_objects ≡ true
  unfolding remove_expired_objects
  soft_there = ground (
    arith,
    w.same_soft bk,
    contains-alter bk bk (insert n (unexpired local_now blobs)) s.soft_deleted_objects,
    contains-alter bk bk
        (λ entries.
          insert n (change_generation g (revive b.autoclass_enabled now) (get_list n entries))
            entries)
        s₁.soft_deleted_objects,
  )

  -- The state in which the restored generation is dropped.
  abbrev s₃ : Database
  s₃ =
      let committed = (commit_object bk (revive b.autoclass_enabled now o) s₂).1 in
      record committed { events = object_purged bk n g ∷ committed.events }

  committed : (commit_object bk (revive b.autoclass_enabled now o) s₂).0 ≡ ok tt
  unfolding commit_object
  committed = refl

  dropped : (remove_restored_object bk n g s₃).0 ≡ ok tt
  unfolding commit_object
  dropped = remove_restored_object-ok bk n g s₃ soft_there

  -- A generation that was kept and has not expired is restored.
  restored :
      (restore_object bucket_name n g [] context now local_now s).0
      ≡ ok (revive b.autoclass_enabled now o)
  unfolding restore_object
  restored =
      let (entries, there, absent) = entries_in in
      rw bucket_in (
        rw policy (
          rw there (
            rw absent
              (rw expire (rw found_in (rw inserted (ground (arith, dropped, committed))))))))

-- What comes back of an object: at the next generation and with metageneration 1, as if created now;
-- the rest is as it was.
abbrev pub comes_back : Bool → ℕ → ℕ → Blob → Blob
comes_back autoclass now hard_delete_time blob = record blob {
  generation = suc blob.generation;
  metageneration = 1;
  storage_class = if autoclass then codes "STANDARD" else blob.storage_class;
  create_time = now;
  soft_delete_time = none;
  hard_delete_time = hard_delete_time;
}

revive-retained :
    (autoclass : Bool) (now now' duration : ℕ) (blob : Blob)
    → revive autoclass now' (retained now duration blob)
      ≡ comes_back autoclass now' (now + duration) blob
unfolding revive
revive-retained autoclass now now' duration blob =
    let next : blob.generation + 1 ≡ suc blob.generation = omega arith in
    ap (λ g. record (comes_back autoclass now' (now + duration) blob) { generation = g }) next

-- On a well-formed index, an object that is deleted under a soft delete policy, and of whose generation
-- no copy is kept yet, is restored by its generation, by a call without preconditions, as long as
-- the local time at which that call asks for expired objects (`datetime.now()`, taken as a time in UTC) is
-- before the hard delete time: the call returns the object with its media, at the next generation and with
-- metageneration 1.
pub restore_object-delete_object :
    (bucket_name n : Text) (context : Context) (g : ℕ) (ps : List ObjectPrecondition)
    (now duration now' local_now : ℕ) (blob : Blob) (live : Option ℕ) (b : Bucket) {s : Database}
    → IsWellFormed s
    → (get_object_entry bucket_name n context (some g) ps true s).0 ≡ ok (some blob, live)
    → lookup (bucket_key bucket_name context) s.buckets ≡ some b
    → b.soft_delete_policy ≡ some duration
    → find_generation blob.generation
        (listed (bucket_key bucket_name context) n s.soft_deleted_objects)
      ≡ none
    → local_now < now + duration
    → (restore_object bucket_name n blob.generation [] context now' local_now
        (delete_object bucket_name n context g ps now s).1).0
      ≡ ok (comes_back b.autoclass_enabled now' (now + duration) blob)
unfolding without_object
restore_object-delete_object bucket_name n context g ps now duration now' local_now blob live b {s}
      w found is_bucket policy fresh early =
    let bk = bucket_key bucket_name context in
    let s' = without_object bk n blob b.soft_delete_policy now s in
    let lem = delete_object_lem bucket_name n context g ps now blob live b w found is_bucket in
    let (h, asked, lives, there) =
      get_object_entry-found bucket_name n context (some g) ps true s found in
    let named =
      (object_key-injective n blob.name h blob.generation
        (w.keyed bk (object_key n h) blob there)).0 in
    let w' : IsWellFormed s' =
      subst (λ (r : Result (Unit {0}) × Database). IsWellFormed r.1) lem
        (delete_object-IsWellFormed bucket_name n context g ps now w) in
    rw lem (
      restored bucket_name n blob.generation context now' local_now b
        (listed bk n s.soft_deleted_objects ++ retained now duration blob ∷ [])
        (retained now duration blob) w' is_bucket (ground arith)
        (ground (
          arith,
          named,
          lookup2-pop bk (object_key n blob.generation) bk (key_of blob) s.objects,
          text_eq-object_key blob.name n blob.generation blob.generation,
          text_eq_iff blob.name n,
          text_eq_refl bk,
        ))
        (ground (
          arith,
          w.same_soft bk,
          lookup2-put bk n bk n
              (listed bk n s.soft_deleted_objects ++ retained now duration blob ∷ [])
              s.soft_deleted_objects,
          text_eq_refl bk,
          text_eq_refl n,
        ))
        (find_generation-unexpired blob.generation local_now (listed bk n s.soft_deleted_objects)
          (retained now duration blob) fresh refl early))
    ∙ ap ok (revive-retained b.autoclass_enabled now now' duration blob)
