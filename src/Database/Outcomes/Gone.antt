-- ===== src/Database/Outcomes/Gone.antt =====
-- The reads behind `delete_object`.
use storage_testbench.Base.{
  ℕ, zero, suc, Bool, true, Option, none, some, List, [], ◌≡◌, Text, lookup, lookup2, arith, inl,
  inr, Option-cases, if◌then◌else◌, ◌&&◌, ◌==◌, text_eq, text_eq_iff, lookup2-pop,
}
use storage_testbench.Errors.{Context, ok, err, notfound}
use storage_testbench.Database.Key.{object_key, object_key-injective, text_eq-object_key}
use storage_testbench.Database.State.{Database, Bucket, Blob, ObjectPrecondition}
use storage_testbench.Database.Access.{bucket_key, check_object}
use storage_testbench.Database.Objects.{key_of, lookup_generation, get_object, get_object_entry}
use storage_testbench.Database.Deletion.{delete_object, is_live}
use storage_testbench.Database.Reads.{get_object_entry-found}
use storage_testbench.Database.WellFormed.{IsWellFormed}
use storage_testbench.Database.WellFormed.Objects.{delete_object-IsWellFormed}
use storage_testbench.Database.Outcomes.Lookup.{lookup_object, get_object_lem}
use storage_testbench.Database.Outcomes.Delete.{without_object, delete_object_lem}

-- Whether a request for a generation is answered by this one.
abbrev pub selects : Option ℕ → Option ℕ → ℕ → Bool
selects none live g = is_live live g
selects (some zero) live g = is_live live g
selects (some (suc h)) live g = suc h == g

module _ (bk n : Text) (blob : Blob) (policy : Option ℕ) (now : ℕ) (bk' n' : Text)
    (context : Context) (s : Database) (named : n ≡ blob.name) where
  abbrev s' : Database
  s' = without_object bk n blob policy now s

  object_at :
      (g : ℕ)
      → lookup2 bk' (object_key n' g) s'.objects ≡ (
          if text_eq bk bk' && text_eq n n' && blob.generation == g
          then none
          else lookup2 bk' (object_key n' g) s.objects)
  unfolding without_object
  object_at g = ground (
    arith,
    lookup2-pop bk' (object_key n' g) bk (key_of blob) s.objects,
    text_eq-object_key blob.name n' blob.generation g,
  )

  live_at : lookup2 bk' n' s'.live_generations ≡ (
      if text_eq bk bk' && text_eq n n' && is_live (lookup2 bk n s.live_generations) blob.generation
      then none
      else lookup2 bk' n' s.live_generations)
  unfolding without_object
  live_at = ground (arith, lookup2-pop bk' n' bk n s.live_generations)

  latest_at : lookup_object bk' n' context none [] s' ≡ (
      if text_eq bk bk' && text_eq n n' && is_live (lookup2 bk n s.live_generations) blob.generation
      then err (notfound context)
      else lookup_object bk' n' context none [] s)
  unfolding lookup_object lookup_generation check_object
  latest_at = elim (Option-cases (lookup2 bk' n' s.live_generations)) [
    | inl dead ↦ ground (arith, live_at)
    | inr (g, lives) ↦ ground (arith, live_at, object_at g, text_eq_iff bk bk', text_eq_iff n n')
  ]

  lookup_object-without_object :
      (generation : Option ℕ)
      → lookup_object bk' n' context generation [] s' ≡ (
          if text_eq bk bk'
            && text_eq n n'
            && selects generation (lookup2 bk n s.live_generations) blob.generation
          then err (notfound context)
          else lookup_object bk' n' context generation [] s)
  unfolding lookup_object lookup_generation check_object
  lookup_object-without_object none = ground (arith, latest_at)
  lookup_object-without_object (some zero) = ground (arith, latest_at)
  lookup_object-without_object (some (suc g)) = ground (arith, object_at (suc g))

-- Every read without preconditions behind a deletion in a well-formed index of an object that is found:
-- the deleted object is not found, neither by its generation nor, if it was the live one, as the live
-- object; all other reads without preconditions are answered as before.
pub get_object-delete_object :
    (bucket_name n : Text) (context : Context) (g : ℕ) (ps : List ObjectPrecondition) (now : ℕ)
    (blob : Blob) (live : Option ℕ) (b : Bucket) (bucket_name' n' : Text) (context' : Context)
    (generation : Option ℕ) {s : Database}
    → IsWellFormed s
    → (get_object_entry bucket_name n context (some g) ps true s).0 ≡ ok (some blob, live)
    → lookup (bucket_key bucket_name context) s.buckets ≡ some b
    → (get_object bucket_name' n' context' generation []
        (delete_object bucket_name n context g ps now s).1).0
      ≡ (if text_eq (bucket_key bucket_name context) (bucket_key bucket_name' context')
            && text_eq n n'
            && selects generation
                (lookup2 (bucket_key bucket_name context) n s.live_generations)
                blob.generation
          then err (notfound context')
          else (get_object bucket_name' n' context' generation [] s).0)
get_object-delete_object bucket_name n context g ps now blob live b bucket_name' n' context'
      generation {s} w found is_bucket =
    let bk = bucket_key bucket_name context in
    let (h, asked, lives, there) =
      get_object_entry-found bucket_name n context (some g) ps true s found in
    let named =
      (object_key-injective n blob.name h blob.generation
        (w.keyed bk (object_key n h) blob there)).0 in
    rw
      (
        get_object_lem bucket_name' n' context' generation []
            (delete_object-IsWellFormed bucket_name n context g ps now w),
        get_object_lem bucket_name' n' context' generation [] w,
        delete_object_lem bucket_name n context g ps now blob live b w found is_bucket,
      )
      (lookup_object-without_object bk n blob b.soft_delete_policy now
        (bucket_key bucket_name' context') n' context' s named generation)
