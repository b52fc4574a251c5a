-- ===== src/Database/Outcomes/Insert.antt =====
-- `insert_object` and the reads behind it.
use storage_testbench.Base.{
  ℕ, zero, suc, Bool, true, Option, none, some, List, [], ◌≡◌, Text, lookup, lookup2, contains,
  arith, inl, inr, Option-cases, if◌then◌else◌, ◌&&◌, ◌==◌, text_eq, lookup2-put,
}
use storage_testbench.Errors.{Context, Error, Result, ok, err}
use storage_testbench.Database.Key.{object_key, text_eq-object_key}
use storage_testbench.Database.State.{Database, Blob, ObjectPrecondition}
use storage_testbench.Database.Access.{bucket_key, check_object}
use storage_testbench.Database.Objects.{
  key_of, lookup_generation, get_object, insert_object, current_object, commit_object,
}
use storage_testbench.Database.WellFormed.{IsWellFormed}
use storage_testbench.Database.WellFormed.Objects.{insert_object-IsWellFormed}
use storage_testbench.Database.Outcomes.Lookup.{lookup_object, get_object_lem}

-- Whether a request for a generation is for this one, if it is live: `None` and 0 ask for the live one.
abbrev pub asks_for : Option ℕ → ℕ → Bool
asks_for none g = true
asks_for (some zero) g = true
asks_for (some (suc h)) g = suc h == g

module _ (bk : Text) (blob : Blob) (bk' n : Text) (context : Context) {s : Database}
    (w : IsWellFormed s) (there : contains bk s.objects ≡ true) where
  abbrev s' : Database
  s' = (commit_object bk blob s).1

  -- The object at a key behind the writes of `insert_object`.
  object_at :
      (g : ℕ)
      → lookup2 bk' (object_key n g) s'.objects ≡ (
          if text_eq bk bk' && text_eq blob.name n && blob.generation == g
          then some blob
          else lookup2 bk' (object_key n g) s.objects)
  unfolding commit_object
  object_at g = ground (
    arith,
    lookup2-put bk' (object_key n g) bk (key_of blob) blob s.objects,
    text_eq-object_key blob.name n blob.generation g,
  )

  live_at : lookup2 bk' n s'.live_generations ≡ (
      if text_eq bk bk' && text_eq blob.name n
      then some blob.generation
      else lookup2 bk' n s.live_generations)
  unfolding commit_object
  live_at = ground (
    arith,
    w.same_objects bk,
    w.same_live bk,
    lookup2-put bk' n bk blob.name blob.generation s.live_generations,
  )

  latest_at : lookup_object bk' n context none [] s' ≡ (
      if text_eq bk bk' && text_eq blob.name n
      then ok (some blob)
      else lookup_object bk' n context none [] s)
  unfolding lookup_object lookup_generation check_object
  latest_at = elim (Option-cases (lookup2 bk' n s.live_generations)) [
    | inl dead ↦ ground (arith, live_at, object_at blob.generation)
    | inr (g, lives) ↦ ground (arith, live_at, object_at blob.generation, object_at g)
  ]

  lookup_object-commit_object :
      (generation : Option ℕ)
      → lookup_object bk' n context generation [] s' ≡ (
          if text_eq bk bk' && text_eq blob.name n && asks_for generation blob.generation
          then ok (some blob)
          else lookup_object bk' n context generation [] s)
  unfolding lookup_object lookup_generation check_object
  lookup_object-commit_object none = ground (arith, latest_at)
  lookup_object-commit_object (some zero) = ground (arith, latest_at)
  lookup_object-commit_object (some (suc g)) = ground (arith, object_at (suc g))

module _ (bucket_name : Text) (blob : Blob) (context : Context) (ps : List ObjectPrecondition)
    (s : Database) where
  -- What the preconditions of an insertion are checked against.
  abbrev pub replaced : Option ℕ → Option Blob
  replaced live = elim live [
    | none ↦ none
    | some g ↦ lookup2 (bucket_key bucket_name context) (object_key blob.name g) s.objects
  ]

  abbrev pub checked : Result Bool
  checked =
      let live = lookup2 (bucket_key bucket_name context) blob.name s.live_generations in
      check_object ps (replaced live) live context

module _ (bucket_name : Text) (blob : Blob) (context : Context) (ps : List ObjectPrecondition)
    {s : Database} (w : IsWellFormed s) where
  abbrev bk : Text
  bk = bucket_key bucket_name context

  insert_object-commit_object :
      contains bk s.objects ≡ true
      → checked bucket_name blob context ps s ≡ ok true
      → insert_object bucket_name blob context ps s ≡ commit_object bk blob s
  unfolding insert_object current_object
  insert_object-commit_object there passed = elim (Option-cases (lookup bk s.live_generations)) [
    | inl missing ↦ absurd (ground (arith, w.same_objects bk, w.same_live bk))
    | inr (inner, e) ↦ elim (Option-cases (lookup blob.name inner)) [
      | inl dead ↦ ground arith
      | inr (g, lives) ↦ ground arith
    ]
  ]

-- Every read without preconditions behind an insertion into a well-formed index that the preconditions of
-- the insertion allow, into a bucket that is there: the new object answers for its generation and as the
-- live one, all other reads without preconditions are answered as before.
pub get_object-insert_object :
    (bucket_name : Text) (blob : Blob) (context : Context) (ps : List ObjectPrecondition)
    (bucket_name' n : Text) (context' : Context) (generation : Option ℕ) {s : Database}
    (w : IsWellFormed s)
    → contains (bucket_key bucket_name context) s.objects ≡ true
    → checked bucket_name blob context ps s ≡ ok true
    → (get_object bucket_name' n context' generation []
        (insert_object bucket_name blob context ps s).1).0
      ≡ (if text_eq (bucket_key bucket_name context) (bucket_key bucket_name' context')
            && text_eq blob.name n
            && asks_for generation blob.generation
          then ok (some blob)
          else (get_object bucket_name' n context' generation [] s).0)
get_object-insert_object bucket_name blob context ps bucket_name' n context' generation {s} w there
      passed =
    rw
      (
        get_object_lem bucket_name' n context' generation []
            (insert_object-IsWellFormed bucket_name blob context ps w),
        get_object_lem bucket_name' n context' generation [] w,
        insert_object-commit_object bucket_name blob context ps w there passed,
      )
      (lookup_object-commit_object (bucket_key bucket_name context) blob
        (bucket_key bucket_name' context') n context' w there generation)

-- With a store whose methods return: an insertion that raises has changed nothing in the index and told
-- the store nothing.
pub insert_object_refused :
    (bucket_name : Text) (blob : Blob) (context : Context) (ps : List ObjectPrecondition)
    (s : Database) (e : Error)
    → (insert_object bucket_name blob context ps s).0 ≡ err e
    → (insert_object bucket_name blob context ps s).1 ≡ s
unfolding insert_object
insert_object_refused bucket_name blob context ps s e h = ground arith
