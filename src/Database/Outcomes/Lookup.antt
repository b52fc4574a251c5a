-- ===== src/Database/Outcomes/Lookup.antt =====
-- The outcome of `get_object` as a function of the live generation and of the objects of the bucket.
use storage_testbench.Base.{
  ◌==◌, zero, suc, refl, ℕ, Option, none, some, List, ◌≡◌, Text, lookup, lookup2, arith, inl, inr,
  Option-cases, if◌then◌else◌,
}
use storage_testbench.Errors.{Context, Result, ok, err, notfound}
use storage_testbench.Database.Key.{object_key}
use storage_testbench.Database.State.{Database, Blob, ObjectPrecondition}
use storage_testbench.Database.Access.{bucket_key, check_object}
use storage_testbench.Database.Objects.{lookup_generation, get_object}
use storage_testbench.Database.WellFormed.{IsWellFormed}

-- What `get_object` is to answer: the object of the generation asked for, or of the live one.
abbrev answer : Option Blob → Option ℕ → Context → List ObjectPrecondition → Result (Option Blob)
answer none live context ps = err (notfound context)
answer (some o) live context ps = elim (check_object ps (some o) live context) [
  | err e ↦ err e
  | ok holds ↦ ok (if holds then some o else none)
]

abbrev choose : Text → Text → Option ℕ → Database → Option Blob
choose bk n none s = none
choose bk n (some g) s = lookup2 bk (object_key n g) s.objects

-- The generation that a request means: the live one, if it names none or 0.
abbrev pub wanted : Option ℕ → Option ℕ → Option ℕ
wanted none live = live
wanted (some g) live = if g == 0 then live else some g

wanted_lem :
    (generation live : Option ℕ) → lookup_generation generation live ≡ wanted generation live
unfolding lookup_generation
wanted_lem none live = refl
wanted_lem (some zero) live = ground arith
wanted_lem (some (suc g)) live = ground arith

-- The abstract reading of the index: the object with the generation asked for, or, if none or 0 is
-- asked for, with the live generation; a missing bucket or object is not found.
unfoldable pub lookup_object :
    Text → Text → Context → Option ℕ → List ObjectPrecondition → Database → Result (Option Blob)
lookup_object bk n context generation ps s =
    let live = lookup2 bk n s.live_generations in
    answer (choose bk n (wanted generation live) s) live context ps

-- On a well-formed index `get_object` answers with the object that has the generation asked for, or the
-- live one if none or 0 is asked for, as its preconditions say; a missing bucket or object is not found.
pub get_object_lem :
    (bucket_name n : Text) (context : Context) (generation : Option ℕ)
    (ps : List ObjectPrecondition) {s : Database}
    → IsWellFormed s
    → (get_object bucket_name n context generation ps s).0
      ≡ lookup_object (bucket_key bucket_name context) n context generation ps s
unfolding get_object lookup_object
get_object_lem bucket_name n context generation ps {s} w =
    let bk = bucket_key bucket_name context in
    let same = wanted_lem generation (lookup2 bk n s.live_generations) in
    elim (Option-cases (lookup (bucket_key bucket_name context) s.live_generations)) [
      | inl missing ↦ elim (Option-cases (lookup_generation generation none)) [
        | inl nothing ↦ ground (arith, same)
        | inr (g, asked) ↦ ground (arith, same, w.same_live bk, w.same_objects bk)
      ]
      | inr (inner, present) ↦ elim (Option-cases (lookup_generation generation (lookup n inner))) [
        | inl nothing ↦ ground (arith, same)
        | inr (g, asked) ↦ ground (arith, same, w.same_live bk, w.same_objects bk)
      ]
    ]
