-- ===== src/Base/Dicts.antt =====
-- Python's `dict` with `str` keys, in insertion order: an association list with one entry a key.
use mathlib.Core.Path.{◌≡◌, refl, ap, ◌∙◌, fun_ext}
use mathlib.Core.Bool.{Bool, ◌&&◌}
use mathlib.Core.Logic.{inl, inr}
use mathlib.Core.Option
use mathlib.Core.Option.{Option, none, some}
use mathlib.Core.List.{List, [], ◌∷◌, map}
use native.Mathlib.Omega.{arith}
use storage_testbench.Base.Tests.{if◌then◌else◌, is_some, Option-cases, Bool-cases}
use storage_testbench.Base.Texts.{Text, text_eq, text_eq_iff, text_eq_refl}

abbrev pub Dict {ℓ} : Type ℓ → Type ℓ
Dict V = List (Text × V)

module _ {ℓ} {V : Type ℓ} where
  -- d.get(k)
  unfoldable pub lookup : Text → Dict V → Option V
  lookup k [] = none
  lookup k ((j, v) ∷ d) = if text_eq j k then some v else lookup k d

  -- k in d
  abbrev pub contains : Text → Dict V → Bool
  contains k d = is_some (lookup k d)

  -- d[k] = v: an old entry keeps its place
  unfoldable pub insert : Text → V → Dict V → Dict V
  insert k v [] = (k, v) ∷ []
  insert k v ((j, w) ∷ d) = if text_eq j k then (j, v) ∷ d else (j, w) ∷ insert k v d

  -- d.pop(k, None)
  unfoldable pub erase : Text → Dict V → Dict V
  erase k [] = []
  erase k ((j, v) ∷ d) = let rest = erase k d in if text_eq j k then rest else (j, v) ∷ rest

  -- d.values()
  abbrev pub values : Dict V → List V
  values = map (λ (e : Text × V). e.1)

  pub lookup-insert :
      (j k : Text) (v : V) (d : Dict V)
      → lookup j (insert k v d) ≡ (if text_eq k j then some v else lookup j d)
  unfolding lookup insert
  lookup-insert j k v [] = refl
  lookup-insert j k v ((i, w) ∷ d) =
      ground (arith, text_eq_iff k j, text_eq_iff i k, text_eq_iff i j, lookup-insert j k v d)

  pub lookup-erase :
      (j k : Text) (d : Dict V) → lookup j (erase k d) ≡ (if text_eq k j then none else lookup j d)
  unfolding lookup erase
  lookup-erase j k [] = ground arith
  lookup-erase j k ((i, w) ∷ d) =
      ground (arith, text_eq_iff k j, text_eq_iff i k, text_eq_iff i j, lookup-erase j k d)

pub lookup-nil {ℓ} : {V : Type ℓ} (k : Text) → lookup {V = V} k [] ≡ none
unfolding lookup
lookup-nil k = refl

-- Dictionaries of dictionaries.
module _ {ℓ} {V : Type ℓ} where
  -- d[k] changed in place by `f`; nothing happens if there is no d[k]
  unfoldable pub alter : Text → (V → V) → Dict V → Dict V
  alter k f d = elim (lookup k d) [ none ↦ d | some v ↦ insert k (f v) d ]

  pub lookup-alter :
      (j k : Text) (f : V → V) (d : Dict V)
      → lookup j (alter k f d) ≡ (if text_eq k j then Option.map f (lookup k d) else lookup j d)
  unfolding alter
  lookup-alter j k f d = elim (Option-cases (lookup k d)) [
    | inl e ↦ ground (arith, text_eq_iff k j)
    | inr (v, e) ↦ ground (arith, lookup-insert j k (f v) d)
  ]

  -- d.get(k, {}).get(j)
  abbrev pub lookup2 : Text → Text → Dict (Dict V) → Option V
  lookup2 k j d = elim (lookup k d) [ none ↦ none | some inner ↦ lookup j inner ]

module _ {ℓ} {V : Type ℓ} where
  pub contains-alter :
      (j k : Text) (f : V → V) (d : Dict V) → contains j (alter k f d) ≡ contains j d
  contains-alter j k f d = ground (arith, lookup-alter j k f d, text_eq_iff k j)

  pub lookup2-put :
      (i j k l : Text) (v : V) (d : Dict (Dict V))
      → lookup2 i j (alter k (insert l v) d)
        ≡ (if text_eq k i && text_eq l j && contains k d then some v else lookup2 i j d)
  lookup2-put i j k l v d = elim (Option-cases (lookup k d)) [
    | inl e ↦ ground (arith, lookup-alter i k (insert l v) d, text_eq_iff k i)
    | inr (inner, e) ↦
        ground (arith, lookup-alter i k (insert l v) d, text_eq_iff k i, lookup-insert j l v inner)
  ]

  pub lookup2-pop :
      (i j k l : Text) (d : Dict (Dict V))
      → lookup2 i j (alter k (erase l) d)
        ≡ (if text_eq k i && text_eq l j then none else lookup2 i j d)
  lookup2-pop i j k l d = elim (Option-cases (lookup k d)) [
    | inl e ↦ ground (arith, lookup-alter i k (erase l) d, text_eq_iff k i)
    | inr (inner, e) ↦
        ground (arith, lookup-alter i k (erase l) d, text_eq_iff k i, lookup-erase j l inner)
  ]

  pub insert-insert : (k : Text) (v w : V) (d : Dict V) → insert k v (insert k w d) ≡ insert k v d
  unfolding insert
  insert-insert k v w [] = ground (arith, text_eq_iff k k)
  insert-insert k v w ((j, x) ∷ d) = elim (Bool-cases (text_eq j k)) [
    | inl same ↦ rw same (rw same refl)
    | inr other ↦ rw other (rw other (ap (λ r. (j, x) ∷ r) (insert-insert k v w d)))
  ]

  -- A write of what is there changes nothing.
  pub insert-lookup : (k : Text) (v : V) (d : Dict V) → lookup k d ≡ some v → insert k v d ≡ d
  unfolding insert lookup
  insert-lookup k v [] e = ground arith
  insert-lookup k v ((j, x) ∷ d) e = elim (Bool-cases (text_eq j k)) [
    | inl same ↦ ground arith
    | inr other ↦ ground (arith, insert-lookup k v d)
  ]

module _ {ℓ} {V : Type ℓ} where
  -- Two changes of one entry are one change.
  pub alter-alter :
      (k : Text) (f g : V → V) (d : Dict V) → alter k f (alter k g d) ≡ alter k (λ v. f (g v)) d
  unfolding alter
  alter-alter k f g d = elim (Option-cases (lookup k d)) [
    | inl e ↦ ground arith
    | inr (v, e) ↦
        ground (arith, lookup-insert k k (g v) d, text_eq_refl k, insert-insert k (f (g v)) (g v) d)
  ]

pub put-put {ℓ} :
    {V : Type ℓ} (k l : Text) (v w : V) (d : Dict (Dict V))
    → alter k (insert l v) (alter k (insert l w) d) ≡ alter k (insert l v) d
put-put k l v w d =
    alter-alter k (insert l v) (insert l w) d
    ∙ ap (λ f. alter k f d) (fun_ext (insert-insert l v w))
