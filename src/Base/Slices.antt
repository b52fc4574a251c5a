-- ===== src/Base/Slices.antt =====
-- Slices of lists, as Python's `xs[begin:end]` with offsets from the front.
use Prim.Native.Nat.{ℕ, zero, suc, ◌+◌, ◌-◌, ◌≤◌}
use mathlib.Core.Path.{◌≡◌, refl, sym, ap, ◌∙◌}
use mathlib.Core.List.{List, [], ◌∷◌, ◌++◌}
use native.Mathlib.Omega.{arith}
use native.Mathlib.Numerals.{unary_clauses}
use mathlib.Core.Logic.{inl, inr}
use storage_testbench.Base.Tests.{ltb, if◌then◌else◌, Bool-cases}
use storage_testbench.Base.Texts.{length}

unfoldable pub take {ℓ} : {A : Type ℓ} → ℕ → List A → List A
take zero xs = []
take (suc n) [] = []
take (suc n) (x ∷ xs) = x ∷ take n xs

unfoldable pub drop {ℓ} : {A : Type ℓ} → ℕ → List A → List A
drop zero xs = xs
drop (suc n) [] = []
drop (suc n) (x ∷ xs) = drop n xs

-- `b[begin:end]` with offsets from the front
abbrev pub slice {ℓ} : {A : Type ℓ} → ℕ → ℕ → List A → List A
slice begin end b = take (end - begin) (drop begin b)

pub take-zero {ℓ} : {A : Type ℓ} (xs : List A) → take 0 xs ≡ []
unfolding take
take-zero xs = refl

pub take-take {ℓ} :
    {A : Type ℓ} (m n : ℕ) (xs : List A) → take m xs ++ take n (drop m xs) ≡ take (m + n) xs
unfolding take drop
take-take zero n xs = let e : 0 + n ≡ n = omega arith in ap (λ k. take k xs) (sym e)
take-take (suc m) zero [] = simp unary_clauses refl
take-take (suc m) (suc n) [] = simp unary_clauses refl
take-take (suc m) n (x ∷ xs) =
    let e : suc m + n ≡ suc (m + n) = omega arith in
    ap (λ r. x ∷ r) (take-take m n xs) ∙ ap (λ k. take k (x ∷ xs)) (sym e)

pub drop-drop {ℓ} : {A : Type ℓ} (m n : ℕ) (xs : List A) → drop n (drop m xs) ≡ drop (m + n) xs
unfolding drop
drop-drop zero n xs = let e : 0 + n ≡ n = omega arith in ap (λ k. drop k xs) (sym e)
drop-drop (suc m) zero [] = simp unary_clauses refl
drop-drop (suc m) (suc n) [] = simp unary_clauses refl
drop-drop (suc m) n (x ∷ xs) =
    let e : suc m + n ≡ suc (m + n) = omega arith in
    drop-drop m n xs ∙ ap (λ k. drop k (x ∷ xs)) (sym e)

-- Two adjoining slices are one.
pub slice-slice {ℓ} :
    {A : Type ℓ} (begin middle end : ℕ) (b : List A)
    → begin ≤ middle
    → middle ≤ end
    → slice begin middle b ++ slice middle end b ≡ slice begin end b
slice-slice begin middle end b low high =
    let here : begin + (middle - begin) ≡ middle = omega arith in
    let there : (middle - begin) + (end - middle) ≡ end - begin = omega arith in
    ap (λ k. slice begin middle b ++ take (end - middle) (drop k b)) (sym here)
    ∙ ap (λ r. slice begin middle b ++ take (end - middle) r)
        (sym (drop-drop begin (middle - begin) b))
    ∙ take-take (middle - begin) (end - middle) (drop begin b)
    ∙ ap (λ k. take k (drop begin b)) there

pub length-take_le {ℓ} : {A : Type ℓ} (n : ℕ) (xs : List A) → length (take n xs) ≤ n
unfolding take
length-take_le zero xs = omega arith
length-take_le (suc n) [] = omega arith
length-take_le (suc n) (x ∷ xs) = ground (arith, length-take_le n xs)

pub length-drop {ℓ} : {A : Type ℓ} (n : ℕ) (xs : List A) → length (drop n xs) ≡ length xs - n
unfolding drop
length-drop zero xs = omega arith
length-drop (suc n) [] = omega arith
length-drop (suc n) (x ∷ xs) = ground (arith, length-drop n xs)

pub length-take {ℓ} : {A : Type ℓ} (n : ℕ) (xs : List A) → n ≤ length xs → length (take n xs) ≡ n
unfolding take
length-take zero xs e = refl
length-take (suc n) [] e = ground arith
length-take (suc n) (x ∷ xs) e = ground (arith, length-take n xs)

pub take-take_min {ℓ} :
    {A : Type ℓ} (m n : ℕ) (xs : List A) → m ≤ n → take m (take n xs) ≡ take m xs
unfolding take
take-take_min zero n xs e = refl
take-take_min (suc m) zero xs e = ground arith
take-take_min (suc m) (suc n) [] e = refl
take-take_min (suc m) (suc n) (x ∷ xs) e = ap (λ r. x ∷ r) (take-take_min m n xs (ground arith))

pub take-nil {ℓ} : {A : Type ℓ} (n : ℕ) → take {A = A} n [] ≡ []
unfolding take
take-nil zero = refl
take-nil (suc n) = refl

pub drop-take {ℓ} :
    {A : Type ℓ} (m n : ℕ) (xs : List A) → drop m (take n xs) ≡ take (n - m) (drop m xs)
unfolding take drop
drop-take zero n xs = let e : n - 0 ≡ n = omega arith in ap (λ k. take k xs) (sym e)
drop-take (suc m) zero xs =
    let e : 0 - suc m ≡ 0 = omega arith in ap (λ k. take k (drop (suc m) xs)) (sym e)
drop-take (suc m) (suc n) [] = sym (take-nil (suc n - suc m))
drop-take (suc m) (suc n) (x ∷ xs) =
    let e : suc n - suc m ≡ n - m = omega arith in
    drop-take m n xs ∙ ap (λ k. take k (drop m xs)) (sym e)

pub slice-zero {ℓ} : {A : Type ℓ} (n : ℕ) (xs : List A) → slice 0 n xs ≡ take n xs
unfolding drop
slice-zero n xs = let e : n - 0 ≡ n = omega arith in ap (λ k. take k xs) e

-- The first elements of a concatenation, from beyond its first part.
pub take-++ {ℓ} :
    {A : Type ℓ} (n : ℕ) (xs ys : List A)
    → length xs ≤ n
    → take n (xs ++ ys) ≡ xs ++ take (n - length xs) ys
unfolding take
take-++ n [] ys e = let e' : n - 0 ≡ n = omega arith in ap (λ k. take k ys) (sym e')
take-++ zero (x ∷ xs) ys e = ground arith
take-++ (suc n) (x ∷ xs) ys e =
    let e' : suc n - suc (length xs) ≡ n - length xs = omega arith in
    ap (λ r. x ∷ r) (take-++ n xs ys (ground arith) ∙ ap (λ k. xs ++ take k ys) (sym e'))

-- A slice of a slice.
pub slice-within {ℓ} :
    {A : Type ℓ} (begin end from to : ℕ) (b : List A)
    → begin + to ≤ end
    → take (to - from) (drop from (slice begin end b)) ≡ take (to - from) (drop (begin + from) b)
slice-within begin end from to b e =
    ap (take (to - from)) (drop-take from (end - begin) (drop begin b))
    ∙ take-take_min (to - from) ((end - begin) - from) (drop from (drop begin b)) (omega arith)
    ∙ ap (take (to - from)) (drop-drop begin from b)

pub drop-slice {ℓ} :
    {A : Type ℓ} (begin p end : ℕ) (xs : List A)
    → begin ≤ p
    → drop (p - begin) (slice begin end xs) ≡ slice p end xs
drop-slice begin p end xs low =
    let there : begin + (p - begin) ≡ p = omega arith in
    let left : (end - begin) - (p - begin) ≡ end - p = omega arith in
    drop-take (p - begin) (end - begin) (drop begin xs)
    ∙ ap (take ((end - begin) - (p - begin))) (drop-drop begin (p - begin) xs)
    ∙ ap (λ k. take ((end - begin) - (p - begin)) (drop k xs)) there
    ∙ ap (λ k. take k (drop p xs)) left

pub slice_empty {ℓ} :
    {A : Type ℓ} (begin end : ℕ) (xs : List A) → end ≤ begin → slice begin end xs ≡ []
slice_empty begin end xs back =
    let none : end - begin ≡ 0 = omega arith in
    ap (λ k. take k (drop begin xs)) none ∙ take-zero (drop begin xs)

-- The bytes up to a place, and those from there to another, are those up to the other.
pub take-slice {ℓ} :
    {A : Type ℓ} (p end : ℕ) (xs : List A) → p ≤ end → take p xs ++ slice p end xs ≡ take end xs
take-slice p end xs on =
    ap (λ r. r ++ slice p end xs) (sym (slice-zero p xs))
    ∙ slice-slice 0 p end xs (omega arith) on
    ∙ slice-zero end xs

pub ++-nil {ℓ} : {A : Type ℓ} (xs : List A) → xs ++ [] ≡ xs
++-nil [] = refl
++-nil (x ∷ xs) = ap (λ r. x ∷ r) (++-nil xs)

pub take_all {ℓ} : {A : Type ℓ} (xs : List A) → take (length xs) xs ≡ xs
unfolding take
take_all [] = refl
take_all (x ∷ xs) = ap (λ r. x ∷ r) (take_all xs)

pub take_longer {ℓ} : {A : Type ℓ} (m n : ℕ) (xs : List A) → n ≤ m → take m (take n xs) ≡ take n xs
unfolding take
take_longer m zero xs e = take-nil m
take_longer zero (suc n) xs e = ground arith
take_longer (suc m) (suc n) [] e = refl
take_longer (suc m) (suc n) (x ∷ xs) e = ap (λ r. x ∷ r) (take_longer m n xs (ground arith))

-- How far the bytes have come behind a piece that ends at `end`.
abbrev pub reach : ℕ → ℕ → ℕ
reach p end = if ltb p end then end else p

pub take-slice-reach {ℓ} :
    {A : Type ℓ} (p end : ℕ) (xs : List A) → take p xs ++ slice p end xs ≡ take (reach p end) xs
take-slice-reach p end xs = elim (Bool-cases (ltb p end)) [
  | inl more ↦ rw more (take-slice p end xs (ground arith))
  | inr done ↦
      rw done (ap (λ r. take p xs ++ r) (slice_empty p end xs (ground arith)) ∙ ++-nil (take p xs))
]

pub length-slice {ℓ} :
    {A : Type ℓ} (begin end : ℕ) (xs : List A)
    → end ≤ length xs
    → length (slice begin end xs) ≡ end - begin
length-slice begin end xs inside =
    length-take (end - begin) (drop begin xs) (ground (arith, length-drop begin xs))
