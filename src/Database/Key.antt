-- ===== src/Database/Key.antt =====
-- The keys of the object index, `"%s#%d" % (object_name, generation)`, and the proto form of a
-- bucket's name (testbench/common.py).
use storage_testbench.Base.{
  ℕ, zero, suc, ◌+◌, ◌-◌, ◌*◌, ◌/◌, ◌%◌, ◌<◌, ◌≡◌, refl, ap, ◌∙◌, sym, [], ◌∷◌, ◌++◌, arith, ltb,
  if◌then◌else◌, Text, codes, text_eq, text_eq_iff, ◌==◌, ◌&&◌, Bool-cases, inl, inr,
}
use mathlib.Core.List.{append_assoc, reverse, reverse-append, reverse-cons, reverse-reverse}

-- `projects/_/buckets/<name>`
unfoldable pub bucket_name_to_proto : Text → Text
bucket_name_to_proto name = codes "projects/_/buckets/" ++ name

-- The decimal digits of a number, the last first; fuel above the number is enough.
unfoldable pub digits_rev : ℕ → ℕ → Text
digits_rev zero n = []
digits_rev (suc f) n =
    let rest = digits_rev f (n / 10) in (b'0' + n % 10) ∷ (if ltb n 10 then [] else rest)

-- The number that such digits write.
unfoldable pub value_rev : Text → ℕ
value_rev [] = 0
value_rev (c ∷ s) = (c - b'0') + 10 * value_rev s

pub value_rev-digits_rev : (f n : ℕ) → n < f → value_rev (digits_rev f n) ≡ n
unfolding value_rev digits_rev
value_rev-digits_rev zero n h = elim h [ ]
value_rev-digits_rev (suc f) n h = elim (Bool-cases (ltb n 10)) [
  | inl small ↦ ground arith
  | inr big ↦ ground (arith, value_rev-digits_rev f (n / 10))
]

-- `"%s#%d" % (object_name, generation)`
unfoldable pub object_key : Text → ℕ → Text
object_key name generation = name ++ b'#' ∷ reverse (digits_rev (suc generation) generation)

abbrev IsDigits : Text → Type 0
IsDigits [] = Unit
IsDigits (c ∷ s) = (b'#' < c) × IsDigits s

digits_rev-IsDigits : (f n : ℕ) → IsDigits (digits_rev f n)
unfolding digits_rev
digits_rev-IsDigits zero n = tt
digits_rev-IsDigits (suc f) n = elim (Bool-cases (ltb n 10)) [
  | inl small ↦ rw small (omega arith, tt)
  | inr big ↦ rw big (omega arith, digits_rev-IsDigits f (n / 10))
]

-- A text is split in one way at its first `#`.
split_unique :
    (d e r s : Text) → IsDigits d → IsDigits e → d ++ b'#' ∷ r ≡ e ++ b'#' ∷ s → (d ≡ e) × (r ≡ s)
split_unique [] [] r s hd he h = (refl, cc)
split_unique [] (y ∷ e) r s hd he h = ground arith
split_unique (x ∷ d) [] r s hd he h = ground arith
split_unique (x ∷ d) (y ∷ e) r s hd he h = ground (arith, split_unique d e r s)

reverse-object_key :
    (name : Text) (g : ℕ)
    → reverse (object_key name g) ≡ digits_rev (suc g) g ++ b'#' ∷ reverse name
unfolding object_key
reverse-object_key name g =
    reverse-append name (b'#' ∷ reverse d)
    ∙ ap (λ t. t ++ reverse name)
        (reverse-cons b'#' (reverse d) ∙ ap (λ t. t ++ b'#' ∷ []) (reverse-reverse d))
    ∙ append_assoc d (b'#' ∷ []) (reverse name)
  where
    d : Text
    d = digits_rev (suc g) g

-- Two object names and generations have the same key only if they are the same.
pub object_key-injective :
    (name other : Text) (g h : ℕ)
    → object_key name g ≡ object_key other h
    → (name ≡ other) × (g ≡ h)
object_key-injective name other g h e =
    let p : (digits_rev (suc g) g ≡ digits_rev (suc h) h) × (reverse name ≡ reverse other) =
      split_unique (digits_rev (suc g) g) (digits_rev (suc h) h) (reverse name) (reverse other)
        (digits_rev-IsDigits (suc g) g) (digits_rev-IsDigits (suc h) h)
        (sym (reverse-object_key name g) ∙ ap reverse e ∙ reverse-object_key other h) in
    (
      sym (reverse-reverse name) ∙ ap reverse p.1 ∙ reverse-reverse other,
      sym (value_rev-digits_rev (suc g) g (omega arith))
          ∙ ap value_rev p.0
          ∙ value_rev-digits_rev (suc h) h (omega arith),
    )

-- The test on keys is the test on names and generations.
pub text_eq-object_key :
    (name other : Text) (g h : ℕ)
    → text_eq (object_key name g) (object_key other h) ≡ (text_eq name other && g == h)
text_eq-object_key name other g h = ground (
  arith,
  text_eq_iff (object_key name g) (object_key other h),
  text_eq_iff name other,
  object_key-injective name other g h,
)

pub bucket_name_to_proto-injective :
    (s t : Text) → bucket_name_to_proto s ≡ bucket_name_to_proto t → s ≡ t
unfolding bucket_name_to_proto
bucket_name_to_proto-injective s t e = cc
