-- ===== src/Pathing/BucketNames.antt =====
-- `validate_bucket_name` of testbench/pathing.py.
use storage_testbench.Base.{
  ℕ, true, false, not, ◌&&◌, leb, [], ◌∷◌, ◌≡◌, refl, Text, text_eq, codes, starts_with, length,
  Bool-cases, inl, inr, arith,
}
use storage_testbench.Pathing.{
  split, is_dots, has_char, has_dots_segment, is_bucket_char, matches_tail, matches_all, chop,
  bucket_re, is_reserved, validate_bucket_name,
}

chop-same : (t : Text) → has_char 10 t ≡ false → chop t ≡ t
unfolding chop has_char
chop-same [] e = refl
chop-same (c ∷ []) e = ground arith
chop-same (c ∷ d ∷ t) e = ground (arith, chop-same (d ∷ t))

-- A text that matches has no character of another kind.
matches_tail-has_char :
    (c : ℕ) (t : Text) → is_bucket_char c ≡ false → matches_tail t ≡ true → has_char c t ≡ false
unfolding matches_tail has_char
matches_tail-has_char c [] other m = refl
matches_tail-has_char c (d ∷ []) other m = ground arith
matches_tail-has_char c (d ∷ e ∷ t) other m = ground (arith, matches_tail-has_char c (e ∷ t) other)

split-one : (t : Text) → has_char 47 t ≡ false → split t ≡ t ∷ []
unfolding split has_char
split-one [] e = refl
split-one (c ∷ t) e = ground (arith, split-one t)

matches_has_char :
    (name : Text) (c : ℕ)
    → matches_all name ≡ true
    → is_bucket_char c ≡ false
    → has_char c name ≡ false
unfolding matches_all has_char
matches_has_char [] c m other = refl
matches_has_char (d ∷ t) c m other = ground (arith, matches_tail-has_char c t other)

matches_all-length :
    (name : Text) → matches_all name ≡ true → (leb 3 (length name) && leb (length name) 63) ≡ true
unfolding matches_all
matches_all-length [] m = ground arith
matches_all-length (c ∷ t) m = ground arith

is_dots-short : (t : Text) → leb 3 (length t) ≡ true → is_dots t ≡ false
unfolding is_dots text_eq
is_dots-short [] e = refl
is_dots-short (a ∷ []) e = ground arith
is_dots-short (a ∷ b ∷ []) e = ground arith
is_dots-short (a ∷ b ∷ c ∷ t) e = ground arith

starts_with-has_char : (t : Text) → has_char 47 t ≡ false → starts_with t (codes "/") ≡ false
unfolding starts_with has_char
starts_with-has_char [] e = refl
starts_with-has_char (c ∷ t) e = ground arith

-- For a name without a line feed, `validate_bucket_name` is what its two load-bearing clauses say: the
-- name matches the class of characters from end to end, and it is not reserved.
pub validate_bucket_name_lem :
    (name : Text)
    → has_char 10 name ≡ false
    → validate_bucket_name name ≡ (matches_all name && not (is_reserved name))
unfolding validate_bucket_name has_dots_segment bucket_re
validate_bucket_name_lem name e = elim (Bool-cases (matches_all name)) [
  | inl m ↦
      let no_slash = matches_has_char name 47 m refl in
      ground (
        arith,
        matches_has_char name 0 m refl,
        no_slash,
        split-one name no_slash,
        matches_all-length name m,
        is_dots-short name,
        starts_with-has_char name no_slash,
        chop-same name e,
      )
  | inr other ↦ ground (arith, chop-same name e)
]
