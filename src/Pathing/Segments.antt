-- ===== src/Pathing/Segments.antt =====
-- What `classify` of testbench/pathing.py promises of a natural path.
use storage_testbench.Base.{
  ℕ, false, ◌==◌, List, [], ◌∷◌, ◌≡◌, refl, ap, subst, ◌∙◌, Text, text_eq, codes, starts_with,
  Bool-cases, inl, inr, arith, map,
}
use storage_testbench.Pathing.{
  escape, split, join_first, is_dots, has_char, has_bad_segment, has_dots_segment, needs_overflow,
  classify, natural,
}

has_char-escape :
    (c : ℕ) (t : Text)
    → (c == 37) ≡ false
    → (c == 50) ≡ false
    → (c == 53) ≡ false
    → has_char c (escape t) ≡ has_char c t
unfolding has_char escape
has_char-escape c [] p q r = refl
has_char-escape c (d ∷ t) p q r = ground (arith, has_char-escape c t p q r)

join_first-other :
    (c : ℕ) (parts : List Text)
    → (c == 37) ≡ false
    → join_first c (map escape parts) ≡ map escape (join_first c parts)
unfolding escape
join_first-other c [] e = rw e refl
join_first-other c (part ∷ parts) e = rw e refl

join_first-percent :
    (parts : List Text)
    → join_first 37 (join_first 50 (join_first 53 (map escape parts)))
      ≡ map escape (join_first 37 parts)
unfolding escape
join_first-percent [] = refl
join_first-percent (part ∷ parts) = refl

-- The segments of an escaped name are the escaped segments of the name.
split-escape : (t : Text) → split (escape t) ≡ map escape (split t)
unfolding split escape
split-escape [] = refl
split-escape (c ∷ t) = elim (Bool-cases (c == 37)) [
  | inl percent ↦
      let is_percent : c ≡ 37 = ground arith in
      rw (is_percent, split-escape t) (join_first-percent (split t))
  | inr other ↦ elim (Bool-cases (c == 47)) [
    | inl slash ↦ rw (other, slash, split-escape t) refl
    | inr plain ↦ rw (other, plain, split-escape t) (join_first-other c (split t) other)
  ]
]

is_dots-escape : (t : Text) → is_dots (escape t) ≡ is_dots t
unfolding is_dots escape text_eq
is_dots-escape [] = refl
is_dots-escape (a ∷ []) = ground arith
is_dots-escape (a ∷ b ∷ []) = ground arith
is_dots-escape (a ∷ b ∷ c ∷ t) = ground arith

has_dots_segment-escape :
    (parts : List Text)
    → has_bad_segment parts ≡ false
    → has_dots_segment (map escape parts) ≡ false
unfolding has_bad_segment has_dots_segment
has_dots_segment-escape [] e = refl
has_dots_segment-escape (part ∷ parts) e =
    ground (arith, is_dots-escape part, has_dots_segment-escape parts)

-- A path of a file that stays inside the directory it is joined to: it is relative, none of its
-- segments is `.` or `..`, and it has no NUL.
pub record IsSafe (path : Text) : Type 0 where
  pub relative : starts_with path (codes "/") ≡ false
  pub no_dots : has_dots_segment (split path) ≡ false
  pub no_nul : has_char 0 path ≡ false

starts_with-escape :
    (t : Text) → starts_with t (codes "/") ≡ false → starts_with (escape t) (codes "/") ≡ false
unfolding starts_with escape
starts_with-escape [] e = refl
starts_with-escape (c ∷ t) e = ground arith

module _ (sha256_hex : Text → Text) where
  -- A natural path that `classify` gives is relative, has no segment `.` or `..`, and has no NUL.
  pub classify-IsSafe : (name path : Text) → classify sha256_hex name ≡ natural path → IsSafe path
  unfolding classify needs_overflow
  classify-IsSafe name path e =
      let is_path : escape name ≡ path = ground arith in
      let good : has_bad_segment (split name) ≡ false = ground arith in
      let relative : starts_with name (codes "/") ≡ false = ground arith in
      let no_nul : has_char 0 name ≡ false = ground arith in
      subst IsSafe is_path (record {
        relative = starts_with-escape name relative;
        no_dots =
            ap has_dots_segment (split-escape name) ∙ has_dots_segment-escape (split name) good;
        no_nul = has_char-escape 0 name refl refl refl ∙ no_nul;
      })
