-- ===== src/FileStore/Places.antt =====
-- testbench/filestore.py: where the live object of a name lies, and what `_scan_bucket` takes a file for.
use storage_testbench.Base.{
  ℕ, Bool, true, false, not, ◌&&◌, ◌||◌, ◌==◌, List, [], ◌∷◌, ◌++◌, ◌≡◌, ◌≢◌, refl, sym, ap, ◌∙◌,
  arith, Text, codes, text_eq, starts_with, if◌then◌else◌, Bool-cases, inl, inr,
}
use storage_testbench.Pathing.{
  Place, overflow, natural, classify, overflow_token, escape, needs_overflow, split, join_first,
  ends_with, has_char,
}
use storage_testbench.FileStore.Effects.{prefix_of}
use storage_testbench.FileStore.Methods.{but_last, last, meta_of, parts_of}

prefix_of-join_first :
    (c : ℕ) (parts : List Text)
    → prefix_of (but_last (join_first c parts)) ++ last (join_first c parts)
      ≡ c ∷ (prefix_of (but_last parts) ++ last parts)
unfolding prefix_of but_last last
prefix_of-join_first c [] = refl
prefix_of-join_first c (part ∷ []) = refl
prefix_of-join_first c (part ∷ next ∷ parts) = refl

join_first-cons :
    (c : ℕ) (l : List Text) → (part : Text) × (parts : List Text) × (join_first c l ≡ part ∷ parts)
join_first-cons c [] = (c ∷ [], [], refl)
join_first-cons c (part ∷ parts) = (c ∷ part, parts, refl)

split-cons : (t : Text) → (part : Text) × (parts : List Text) × (split t ≡ part ∷ parts)
unfolding split
split-cons [] = ([], [], refl)
split-cons (c ∷ t) = elim (Bool-cases (c == 47)) [
  | inl slash ↦ ([], split t, rw slash refl)
  | inr other ↦ rw other (join_first-cons c (split t))
]

-- The segments of a path, joined again
pub prefix_of-split : (t : Text) → prefix_of (but_last (split t)) ++ last (split t) ≡ t
unfolding split prefix_of but_last last
prefix_of-split [] = refl
prefix_of-split (c ∷ t) = elim (Bool-cases (c == 47)) [
  | inl slash ↦
      let (part, parts, e) = split-cons t in
      let is_slash : c ≡ 47 = ground arith in
      rw slash (
        rw e (
          ap (λ r. 47 ∷ r) (ap (λ l. prefix_of (but_last l) ++ last l) (sym e) ∙ prefix_of-split t)
          ∙ ap (λ x. x ∷ t) (sym is_slash)))
  | inr other ↦ rw other (prefix_of-join_first c (split t) ∙ ap (λ r. c ∷ r) (prefix_of-split t))
]

unfoldable pub place_path : Place → Text
place_path (overflow target) = codes ".gcs/overflow/" ++ target
place_path (natural target) = target

pub parts_of-path : (p : Place) → prefix_of (parts_of p).0 ++ (parts_of p).1 ≡ place_path p
unfolding parts_of place_path prefix_of
parts_of-path (overflow target) = refl
parts_of-path (natural target) = prefix_of-split target

-- What `_scan_bucket` takes a file for
pub data Role : Type 0 where
  live soft folder skip : Role

unfoldable pub role_of : Text → Role
role_of path =
    if starts_with path (codes ".gcs/")
    then if starts_with path (codes ".gcs/soft_deleted/") && ends_with path (codes "/meta.gcsmeta")
      then soft
      else if starts_with path (codes ".gcs/overflow/") && ends_with path (codes ".gcsmeta")
      then live
      else if starts_with path (codes ".gcs/folders/") && ends_with path (codes ".json")
      then folder
      else skip
    else if ends_with path (codes ".gcsmeta")
    then live
    else skip

-- Behind `.gcs/`, and not the place of a live object
unfoldable pub is_internal : Text → Bool
is_internal path =
    starts_with path (codes ".gcs/") && not (starts_with path (codes ".gcs/overflow/"))

pub ends_with-meta_of : (t : Text) → ends_with (meta_of t) (codes ".gcsmeta") ≡ true
unfolding ends_with text_eq
ends_with-meta_of [] = refl
ends_with-meta_of (c ∷ t) = ground (arith, ends_with-meta_of t)

-- A text without `.` does not end with `.gcsmeta`.
ends_with-has_char : (t : Text) → has_char 46 t ≡ false → ends_with t (codes ".gcsmeta") ≡ false
unfolding ends_with has_char text_eq
ends_with-has_char [] e = refl
ends_with-has_char (c ∷ t) e = ground (arith, ends_with-has_char t)

text_eq-escape : (t p : Text) → has_char 37 p ≡ false → text_eq (escape t) p ≡ text_eq t p
unfolding text_eq escape has_char
text_eq-escape [] p e = refl
text_eq-escape (c ∷ t) [] e = ground arith
text_eq-escape (c ∷ t) (d ∷ p) e = ground (arith, text_eq-escape t p)

ends_with-escape :
    (t : Text) → ends_with (escape t) (codes ".gcsmeta") ≡ ends_with t (codes ".gcsmeta")
unfolding ends_with escape text_eq has_char
ends_with-escape [] = refl
ends_with-escape (c ∷ t) =
    ground (arith, ends_with-escape t, text_eq-escape t (codes "gcsmeta") refl)

starts_with-escape :
    (t p : Text) → has_char 37 p ≡ false → starts_with (escape t) p ≡ starts_with t p
unfolding starts_with escape has_char
starts_with-escape t [] e = refl
starts_with-escape [] (d ∷ p) e = refl
starts_with-escape (c ∷ t) (d ∷ p) e = ground (arith, starts_with-escape t p)

starts_with-++ : (p t : Text) → starts_with (p ++ t) p ≡ true
unfolding starts_with
starts_with-++ [] t = refl
starts_with-++ (c ∷ p) t = ground (arith, starts_with-++ p t)

starts_with-longer : (t s p : Text) → starts_with t p ≡ true → starts_with (t ++ s) p ≡ true
unfolding starts_with
starts_with-longer t s [] e = refl
starts_with-longer [] s (d ∷ p) e = ground arith
starts_with-longer (c ∷ t) s (d ∷ p) e = ground (arith, starts_with-longer t s p)

-- Of two beginnings of a text, one is a beginning of the other.
pub starts_with-comparable :
    (t p q : Text)
    → starts_with t p ≡ true
    → starts_with t q ≡ true
    → (starts_with p q || starts_with q p) ≡ true
unfolding starts_with
starts_with-comparable t [] q e e' = ground arith
starts_with-comparable t (c ∷ p) [] e e' = ground arith
starts_with-comparable [] (c ∷ p) (d ∷ q) e e' = ground arith
starts_with-comparable (a ∷ t) (c ∷ p) (d ∷ q) e e' = ground (arith, starts_with-comparable t p q)

not_soft :
    (starts_with (codes ".gcs/overflow/") (codes ".gcs/soft_deleted/")
      || starts_with (codes ".gcs/soft_deleted/") (codes ".gcs/overflow/"))
    ≡ false
unfolding starts_with
not_soft = refl

not_folder :
    (starts_with (codes ".gcs/overflow/") (codes ".gcs/folders/")
      || starts_with (codes ".gcs/folders/") (codes ".gcs/overflow/"))
    ≡ false
unfolding starts_with
not_folder = refl

overflow-apart :
    (t : Text)
    → starts_with t (codes ".gcs/overflow/") ≡ true
    → (starts_with t (codes ".gcs/soft_deleted/") || starts_with t (codes ".gcs/folders/")) ≡ false
overflow-apart t e = ground (
  arith,
  starts_with-comparable t (codes ".gcs/overflow/") (codes ".gcs/soft_deleted/"),
  not_soft,
  starts_with-comparable t (codes ".gcs/overflow/") (codes ".gcs/folders/"),
  not_folder,
)

starts_with-meta_of :
    (t : Text) → starts_with (meta_of t) (codes ".gcs/") ≡ starts_with t (codes ".gcs/")
unfolding starts_with
starts_with-meta_of [] = refl
starts_with-meta_of (a ∷ []) = ground arith
starts_with-meta_of (a ∷ b ∷ []) = ground arith
starts_with-meta_of (a ∷ b ∷ c ∷ []) = ground arith
starts_with-meta_of (a ∷ b ∷ c ∷ d ∷ []) = ground arith
starts_with-meta_of (a ∷ b ∷ c ∷ d ∷ e ∷ t) = ground arith

pub is_internal-meta_of : (t : Text) → is_internal t ≡ false → is_internal (meta_of t) ≡ false
unfolding is_internal
is_internal-meta_of t e =
    ground (
      arith,
      starts_with-meta_of t,
      starts_with-longer t (codes ".gcsmeta") (codes ".gcs/overflow/"),
    )

-- The files of live objects, as the scan takes them
pub role_of-meta_of : (t : Text) → is_internal t ≡ false → role_of (meta_of t) ≡ live
unfolding role_of is_internal
role_of-meta_of t e =
    ground (arith, is_internal-meta_of t e, ends_with-meta_of t, overflow-apart (meta_of t))

pub role_of-media :
    (t : Text) → is_internal t ≡ false → ends_with t (codes ".gcsmeta") ≡ false → role_of t ≡ skip
unfolding role_of is_internal
role_of-media t e other = ground (arith, overflow-apart t)

pub role_of-internal : (t : Text) → is_internal t ≡ true → role_of t ≢ live
unfolding role_of is_internal
role_of-internal t e = ground arith

module _ (sha256_hex : Text → Text) where
  unfoldable pub live_path : Text → Text
  live_path name = place_path (classify sha256_hex name)

  -- A token is written in hexadecimal digits.
  module _ (no_dot : (name : Text) → has_char 46 (sha256_hex name) ≡ false) where
    overflow-suffix :
        (name : Text)
        → ends_with (codes ".gcs/overflow/" ++ sha256_hex name) (codes ".gcsmeta") ≡ false
    unfolding ends_with text_eq
    overflow-suffix name = ends_with-has_char (sha256_hex name) (no_dot name)

    pub live_path-suffix : (name : Text) → ends_with (live_path name) (codes ".gcsmeta") ≡ false
    unfolding live_path classify overflow_token place_path needs_overflow
    live_path-suffix name = ground (arith, overflow-suffix name, ends_with-escape name)

  pub is_internal-live_path : (name : Text) → is_internal (live_path name) ≡ false
  unfolding is_internal live_path classify overflow_token place_path needs_overflow has_char
  is_internal-live_path name = ground (
    arith,
    starts_with-escape name (codes ".gcs/") refl,
    starts_with-++ (codes ".gcs/overflow/") (sha256_hex name),
  )

  abbrev pub side_path : Text → Text
  side_path name = meta_of (live_path name)
