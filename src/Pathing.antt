-- ===== src/Pathing.antt =====
-- testbench/pathing.py: the names of buckets and objects on disk. The SHA-256 token of a name is a
-- parameter; the surrogates that `str.encode` refuses are not told apart.
pub mod Escape
pub mod Segments
pub mod BucketNames
use storage_testbench.Base.{
  ℕ, ◌+◌, Bool, true, false, ◌&&◌, ◌||◌, ◌==◌, ltb, leb, not, List, [], ◌∷◌, ◌++◌, Text, codes,
  text_eq, starts_with, length, if◌then◌else◌,
}

-- `c in t`
unfoldable pub has_char : ℕ → Text → Bool
has_char c [] = false
has_char c (d ∷ t) = d == c || has_char c t

-- `t.endswith(p)`
unfoldable pub ends_with : Text → Text → Bool
ends_with [] p = text_eq [] p
ends_with (c ∷ t) p = text_eq (c ∷ t) p || ends_with t p

abbrev pub join_first : ℕ → List Text → List Text
join_first c [] = (c ∷ []) ∷ []
join_first c (part ∷ parts) = (c ∷ part) ∷ parts

-- `t.split("/")`
unfoldable pub split : Text → List Text
split [] = [] ∷ []
split (c ∷ t) = let parts = split t in if c == 47 then [] ∷ parts else join_first c parts

-- `t in (".", "..")`
unfoldable pub is_dots : Text → Bool
is_dots t = text_eq t (codes ".") || text_eq t (codes "..")

-- `len(t.encode("utf-8"))`
abbrev code_units : ℕ → ℕ
code_units c = if ltb c 128 then 1 else if ltb c 2048 then 2 else if ltb c 65536 then 3 else 4

unfoldable pub utf8_length : Text → ℕ
utf8_length [] = 0
utf8_length (c ∷ t) = code_units c + utf8_length t

abbrev pub name_max : ℕ
name_max = 255

-- The loop of `_needs_overflow` over the segments.
unfoldable pub has_bad_segment : List Text → Bool
has_bad_segment [] = false
has_bad_segment (seg ∷ segs) = is_dots seg || ltb name_max (utf8_length seg) || has_bad_segment segs

-- `_needs_overflow`
unfoldable pub needs_overflow : Text → Bool
unfolding has_bad_segment split ends_with
needs_overflow object_name =
    if ends_with object_name (codes "/")
    then true
    else if starts_with object_name (codes ".gcs/") || ends_with object_name (codes ".gcsmeta")
    then true
    else if has_char 0 object_name || starts_with object_name (codes "/")
    then true
    else has_bad_segment (split object_name)

-- `object_name.replace("%", "%25")`
unfoldable pub escape : Text → Text
escape [] = []
escape (c ∷ t) = let rest = escape t in if c == 37 then 37 ∷ 50 ∷ 53 ∷ rest else c ∷ rest

-- `escaped.replace("%25", "%")`
unfoldable pub unescape : Text → Text
unescape [] = []
unescape (a ∷ []) = a ∷ []
unescape (a ∷ b ∷ []) = a ∷ b ∷ []
unescape (a ∷ b ∷ c ∷ t) =
    let matched = unescape t in
    let unmatched = unescape (b ∷ c ∷ t) in
    if a == 37 && b == 50 && c == 53 then 37 ∷ matched else a ∷ unmatched

pub data Place : Type 0 where
  overflow : Text → Place
  natural : Text → Place

module _ (sha256_hex : Text → Text) where
  unfoldable pub overflow_token : Text → Text
  overflow_token name = sha256_hex name

  unfoldable pub classify : Text → Place
  unfolding overflow_token
  classify object_name =
      if needs_overflow object_name
      then overflow (overflow_token object_name)
      else natural (escape object_name)

-- `[a-z0-9]`, and `[a-z0-9._\-]`
abbrev pub is_alnum : ℕ → Bool
is_alnum c = (leb 97 c && leb c 122) || (leb 48 c && leb c 57)

abbrev pub is_bucket_char : ℕ → Bool
is_bucket_char c = is_alnum c || c == 46 || c == 95 || c == 45

-- The characters behind the first: any of the class, and the last a letter or a digit.
unfoldable pub matches_tail : Text → Bool
matches_tail [] = false
matches_tail (c ∷ []) = is_alnum c
matches_tail (c ∷ d ∷ t) = is_bucket_char c && matches_tail (d ∷ t)

unfoldable pub matches_all : Text → Bool
matches_all [] = false
matches_all (c ∷ t) = is_alnum c && matches_tail t && leb 2 (length t) && leb (length t) 62

-- The name without a line feed at its end.
unfoldable pub chop : Text → Text
chop [] = []
chop (c ∷ []) = if c == 10 then [] else c ∷ []
chop (c ∷ d ∷ t) = c ∷ chop (d ∷ t)

-- `_BUCKET_RE.match(name)`: `$` stands at the end, and before a line feed at the end.
unfoldable pub bucket_re : Text → Bool
unfolding matches_all matches_tail chop
bucket_re name = matches_all name || matches_all (chop name)

-- `re.search("g[0o][0o]g[1l][e3]", name)`
abbrev looks_google : Text → Bool
looks_google (a ∷ b ∷ c ∷ d ∷ e ∷ f ∷ t) =
    a == 103
    && (b == 48 || b == 111)
    && (c == 48 || c == 111)
    && d == 103
    && (e == 49 || e == 108)
    && (f == 101 || f == 51)
looks_google _ = false

unfoldable pub search_google : Text → Bool
search_google [] = false
search_google (c ∷ t) = looks_google (c ∷ t) || search_google t

unfoldable pub is_reserved : Text → Bool
unfolding search_google
is_reserved name = starts_with name (codes "goog") || search_google name

unfoldable pub has_dots_segment : List Text → Bool
has_dots_segment [] = false
has_dots_segment (part ∷ parts) = is_dots part || has_dots_segment parts

-- `validate_bucket_name`: whether it returns, where the source raises `ValueError` else.
unfoldable pub validate_bucket_name : Text → Bool
unfolding has_dots_segment split is_reserved bucket_re
validate_bucket_name name =
    if has_char 0 name || starts_with name (codes "/") || is_dots name
    then false
    else if has_dots_segment (split name)
    then false
    else if has_char 47 name
    then false
    else if not (leb 3 (length name) && leb (length name) 63) && not (has_char 46 name)
    then false
    else if not (bucket_re name)
    then false
    else not (is_reserved name)
