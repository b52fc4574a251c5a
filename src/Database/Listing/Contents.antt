-- ===== src/Database/Listing/Contents.antt =====
-- The contents of what `list_object` answers, over tests of their own for the parameters of the request.
use storage_testbench.Base.{
  take, drop, ℕ, zero, suc, ◌+◌, Bool, true, false, not, ◌&&◌, ◌||◌, ◌==◌, leb, Option, none, some,
  List, [], ◌∷◌, Text, Dict, lookup, text_eq, text_lt, starts_with, length, if◌then◌else◌,
}
use storage_testbench.Database.State.{Database, Blob}
use storage_testbench.Database.Listing.{ListRequest, add_prefix}

-- The blobs that pass a test, in their order.
unfoldable pub filter : (Blob → Bool) → List Blob → List Blob
filter p [] = []
filter p (x ∷ xs) = let rest = filter p xs in if p x then x ∷ rest else rest

-- The number of blobs that pass a test.
unfoldable pub count : (Blob → Bool) → List Blob → ℕ
count p [] = 0
count p (x ∷ xs) = let rest = count p xs in if p x then suc rest else rest

-- The first of `n` numbers, from `i` on, that passes a test.
unfoldable pub first_at : (ℕ → Bool) → ℕ → ℕ → Option ℕ
first_at test zero i = none
first_at test (suc n) i = let rest = first_at test n (suc i) in if test i then some i else rest

-- Where a text stands in a name for the first time at or behind the offset `i`.
abbrev pub position : Text → Text → ℕ → Option ℕ
position p name i = first_at (λ j. starts_with (drop j name) p) (suc (length (drop i name))) i

abbrev not_first : Option ℕ → Option ℕ
not_first none = none
not_first (some zero) = none
not_first (some (suc i)) = some (suc i)

module _ (glob : Text → Text → Bool) (r : ListRequest) where
  abbrev in_range : Text → Text → Bool
  in_range name [] = not (text_lt name r.start_offset)
  in_range name (c ∷ end) = not (text_lt name r.start_offset) && text_lt name (c ∷ end)

  abbrev fits_glob : Text → Text → Bool
  fits_glob name [] = true
  fits_glob name (c ∷ pattern) = glob name (c ∷ pattern)

  -- The prefix, the offsets (the first is included, the second is not) and the glob.
  unfoldable pub is_selected : Text → Bool
  is_selected name =
      starts_with name r.prefix && in_range name r.end_offset && fits_glob name r.match_glob

  -- Where a name has the delimiter behind the prefix, but not at its beginning.
  abbrev delimited_by : Text → Text → Option ℕ
  delimited_by name [] = none
  delimited_by name (c ∷ d) = not_first (position (c ∷ d) name (length r.prefix))

  unfoldable pub delimited : Text → Option ℕ
  delimited name = delimited_by name r.delimiter

  -- A name without the delimiter is shown, and one that ends at its first, if that is asked for.
  unfoldable pub is_whole : Text → Bool
  is_whole name = elim (delimited name) [
    | none ↦ true
    | some i ↦ r.include_trailing_delimiter && leb (length name) (i + 1)
  ]

abbrev is_current : Option ℕ → ℕ → Bool
is_current none generation = false
is_current (some g) generation = g == generation

module _ (glob : Text → Text → Bool) (r : ListRequest) (live : Dict ℕ) where
  -- The objects that a request for live objects asks for: all generations, or the live ones, with a
  -- name that is selected.
  unfoldable pub is_asked : Blob → Bool
  is_asked o =
      (r.versions || is_current (lookup o.name live) o.generation) && is_selected glob r o.name

  unfoldable pub is_shown : Blob → Bool
  is_shown o = is_asked o && is_whole glob r o.name

  -- Whether an object adds the prefix `p`: its name, up to the delimiter.
  abbrev pub opens : Text → Blob → Bool
  opens p o = elim (delimited glob r o.name) [
    | none ↦ false
    | some i ↦ text_eq (take (i + 1) o.name) p
  ]

  unfoldable pub has_prefix : Text → List Blob → Bool
  has_prefix p [] = false
  has_prefix p (o ∷ objs) = (is_asked o && opens p o) || has_prefix p objs

  -- The set of the prefixes that the objects asked for add.
  unfoldable pub prefixes_of : List Blob → List Text
  prefixes_of [] = []
  prefixes_of (o ∷ objs) =
      let rest = prefixes_of objs in
      if is_asked o
      then elim (delimited glob r o.name) [
        | none ↦ rest
        | some i ↦ add_prefix (take (i + 1) o.name) rest
      ]
      else rest
