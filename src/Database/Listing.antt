-- ===== src/Database/Listing.antt =====
-- testbench/database.py: `list_object`, `list_bucket` behind its filters, and the values of a request
-- to list.
pub mod Order
pub mod Contents
use storage_testbench.Base.{
  take, drop, ℕ, zero, suc, ◌+◌, ◌-◌, Bool, true, false, not, ◌&&◌, ◌||◌, ◌==◌, ltb, Option, none,
  some, is_some, List, [], ◌∷◌, ◌++◌, Text, Dict, lookup, values, text_eq, text_lt, starts_with,
  length, if◌then◌else◌,
}
use storage_testbench.Errors.{
  Context, Error, invalid, Result, ok, err, raise, gets, lift, pure, raise_if, ◌>>=◌, ◌>>◌,
}
use storage_testbench.Database.State.{Database, Bucket, Blob}
use storage_testbench.Database.Access.{
  Action, bucket_key, item, read, get_bucket, get_bucket_for_object,
}
use storage_testbench.Database.Buckets.{or_none_type, nonempty}

-- What `__extract_list_object_request` gives. An `endOffset` that is not given is empty.
pub record ListRequest : Type 0 where
  pub delimiter : Text
  pub prefix : Text
  pub versions : Bool
  pub start_offset : Text
  pub end_offset : Text
  pub include_trailing_delimiter : Bool
  pub match_glob : Text
  pub soft_deleted : Bool

-- `t.find(p)`, with the offset of `t` in a longer text
unfoldable pub find_from : ℕ → Text → Text → Option ℕ
find_from i p [] = if starts_with [] p then some i else none
find_from i p (c ∷ t) =
    let later = find_from (suc i) p t in if starts_with (c ∷ t) p then some i else later

-- `name.find(delimiter, len(prefix))`
unfoldable pub find_delimiter : Text → Text → Text → Option ℕ
unfolding find_from
find_delimiter name delimiter prefix =
    find_from (length prefix) delimiter (drop (length prefix) name)

-- Whether `sort` leaves a blob before another: the sorts are stable.
unfoldable pub insert_item : (Blob → Blob → Bool) → Blob → List Blob → List Blob
insert_item before x [] = x ∷ []
insert_item before x (y ∷ ys) =
    let rest = insert_item before x ys in if before y x then y ∷ rest else x ∷ y ∷ ys

unfoldable pub sort_items : (Blob → Blob → Bool) → List Blob → List Blob
sort_items before [] = []
sort_items before (x ∷ xs) = insert_item before x (sort_items before xs)

abbrev pub by_name : Blob → Blob → Bool
by_name x y = text_lt x.name y.name

abbrev pub by_generation : Blob → Blob → Bool
by_generation x y = ltb x.generation y.generation

-- `prefixes.add(p)`, in a set that is kept sorted
unfoldable pub add_prefix : Text → List Text → List Text
add_prefix p [] = p ∷ []
add_prefix p (q ∷ qs) =
    let rest = add_prefix p qs in
    if text_eq p q then q ∷ qs else if text_lt q p then q ∷ rest else p ∷ q ∷ qs

unfoldable pub concat_lists : List (List Blob) → List Blob
concat_lists [] = []
concat_lists (xs ∷ xss) = xs ++ concat_lists xss

-- `__get_all_soft_deleted_objects`
unfoldable pub get_all_soft_deleted : Text → Action (List Blob)
unfolding concat_lists sort_items
get_all_soft_deleted bk = do
  entries ← read (λ s. s.soft_deleted_objects) bk
  pure (sort_items by_generation (concat_lists (values entries)))

-- `generation != self.__get_live_generation(...)`
abbrev pub is_stale : Option ℕ → ℕ → Bool
is_stale none generation = true
is_stale (some g) generation = not (g == generation)

-- `list_object` takes `glob`, which is `pathlib.PurePath(name).match(match_glob)`.
module _ (glob : Text → Text → Bool) where
  -- The tests on the name.
  unfoldable pub is_match : ListRequest → Text → Bool
  is_match r name =
      starts_with name r.prefix
      && not (text_lt name r.start_offset)
      && (not (nonempty r.end_offset) || text_lt name r.end_offset)
      && (not (nonempty r.match_glob) || glob name r.match_glob)

  -- The prefix that a name adds, if the delimiter is found behind the prefix asked for.
  unfoldable pub rolled_up : ListRequest → Text → Option ℕ
  unfolding find_delimiter
  rolled_up r name =
      if nonempty r.delimiter
      then elim (find_delimiter name r.delimiter r.prefix) [
        | none ↦ none
        | some zero ↦ none
        | some (suc i) ↦ some (suc i)
      ]
      else none

  -- Whether a name that matches is listed as an item.
  unfoldable pub is_item : ListRequest → Text → Bool
  unfolding rolled_up
  is_item r name = elim (rolled_up r name) [
    | none ↦ true
    | some i ↦ not (ltb i (length name - 1) || not r.include_trailing_delimiter)
  ]

  -- One turn of the loop behind its first test.
  unfoldable pub list_blob : ListRequest → Blob → List Blob × List Text → List Blob × List Text
  unfolding is_match is_item
  list_blob r obj (items, prefixes) =
      if is_match r obj.name
      then (
        (if is_item r obj.name then obj ∷ items else items),
        elim (rolled_up r obj.name) [
          | none ↦ prefixes
          | some i ↦ add_prefix (take (i + 1) obj.name) prefixes
        ],
      )
      else (items, prefixes)

  -- The loop: `live` reads the live generation of a name, and may raise.
  unfoldable pub list_loop :
      ListRequest → (Text → Result (Option ℕ)) → List Blob → Result (List Blob × List Text)
  unfolding list_blob
  list_loop r live [] = ok ([], [])
  list_loop r live (obj ∷ objs) =
      let rest = list_loop r live objs in
      if not r.soft_deleted && not r.versions
      then elim (live obj.name) [
        | err e ↦ err e
        | ok g ↦
            if is_stale g obj.generation
            then rest
            else elim rest [ err e ↦ err e | ok found ↦ ok (list_blob r obj found) ]
      ]
      else elim rest [ err e ↦ err e | ok found ↦ ok (list_blob r obj found) ]

  -- `list_object`
  unfoldable pub list_object : ListRequest → Text → Context → Action (List Blob × List Text)
  unfolding list_loop get_all_soft_deleted get_bucket get_bucket_for_object
  list_object r bucket_name context = do
    bucket ← get_bucket_for_object bucket_name context
    metadata ← or_none_type (← get_bucket bucket_name context [])
    raise_if
        ((r.soft_deleted && not (is_some metadata.soft_delete_policy))
          || (r.soft_deleted && r.versions))
        (invalid context)
    objects ←
        (if r.soft_deleted
          then get_all_soft_deleted (bucket_key bucket_name context)
          else pure (values bucket))
    live_generations ← gets (λ s. s.live_generations)
    found ← lift (
        list_loop r
          (λ name. elim (item (bucket_key bucket_name context) live_generations) [
            | err e ↦ err e
            | ok entries ↦ ok (lookup name entries)
          ])
          objects)
    pure (sort_items by_name found.0, found.1)
