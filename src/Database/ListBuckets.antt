-- ===== src/Database/ListBuckets.antt =====
-- testbench/database.py: `list_bucket`.
pub mod Contents
use storage_testbench.Base.{
  ℕ, ◌+◌, Bool, true, false, not, ◌&&◌, ◌||◌, ◌==◌, leb, Option, none, some, List, [], ◌∷◌, ◌++◌,
  Text, codes, values, text_eq, starts_with, if◌then◌else◌,
}
use storage_testbench.Errors.{Context, invalid, ok, pure, gets, raise_if, ◌>>=◌, ◌>>◌}
use storage_testbench.Database.State.{Database, Bucket}
use storage_testbench.Database.Access.{Action}
use storage_testbench.Database.Buckets.{nonempty}
use storage_testbench.Database.RetryTests.{
  member, has_instructions_retry_test, peek_next_instruction, dequeue_next_instruction,
}
use storage_testbench.Instructions.{match_pieces, return_unreachable_buckets}
use storage_testbench.Pathing.{ends_with}

-- What `list_bucket` reads of a request: the header of the retry test, and `returnPartialSuccess`.
pub record BucketsRequest : Type 0 where
  pub test_id : Option Text
  pub return_partial_success : Option Text

abbrev lower_char : ℕ → ℕ
lower_char c = if leb 65 c && leb c 90 then c + 32 else c

-- `t.lower()`, for the letters of ASCII
unfoldable pub lower : Text → Text
lower [] = []
lower (c ∷ t) = lower_char c ∷ lower t

-- `p in t`
unfoldable pub has_text : Text → Text → Bool
has_text p [] = starts_with [] p
has_text p (c ∷ t) = starts_with (c ∷ t) p || has_text p t

abbrev join_first : ℕ → List Text → List Text
join_first c [] = (c ∷ []) ∷ []
join_first c (part ∷ parts) = (c ∷ part) ∷ parts

-- `t.split(",")`
unfoldable pub split_commas : Text → List Text
split_commas [] = [] ∷ []
split_commas (c ∷ t) =
    let parts = split_commas t in if c == 44 then [] ∷ parts else join_first c parts

-- The buckets whose name begins with the prefix.
unfoldable pub select_buckets : Text → List Bucket → List Bucket
select_buckets [] buckets = buckets
select_buckets (c ∷ prefix) [] = []
select_buckets (c ∷ prefix) (b ∷ buckets) =
    let rest = select_buckets (c ∷ prefix) buckets in
    if starts_with b.name (codes "projects/_/buckets/" ++ c ∷ prefix) then b ∷ rest else rest

abbrev api_method : Text
api_method = codes "storage.buckets.list"

-- The names that an instruction lists, which is taken from its queue if it matches.
unfoldable pub take_unreachable : Text → Option Text → Action (List Text)
unfolding match_pieces split_commas
take_unreachable test_id none = pure []
take_unreachable test_id (some next_instruction) =
    elim (match_pieces return_unreachable_buckets next_instruction) [
      | none ↦ pure []
      | some [] ↦ pure []
      | some (names ∷ groups) ↦
          (dequeue_next_instruction test_id api_method >>= λ _. pure (split_commas names))
    ]

unfoldable pub instructed_names : Option Text → Action (List Text)
unfolding take_unreachable
instructed_names none = pure []
instructed_names (some []) = pure []
instructed_names (some (c ∷ test_id)) = do
  has ← has_instructions_retry_test (c ∷ test_id) api_method (codes "HTTP")
  next_instruction ← (if has then peek_next_instruction (c ∷ test_id) api_method else pure none)
  take_unreachable (c ∷ test_id) next_instruction

-- The names with `unreachable` in them.
unfoldable pub named_unreachable : List Bucket → List Text
named_unreachable [] = []
named_unreachable (b ∷ buckets) =
    let rest = named_unreachable buckets in
    if has_text (codes "unreachable") b.name then b.name ∷ rest else rest

abbrev pub is_partial : Option Text → Bool
is_partial none = false
is_partial (some t) = text_eq (lower t) (codes "true")

unfoldable pub unreachable_names : Option BucketsRequest → List Bucket → Action (List Text)
unfolding instructed_names named_unreachable
unreachable_names none buckets = pure []
unreachable_names (some r) buckets = do
  names ← instructed_names r.test_id
  pure (
      if not (nonempty names) && is_partial r.return_partial_success
      then named_unreachable buckets
      else names)

-- The last loop: the reachable buckets, and the names of the others.
unfoldable pub divide : List Text → List Bucket → List Bucket × List Text
divide names [] = ([], [])
divide names (b ∷ buckets) =
    let found = divide names buckets in
    if member b.name names then (found.0, b.name ∷ found.1) else (b ∷ found.0, found.1)

unfoldable pub list_bucket :
    Option Text → Text → Option BucketsRequest → Context → Action (List Bucket × List Text)
unfolding unreachable_names select_buckets divide
list_bucket project_id prefix request context = do
  raise_if (elim project_id [ none ↦ true | some id ↦ ends_with id (codes "-") ]) (invalid context)
  buckets ← gets (λ s. values s.buckets)
  names ← unreachable_names request (select_buckets prefix buckets)
  pure (divide names (select_buckets prefix buckets))
