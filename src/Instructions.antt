-- ===== src/Instructions.antt =====
-- testbench/common.py: the instructions of retry tests. Their regular expressions are sequences of
-- literals and of groups of one or more characters of a class, up to the end. A group is greedy, and
-- nothing is lost by that: no class here has the character that comes behind its group.
pub mod Rendered
pub mod Tokens
use storage_testbench.Base.{
  ℕ, ◌+◌, ◌-◌, ◌*◌, Bool, true, false, ◌&&◌, ◌||◌, ◌==◌, leb, Option, none, some, List, [], ◌∷◌,
  Text, codes, text_eq, if◌then◌else◌,
}
use storage_testbench.Errors.{pure, ◌>>=◌}
use storage_testbench.Database.Access.{Action}
use storage_testbench.Database.RetryTests.{has_instructions_retry_test, peek_next_instruction}

pub data Piece : Type 0 where
  literal : Text → Piece
  group : (ℕ → Bool) → Piece

-- The rest behind a literal.
unfoldable pub strip : Text → Text → Option Text
strip [] t = some t
strip (a ∷ p) [] = none
strip (a ∷ p) (b ∷ t) = if a == b then strip p t else none

-- The longest run of a class, and the rest.
unfoldable pub span : (ℕ → Bool) → Text → Text × Text
span c [] = ([], [])
span c (a ∷ t) = let found = span c t in if c a then (a ∷ found.0, found.1) else ([], a ∷ t)

abbrev pub add_group : Text → Option (List Text) → Option (List Text)
add_group [] found = none
add_group (a ∷ run) none = none
add_group (a ∷ run) (some found) = some ((a ∷ run) ∷ found)

-- `expression.match(t)`: its groups. `$` stands at the end, and before a line feed at the end.
unfoldable pub match_pieces : List Piece → Text → Option (List Text)
unfolding strip span
match_pieces [] [] = some []
match_pieces [] (a ∷ t) = if text_eq (a ∷ t) (10 ∷ []) then some [] else none
match_pieces (literal p ∷ ps) t = elim (strip p t) [
  | none ↦ none
  | some rest ↦ match_pieces ps rest
]
match_pieces (group c ∷ ps) t =
    let found = match_pieces ps (span c t).1 in add_group (span c t).0 found

abbrev pub is_digit : ℕ → Bool
is_digit c = leb 48 c && leb c 57

-- `[a-z\-]`
abbrev pub is_lower_or_dash : ℕ → Bool
is_lower_or_dash c = (leb 97 c && leb c 122) || c == 45

-- `[a-zA-Z0-9,-_]`, where `,-_` is a range
abbrev pub is_listed_char : ℕ → Bool
is_listed_char c =
    (leb 97 c && leb c 122)
    || (leb 65 c && leb c 90)
    || (leb 48 c && leb c 57)
    || (leb 44 c && leb c 95)

abbrev pub return_error_code : List Piece
return_error_code = literal (codes "return-") ∷ group is_digit ∷ []

abbrev pub return_error_connection : List Piece
return_error_connection = literal (codes "return-") ∷ group is_lower_or_dash ∷ []

abbrev pub return_error_after_bytes : List Piece
return_error_after_bytes =
    literal (codes "return-")
    ∷ group is_digit
    ∷ literal (codes "-after-")
    ∷ group is_digit
    ∷ literal (codes "K")
    ∷ []

abbrev pub return_short_response : List Piece
return_short_response =
    literal (codes "return-broken-stream-final-chunk-after-")
    ∷ group is_digit
    ∷ literal (codes "B")
    ∷ []

abbrev pub return_broken_stream_after_bytes : List Piece
return_broken_stream_after_bytes =
    literal (codes "return-broken-stream-after-") ∷ group is_digit ∷ literal (codes "K") ∷ []

abbrev pub stall_after_bytes : List Piece
stall_after_bytes =
    literal (codes "stall-for-")
    ∷ group is_digit
    ∷ literal (codes "s-after-")
    ∷ group is_digit
    ∷ literal (codes "K")
    ∷ []

abbrev pub return_redirection_token : List Piece
return_redirection_token = literal (codes "redirect-send-token-") ∷ group is_lower_or_dash ∷ []

abbrev pub return_handle_and_redirection_token : List Piece
return_handle_and_redirection_token =
    literal (codes "redirect-send-handle-and-token-") ∷ group is_lower_or_dash ∷ []

abbrev pub expect_redirection_token : List Piece
expect_redirection_token = literal (codes "redirect-expect-token-") ∷ group is_lower_or_dash ∷ []

abbrev pub return_error_if_dp_enforced : List Piece
return_error_if_dp_enforced =
    literal (codes "return-") ∷ group is_digit ∷ literal (codes "-if-dp-enforced") ∷ []

abbrev pub return_unreachable_buckets : List Piece
return_unreachable_buckets =
    literal (codes "return-unreachable-buckets-") ∷ group is_listed_char ∷ []

abbrev matches_one : List (List Piece) → Text → Bool
matches_one [] t = false
matches_one (e ∷ es) t = elim (match_pieces e t) [ none ↦ matches_one es t | some _ ↦ true ]

-- `__validate_injected_failure_description`: whether one of the expressions matches.
unfoldable pub is_failure : Text → Bool
is_failure failure =
    matches_one
      (return_error_code ∷ return_error_connection ∷ return_error_after_bytes
        ∷ return_short_response ∷ return_broken_stream_after_bytes ∷ stall_after_bytes
        ∷ return_redirection_token ∷ return_handle_and_redirection_token ∷ expect_redirection_token
        ∷ return_unreachable_buckets ∷ return_error_if_dp_enforced ∷ [])
      failure

-- `int(digits)`
unfoldable pub to_int : ℕ → Text → ℕ
to_int n [] = n
to_int n (c ∷ t) = to_int (n * 10 + (c - 48)) t

abbrev none_found : ℕ × ℕ × Text
none_found = (0, 0, [])

-- The two numbers of an instruction, the second in KiB.
unfoldable pub read_numbers : Text → Option (List Text) → ℕ × ℕ × Text
unfolding to_int
read_numbers test_id (some (a ∷ b ∷ groups)) = (to_int 0 a, to_int 0 b * 1024, test_id)
read_numbers test_id _ = none_found

unfoldable pub read_instruction : List Piece → Text → Option Text → ℕ × ℕ × Text
unfolding read_numbers match_pieces
read_instruction expression test_id none = none_found
read_instruction expression test_id (some []) = none_found
read_instruction expression test_id (some (c ∷ t)) =
    read_numbers test_id (match_pieces expression (c ∷ t))

abbrev pub insert_method : Text
insert_method = codes "storage.objects.insert"

-- What the two readers below share: the next instruction of the retry test of the request.
unfoldable pub read_next : List Piece → Option Text → Text → Action (ℕ × ℕ × Text)
unfolding read_instruction
read_next expression none transport = pure none_found
read_next expression (some []) transport = pure none_found
read_next expression (some (c ∷ test_id)) transport = do
  has ← has_instructions_retry_test (c ∷ test_id) insert_method transport
  next_instruction ← (if has then peek_next_instruction (c ∷ test_id) insert_method else pure none)
  pure (read_instruction expression (c ∷ test_id) next_instruction)

-- `get_retry_uploads_error_after_bytes`, with the identifier of the headers or of the metadata
unfoldable pub get_retry_uploads_error_after_bytes : Option Text → Text → Action (ℕ × ℕ × Text)
unfolding read_next
get_retry_uploads_error_after_bytes = read_next return_error_after_bytes

-- `get_stall_uploads_after_bytes`
unfoldable pub get_stall_uploads_after_bytes : Option Text → Text → Action (ℕ × ℕ × Text)
unfolding read_next
get_stall_uploads_after_bytes = read_next stall_after_bytes
