-- ===== src/Instructions/Tokens.antt =====
-- testbench/common.py: instructions to break a stream, and the tokens of gRPC redirections.
use storage_testbench.Base.{
  ℕ, ◌*◌, Bool, true, false, Option, none, some, List, [], ◌∷◌, ◌++◌, ◌≡◌, refl, ap, ◌∙◌, Text,
  codes, text_eq, if◌then◌else◌,
}
use storage_testbench.Errors.{py, type_error, pure, raise, ◌>>=◌}
use storage_testbench.Database.Access.{Action}
use storage_testbench.Database.RetryTests.{
  has_instructions_retry_test, peek_next_instruction, dequeue_next_instruction,
}
use storage_testbench.Instructions.{
  Piece, literal, group, match_pieces, add_group, is_digit, to_int, insert_method,
  return_error_connection, return_broken_stream_after_bytes, return_redirection_token,
  return_handle_and_redirection_token, expect_redirection_token,
}
use storage_testbench.Instructions.Rendered.{all_in, match-literal, match-group}

-- The offset of `broken-stream` alone.
unfoldable pub broken_stream_default : Option (List Text) → ℕ
broken_stream_default (some (token ∷ groups)) =
    if text_eq token (codes "broken-stream") then 4 else 0
broken_stream_default _ = 0

unfoldable pub broken_stream_offset : ℕ → Option (List Text) → ℕ
broken_stream_offset default (some (kib ∷ groups)) = to_int 0 kib * 1024
broken_stream_offset default _ = default

-- `get_broken_stream_after_bytes`
unfoldable pub get_broken_stream_after_bytes : Text → ℕ
unfolding broken_stream_default broken_stream_offset match_pieces
get_broken_stream_after_bytes instruction =
    broken_stream_offset (broken_stream_default (match_pieces return_error_connection instruction))
      (match_pieces return_broken_stream_after_bytes instruction)

-- The first group of a match; the instruction is taken from its queue if that is asked for.
unfoldable pub take_token : Text → Text → Bool → Option (List Text) → Action (Option Text)
take_token test_id method dequeue (some (token ∷ groups)) =
    (if dequeue then dequeue_next_instruction test_id method else pure none) >>= λ _.
    pure (some token)
take_token test_id method dequeue _ = pure none

unfoldable pub match_next : Text → Text → List Piece → Bool → Option Text → Action (Option Text)
unfolding take_token match_pieces
match_next test_id method rexp dequeue none = raise (py type_error)
match_next test_id method rexp dequeue (some instruction) =
    take_token test_id method dequeue (match_pieces rexp instruction)

-- `_get_grpc_instruction_match`, with the identifier of the metadata
unfoldable pub get_grpc_instruction_match :
    Option Text → Text → List Piece → Bool → Action (Option Text)
unfolding match_next
get_grpc_instruction_match none method rexp dequeue = pure none
get_grpc_instruction_match (some []) method rexp dequeue = pure none
get_grpc_instruction_match (some (c ∷ test_id)) method rexp dequeue = do
  has ← has_instructions_retry_test (c ∷ test_id) method (codes "GRPC")
  (if has
      then (peek_next_instruction (c ∷ test_id) method
          >>= match_next (c ∷ test_id) method rexp dequeue)
      else pure none)

unfoldable pub get_return_redirect_token : Option Text → Action (Option Text)
get_return_redirect_token test_id =
    get_grpc_instruction_match test_id insert_method return_redirection_token true

unfoldable pub get_return_write_handle_and_redirect_token : Option Text → Action (Option Text)
get_return_write_handle_and_redirect_token test_id =
    get_grpc_instruction_match test_id insert_method return_handle_and_redirection_token true

unfoldable pub get_return_read_handle_and_redirect_token : Option Text → Action (Option Text)
get_return_read_handle_and_redirect_token test_id =
    get_grpc_instruction_match test_id (codes "storage.objects.get")
      return_handle_and_redirection_token true

unfoldable pub get_expect_redirect_token : Option Text → Action (Option Text)
get_expect_redirect_token test_id =
    get_grpc_instruction_match test_id insert_method expect_redirection_token false

-- An instruction to break a stream after some KiB is read as the number it is written with, in bytes.
pub get_broken_stream_after_bytes-digits :
    (a : ℕ) (kib : Text)
    → all_in is_digit (a ∷ kib) ≡ true
    → get_broken_stream_after_bytes
        (codes "return-broken-stream-after-" ++ ((a ∷ kib) ++ codes "K"))
      ≡ to_int 0 (a ∷ kib) * 1024
unfolding get_broken_stream_after_bytes broken_stream_offset
get_broken_stream_after_bytes-digits a kib digits =
    let default = broken_stream_default (
      match_pieces return_error_connection
        (codes "return-broken-stream-after-" ++ ((a ∷ kib) ++ codes "K"))) in
    ap (broken_stream_offset default) (
      match-literal (codes "return-broken-stream-after-")
        (group is_digit ∷ literal (codes "K") ∷ []) ((a ∷ kib) ++ codes "K")
      ∙ match-group is_digit (a ∷ kib) (literal (codes "K") ∷ []) 75 [] digits refl
      ∙ ap (add_group (a ∷ kib)) (match-literal (codes "K") [] []))
