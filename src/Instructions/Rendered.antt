-- ===== src/Instructions/Rendered.antt =====
-- Instructions are read as they are written.
use storage_testbench.Base.{
  ℕ, ◌*◌, Bool, true, false, ◌&&◌, some, List, [], ◌∷◌, ◌++◌, ◌≡◌, refl, ap, ◌∙◌, Text, codes,
  arith,
}
use storage_testbench.Errors.{ok}
use storage_testbench.Database.State.{Database}
use storage_testbench.Database.RetryTests.{has_instructions_retry_test, peek_next_instruction}
use storage_testbench.Instructions.{
  Piece, literal, group, strip, span, match_pieces, add_group, is_digit, return_error_after_bytes,
  to_int, insert_method, get_retry_uploads_error_after_bytes,
}

unfoldable pub all_in : (ℕ → Bool) → Text → Bool
all_in c [] = true
all_in c (a ∷ t) = c a && all_in c t

pub span-run :
    (c : ℕ → Bool) (run : Text) (x : ℕ) (t : Text)
    → all_in c run ≡ true
    → c x ≡ false
    → span c (run ++ x ∷ t) ≡ (run, x ∷ t)
unfolding span all_in
span-run c [] x t inside outside = rw outside refl
span-run c (a ∷ run) x t inside outside =
    let here : c a ≡ true = ground arith in
    let there : all_in c run ≡ true = ground arith in
    rw (here, span-run c run x t there outside) refl

-- The instruction that a test writes: an error with this code after so many KiB.
abbrev pub render : Text → Text → Text
render code kib = codes "return-" ++ (code ++ (codes "-after-" ++ (kib ++ codes "K")))

pub strip-++ : (p t : Text) → strip p (p ++ t) ≡ some t
unfolding strip
strip-++ [] t = refl
strip-++ (a ∷ p) t = ground (arith, strip-++ p t)

pub match-literal :
    (p : Text) (ps : List Piece) (t : Text)
    → match_pieces (literal p ∷ ps) (p ++ t) ≡ match_pieces ps t
unfolding match_pieces
match-literal p ps t = rw (match_pieces, strip-++ p t) refl

pub match-group :
    (c : ℕ → Bool) (run : Text) (ps : List Piece) (x : ℕ) (t : Text)
    → all_in c run ≡ true
    → c x ≡ false
    → match_pieces (group c ∷ ps) (run ++ x ∷ t) ≡ add_group run (match_pieces ps (x ∷ t))
unfolding match_pieces
match-group c run ps x t inside outside = rw (span-run c run x t inside outside) refl

match-render :
    (a b : ℕ) (code kib : Text)
    → all_in is_digit (a ∷ code) ≡ true
    → all_in is_digit (b ∷ kib) ≡ true
    → match_pieces return_error_after_bytes (render (a ∷ code) (b ∷ kib))
      ≡ some ((a ∷ code) ∷ (b ∷ kib) ∷ [])
unfolding match_pieces
match-render a b code kib digits digits' =
    let after_code : Text = codes "after-" ++ ((b ∷ kib) ++ codes "K") in
    let pieces : List Piece =
      literal (codes "-after-") ∷ group is_digit ∷ literal (codes "K") ∷ [] in
    match-literal (codes "return-") (group is_digit ∷ pieces) ((a ∷ code) ++ 45 ∷ after_code)
    ∙ match-group is_digit (a ∷ code) pieces 45 after_code digits refl
    ∙ ap (add_group (a ∷ code)) (
        match-literal (codes "-after-") (group is_digit ∷ literal (codes "K") ∷ [])
          ((b ∷ kib) ++ codes "K")
        ∙ match-group is_digit (b ∷ kib) (literal (codes "K") ∷ []) 75 [] digits' refl)

-- An instruction to return an error after some KiB, next in the queue of the retry test, is read as the
-- numbers it is written with, in bytes, and stays in the queue.
pub get_retry_uploads_error_after_bytes-render :
    (t : ℕ) (test_id transport : Text) (a b : ℕ) (code kib : Text) (s : Database)
    → all_in is_digit (a ∷ code) ≡ true
    → all_in is_digit (b ∷ kib) ≡ true
    → has_instructions_retry_test (t ∷ test_id) insert_method transport s ≡ (ok true, s)
    → peek_next_instruction (t ∷ test_id) insert_method s
      ≡ (ok (some (render (a ∷ code) (b ∷ kib))), s)
    → get_retry_uploads_error_after_bytes (some (t ∷ test_id)) transport s
      ≡ (ok (to_int 0 (a ∷ code), to_int 0 (b ∷ kib) * 1024, t ∷ test_id), s)
unfolding get_retry_uploads_error_after_bytes
get_retry_uploads_error_after_bytes-render t test_id transport a b code kib s digits digits' has
      next =
    rw (has, next, match-render a b code kib digits digits') refl
