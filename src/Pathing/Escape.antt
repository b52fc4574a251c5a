-- ===== src/Pathing/Escape.antt =====
-- `escape` and `unescape` of testbench/pathing.py.
use storage_testbench.Base.{
  ℕ, false, [], ◌∷◌, ◌≡◌, refl, sym, ap, ◌∙◌, Text, ◌==◌, Bool-cases, inl, inr, arith,
}
use storage_testbench.Pathing.{escape, unescape}

unescape-other : (a : ℕ) (t : Text) → (a == 37) ≡ false → unescape (a ∷ t) ≡ a ∷ unescape t
unfolding unescape
unescape-other a [] e = refl
unescape-other a (b ∷ []) e = refl
unescape-other a (b ∷ c ∷ t) e = rw e refl

-- `unescape` gives back every text from its escaped form.
pub unescape-escape : (t : Text) → unescape (escape t) ≡ t
unfolding escape unescape
unescape-escape [] = refl
unescape-escape (c ∷ t) = elim (Bool-cases (c == 37)) [
  | inl percent ↦ rw percent (rw (unescape-escape t) (ground arith))
  | inr other ↦ rw other (unescape-other c (escape t) other ∙ ap (λ r. c ∷ r) (unescape-escape t))
]

-- Two texts with one escaped form are equal.
pub escape-injective : (s t : Text) → escape s ≡ escape t → s ≡ t
escape-injective s t e = sym (unescape-escape s) ∙ ap unescape e ∙ unescape-escape t
