-- ===== src/Uploads/Resumable/Ranges.antt =====
-- `Content-Range` headers, as a client writes them.
use storage_testbench.Base.{
  ++-nil, ℕ, zero, suc, ◌+◌, ◌-◌, ◌*◌, ◌/◌, ◌%◌, Bool, true, false, ◌&&◌, ltb, ◌==◌, none, some, [],
  ◌∷◌, ◌++◌, Text, codes, ◌≡◌, refl, sym, ap, ◌∙◌, arith, if◌then◌else◌,
}
use mathlib.Core.List.{reverse, reverse-cons}
use storage_testbench.Database.Key.{digits_rev, value_rev, value_rev-digits_rev}
use storage_testbench.Instructions.{strip, span, is_digit, to_int}
use storage_testbench.Instructions.Rendered.{all_in}
use storage_testbench.Uploads.Resumable.{
  number_of, from_to, read_digits, read_bound, read_span, content_range_split,
}

-- The decimal digits of a number.
abbrev pub decimal : ℕ → Text
decimal n = reverse (digits_rev (suc n) n)

to_int-snoc : (n c : ℕ) (t : Text) → to_int n (t ++ c ∷ []) ≡ to_int n t * 10 + (c - 48)
unfolding to_int
to_int-snoc n c [] = refl
to_int-snoc n c (a ∷ t) = to_int-snoc (n * 10 + (a - 48)) c t

to_int-reverse : (t : Text) → to_int 0 (reverse t) ≡ value_rev t
unfolding value_rev to_int
to_int-reverse [] = refl
to_int-reverse (c ∷ t) =
    rw (reverse-cons c t) (to_int-snoc 0 c (reverse t) ∙ ground (arith, to_int-reverse t))

pub to_int-decimal : (n : ℕ) → to_int 0 (decimal n) ≡ n
to_int-decimal n =
    to_int-reverse (digits_rev (suc n) n) ∙ value_rev-digits_rev (suc n) n (omega arith)

all_in-snoc : (c : ℕ → Bool) (a : ℕ) (t : Text) → all_in c (t ++ a ∷ []) ≡ (all_in c t && c a)
unfolding all_in
all_in-snoc c a [] = ground arith
all_in-snoc c a (b ∷ t) = ground (arith, all_in-snoc c a t)

all_in-reverse : (c : ℕ → Bool) (t : Text) → all_in c (reverse t) ≡ all_in c t
unfolding all_in
all_in-reverse c [] = refl
all_in-reverse c (a ∷ t) =
    rw (reverse-cons a t) (all_in-snoc c a (reverse t) ∙ ground (arith, all_in-reverse c t))

all_in-digits_rev : (f n : ℕ) → all_in is_digit (digits_rev f n) ≡ true
unfolding all_in digits_rev
all_in-digits_rev zero n = refl
all_in-digits_rev (suc f) n = ground (arith, all_in-digits_rev f (n / 10))

pub all_in-decimal : (n : ℕ) → all_in is_digit (decimal n) ≡ true
all_in-decimal n = all_in-reverse is_digit (digits_rev (suc n) n) ∙ all_in-digits_rev (suc n) n

-- A text ends behind its digits where another character stands.
abbrev pub Stops : Text → Type 0
Stops [] = Unit
Stops (c ∷ t) = is_digit c ≡ false

pub span-Stops :
    (run t : Text) → all_in is_digit run ≡ true → Stops t → span is_digit (run ++ t) ≡ (run, t)
unfolding span all_in
span-Stops [] [] digits stops = refl
span-Stops [] (c ∷ t) digits stops = rw stops refl
span-Stops (a ∷ run) t digits stops =
    let here : is_digit a ≡ true = ground arith in
    let there : all_in is_digit run ≡ true = ground arith in
    rw (here, span-Stops run t there stops) refl

pub read_digits-run :
    (a : ℕ) (run t : Text)
    → all_in is_digit (a ∷ run) ≡ true
    → Stops t
    → read_digits ((a ∷ run) ++ t) ≡ some (to_int 0 (a ∷ run), t)
unfolding read_digits number_of
read_digits-run a run t digits stops = ap number_of (span-Stops (a ∷ run) t digits stops)

read_bound-run :
    (a : ℕ) (run t : Text)
    → all_in is_digit (a ∷ run) ≡ true
    → Stops t
    → read_bound ((a ∷ run) ++ t) ≡ some (some (to_int 0 (a ∷ run)), t)
unfolding read_bound strip all_in
read_bound-run a run t digits stops =
    let other : (42 == a) ≡ false = ground arith in
    rw (read_bound, other) (rw (read_digits-run a run t digits stops) refl)

snoc-cons : (c : ℕ) (t : Text) → (a : ℕ) × (run : Text) × (t ++ c ∷ [] ≡ a ∷ run)
snoc-cons c [] = (c, [], refl)
snoc-cons c (b ∷ t) = (b, t ++ c ∷ [], refl)

-- The digits of a number: there is a first one.
pub decimal-digits :
    (n : ℕ)
    → (a : ℕ) × (run : Text) × (decimal n ≡ a ∷ run)
      × (all_in is_digit (a ∷ run) ≡ true)
      × (to_int 0 (a ∷ run) ≡ n)
unfolding digits_rev
decimal-digits n =
    let more = if ltb n 10 then [] else digits_rev n (n / 10) in
    let (a, run, e) = snoc-cons (b'0' + n % 10) (reverse more) in
    let whole : decimal n ≡ a ∷ run = reverse-cons (b'0' + n % 10) more ∙ e in
    (
      a,
      run,
      whole,
      ap (all_in is_digit) (sym whole) ∙ all_in-decimal n,
      ap (to_int 0) (sym whole) ∙ to_int-decimal n,
    )

-- A decimal number is read up to the character behind it.
read_bound-decimal : (n : ℕ) (t : Text) → Stops t → read_bound (decimal n ++ t) ≡ some (some n, t)
read_bound-decimal n t stops =
    let (a, run, e, digits, value) = decimal-digits n in
    rw e (read_bound-run a run t digits stops ∙ ap (λ k. some (some k, t)) value)

-- `bytes <first>-<last>/<total>`
abbrev pub content_range : ℕ → ℕ → ℕ → Text
content_range first last total =
    codes "bytes "
    ++ (decimal first ++ (codes "-" ++ (decimal last ++ (codes "/" ++ decimal total))))

read_span-decimal :
    (first last : ℕ) (t : Text)
    → read_span (decimal first ++ (codes "-" ++ (decimal last ++ (codes "/" ++ t))))
      ≡ some (from_to first (some last), codes "/" ++ t)
unfolding read_span strip
read_span-decimal first last t =
    rw (read_span, read_bound-decimal first (codes "-" ++ (decimal last ++ (codes "/" ++ t))) refl)
      (rw (read_bound-decimal last (codes "/" ++ t) refl) refl)

-- The `Content-Range` header of a request is read as the numbers it is written with.
pub content_range_split-content_range :
    (first last total : ℕ)
    → content_range_split (content_range first last total)
      ≡ some (from_to first (some last), some total)
unfolding content_range_split strip
content_range_split-content_range first last total =
    rw (content_range_split, read_span-decimal first last (decimal total))
      (ap (λ r. elim r [ none ↦ none | some (n, _) ↦ some (from_to first (some last), n) ])
        (ap read_bound (sym (++-nil (decimal total))) ∙ read_bound-decimal total [] tt))
