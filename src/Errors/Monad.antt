-- ===== src/Errors/Monad.antt =====
-- Methods that change an object and may raise. What was written before a raise stays written, so
-- the state comes back beside the error too.
use storage_testbench.Base.{Bool, Option, none, some, ◌≡◌, refl, ap, ◌⊎◌, inl, inr, if◌then◌else◌}
use storage_testbench.Errors.Kinds.{Error}

pub data Result {ℓ} (A : Type ℓ) : Type ℓ where
  ok : A → Result A
  err : Error → Result A

abbrev pub Exec {ℓ κ} : Type ℓ → Type κ → Type (ℓ ⊔ κ)
Exec S A = S → Result A × S

module _ {ℓ κ} {S : Type ℓ} {A : Type κ} where
  abbrev pub pure : A → Exec S A
  pure a s = (ok a, s)

  abbrev pub raise : Error → Exec S A
  raise e s = (err e, s)

  abbrev pub gets : (S → A) → Exec S A
  gets f s = (ok (f s), s)

  -- A pure computation that may raise.
  abbrev pub lift : Result A → Exec S A
  lift r s = (r, s)

  -- The value, or the error that stands for its absence.
  abbrev pub or_raise : Option A → Error → Exec S A
  or_raise none e s = (err e, s)
  or_raise (some a) e s = (ok a, s)

module _ {ℓ} {S : Type ℓ} where
  abbrev pub modify : (S → S) → Exec S (Unit {0})
  modify f s = (ok tt, f s)

  abbrev pub raise_if : Bool → Error → Exec S (Unit {0})
  raise_if b e s = (if b then err e else ok tt, s)

infixl 5 ◌>>=◌ ◌>>◌
module _ {ℓ} {S A B : Type ℓ} where
  abbrev pub continue : Result A → (A → Exec S B) → Exec S B
  continue (ok a) f s = f a s
  continue (err e) f s = (err e, s)

  abbrev pub ◌>>=◌ : Exec S A → (A → Exec S B) → Exec S B
  ◌>>=◌ m f s = let (r, s') = m s in continue r f s'

abbrev pub ◌>>◌ {ℓ} : {S B : Type ℓ} {A : Type ℓ} → Exec S A → Exec S B → Exec S B
m >> n = m >>= λ _. n

-- The action leaves the state alone, whether it returns or raises.
abbrev pub Reads {ℓ} : {S A : Type ℓ} → Exec S A → Type ℓ
Reads {S} m = (s : S) → (m s).1 ≡ s

-- What holds of the state behind an action, and behind the rest of a block once the action has
-- returned, holds behind the block.
module _ {ℓ} {S A B : Type ℓ} (P : S → Type ℓ) where
  continue_state :
      (r : Result A) (f : A → Exec S B) (s : S)
      → P s
      → ((a : A) → r ≡ ok a → P (f a s).1)
      → P (continue r f s).1
  continue_state (ok a) f s p q = q a refl
  continue_state (err e) f s p q = p

  pub bind_state :
      (m : Exec S A) (f : A → Exec S B) (s : S)
      → P (m s).1
      → ((a : A) → (m s).0 ≡ ok a → P (f a (m s).1).1)
      → P ((m >>= f) s).1
  bind_state m f s p q = continue_state (m s).0 f (m s).1 p q

  pub bind_reader :
      (m : Exec S A) (f : A → Exec S B) (s : S)
      → Reads m
      → P s
      → ((a : A) → (m s).0 ≡ ok a → P (f a s).1)
      → P ((m >>= f) s).1
  bind_reader m f s reads p q = bind_state m f s (rw reads p) (λ a e. rw reads (q a e))

pub or_raise-Reads {ℓ} : {S A : Type ℓ} (o : Option A) (e : Error) → Reads {S = S} (or_raise o e)
or_raise-Reads none e s = refl
or_raise-Reads (some a) e s = refl

-- What holds behind a block that returns may be shown of the rest of the block once its first action
-- has returned.
module _ {ℓ} {S A B : Type ℓ} (P : S → Type ℓ) {b : B} where
  continue_ok :
      (r : Result A) (f : A → Exec S B) (s : S)
      → ((a : A) → r ≡ ok a → (f a s).0 ≡ ok b → P (f a s).1)
      → (continue r f s).0 ≡ ok b
      → P (continue r f s).1
  continue_ok (ok a) f s q e = q a refl e
  continue_ok (err x) f s q e = cc

  pub bind_ok :
      (m : Exec S A) (f : A → Exec S B) (s : S)
      → ((a : A) → (m s).0 ≡ ok a → (f a (m s).1).0 ≡ ok b → P (f a (m s).1).1)
      → ((m >>= f) s).0 ≡ ok b
      → P ((m >>= f) s).1
  bind_ok m f s q e = continue_ok (m s).0 f (m s).1 q e

-- What holds of every error, and of what the rest of a block answers in any state, holds of the answer
-- of the block.
module _ {ℓ} {S A B : Type ℓ} (P : Result B → Type ℓ) (raised : (e : Error) → P (err e)) where
  continue_result :
      (r : Result A) (f : A → Exec S B) (s : S)
      → ((a : A) (s' : S) → P (f a s').0)
      → P (continue r f s).0
  continue_result (ok a) f s q = q a s
  continue_result (err e) f s q = raised e

  pub bind_result :
      (m : Exec S A) (f : A → Exec S B) (s : S)
      → ((a : A) (s' : S) → P (f a s').0)
      → P ((m >>= f) s).0
  bind_result m f s q = continue_result (m s).0 f (m s).1 q

pub Result-cases {ℓ} :
    {A : Type ℓ} (r : Result A) → ((a : A) × (r ≡ ok a)) ⊎ ((e : Error) × (r ≡ err e))
Result-cases (ok a) = inl (a, refl)
Result-cases (err e) = inr (e, refl)

-- What is left to do, once the first action has returned
pub then_returned {ℓ} :
    {S A B : Type ℓ} (m : Exec S A) (n : Exec S B) (s : S) (a : A)
    → (m s).0 ≡ ok a
    → (m >> n) s ≡ n (m s).1
then_returned m n s a e = ap (λ r. continue r (λ _. n) (m s).1) e
