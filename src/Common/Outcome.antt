-- ===== src/Common/Outcome.antt =====
-- What a call of kernel code comes to: a value, an error of type `E`, or a panic (a failed
-- `assert!`, `expect` or `debug_assert!`, an overflow or an index out of bounds).
use mathlib.Core.Path.{◌≡◌, refl}
use mathlib.Core.Logic.{◌⊎◌, inl, inr}
use mathlib.Core.Option.{Option, none, some}
use mathlib.Core.Bool.{Bool, true, false}

pub data Outcome {ℓ} (E : Type 0) (A : Type ℓ) : Type ℓ where
  done : A → Outcome E A
  err : E → Outcome E A
  panic : Outcome E A

module _ {E : Type 0} where
  infixl 5 ◌>>=◌ ◌>>◌
  abbrev pub ◌>>=◌ {ℓ κ} : {A : Type ℓ} {B : Type κ} → Outcome E A → (A → Outcome E B) → Outcome E B
  done a >>= f = f a
  err e >>= f = err e
  panic >>= f = panic

  abbrev pub ◌>>◌ {ℓ} : {B : Type ℓ} → Outcome E (Unit {0}) → Outcome E B → Outcome E B
  m >> k = m >>= λ _. k

  -- An early return with the error `e` unless the test passes.
  abbrev pub guard : Bool → E → Outcome E (Unit {0})
  guard true e = done tt
  guard false e = err e

  -- `assert!`.
  abbrev pub assert : Bool → Outcome E (Unit {0})
  assert true = done tt
  assert false = panic

  -- `ok_or`.
  abbrev pub ok_or {ℓ} : {A : Type ℓ} → Option A → E → Outcome E A
  ok_or none e = err e
  ok_or (some a) e = done a

  -- `expect`.
  abbrev pub expect {ℓ} : {A : Type ℓ} → Option A → Outcome E A
  expect none = panic
  expect (some a) = done a

pub Outcome-cases :
    {E A : Type 0} (x : Outcome E A)
    → ((a : A) × (x ≡ done a)) ⊎ ((e : E) × (x ≡ err e)) ⊎ (x ≡ panic)
Outcome-cases (done a) = inl (a, refl)
Outcome-cases (err e) = inr (inl (e, refl))
Outcome-cases panic = inr (inr refl)

-- How the kernel is built: with debug assertions, or without.
pub data Profile : Type 0 where
  debug release : Profile

-- `debug_assert!`.
abbrev pub debug_assert : {E : Type 0} → Profile → Bool → Outcome E (Unit {0})
debug_assert debug test = assert test
debug_assert release test = done tt
