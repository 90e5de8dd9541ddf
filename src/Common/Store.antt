-- ===== src/Common/Store.antt =====
-- A store maps addresses to values; a pointer is an address. Code that follows a pointer may do
-- so at any address: that the pointers are valid is what its `unsafe` callers promise.
use Prim.Native.Nat.{ℕ}
use mathlib.Core.Option.{Option, none, some}
use mathlib.Core.Path.{◌≡◌}
use mathlib.Core.Logic.{◌≢◌, ◌⊎◌}
use native.Mathlib.Omega.{arith}
use chick.Common.Tests.{◌==◌, if◌then◌else◌}

abbrev pub update {ℓ} : {A : Type ℓ} → (ℕ → A) → ℕ → A → ℕ → A
update f p v q = if p == q then v else f q

-- A change of the value that a pointer leads to, if it leads to one.
abbrev pub modify_some {ℓ} : {A : Type ℓ} → Option ℕ → (A → A) → (ℕ → A) → ℕ → A
modify_some none f mem = mem
modify_some (some p) f mem = update mem p (f (mem p))

pub update_self {ℓ} : {A : Type ℓ} (f : ℕ → A) (p : ℕ) (v : A) → update f p v p ≡ v
update_self f p v = ground arith

pub update_ne {ℓ} : {A : Type ℓ} (f : ℕ → A) (p q : ℕ) (v : A) → p ≢ q → update f p v q ≡ f q
update_ne f p q v h = ground arith

-- A read of a two-level store beside the place written.
pub update₂_ne {ℓ} :
    {A : Type ℓ} (f : ℕ → ℕ → A) (p q i j : ℕ) (v : A)
    → (q ≢ p) ⊎ (j ≢ i)
    → update f p (update (f p) i v) q j ≡ f q j
update₂_ne f p q i j v h = ground arith
