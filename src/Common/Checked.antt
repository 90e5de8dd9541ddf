-- ===== src/Common/Checked.antt =====
-- Sums and differences of words: they panic on overflow in a debug build and wrap in a release build.
use Prim.Native.Nat.{ℕ, ◌+◌, ◌-◌, ◌%◌, ◌^◌, ◌≤◌, ◌<◌}
use mathlib.Core.Path.{◌≡◌, ap}
use native.Mathlib.Nat.{mod-eq_of_lt}
use native.Mathlib.Omega.{arith}
use chick.Common.Tests.{ltb, leb, if◌then◌else◌}
use chick.Common.Outcome.{Outcome, done, panic, Profile, debug, release}

-- `a + b` on `w` bits.
unfoldable pub checked_add : {E : Type 0} → Profile → ℕ → ℕ → ℕ → Outcome E ℕ
checked_add debug w a b = if ltb (a + b) (2 ^ w) then done (a + b) else panic
checked_add release w a b = done ((a + b) % 2 ^ w)

-- `a - b` on `w` bits.
unfoldable pub checked_sub : {E : Type 0} → Profile → ℕ → ℕ → ℕ → Outcome E ℕ
checked_sub debug w a b = if leb b a then done (a - b) else panic
checked_sub release w a b = done ((a + 2 ^ w - b) % 2 ^ w)

pub checked_add-done :
    (E : Type 0) (profile : Profile) (w a b : ℕ)
    → a + b < 2 ^ w
    → checked_add {E = E} profile w a b ≡ done (a + b)
unfolding checked_add
checked_add-done E debug w a b h = ground arith
checked_add-done E release w a b h = ap done (mod-eq_of_lt h)

pub checked_sub-done :
    (E : Type 0) (profile : Profile) (a b : ℕ)
    → b ≤ a
    → a < 2 ^ 32
    → checked_sub {E = E} profile 32 a b ≡ done (a - b)
unfolding checked_sub
checked_sub-done E debug a b h lt = ground arith
checked_sub-done E release a b h lt = ap done (omega arith)
