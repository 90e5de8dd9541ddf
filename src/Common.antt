-- ===== src/Common.antt =====
-- Names that every module shares: the libraries' names passed on, Boolean tests on the native
-- numbers, outcomes of code that may fail or panic, 64-bit words and stores.
mod Tests
mod Digits
pub mod Bits
pub mod Chain
pub mod Checked
pub mod Outcome
pub mod Store
pub use Tests.*
pub use Prim.Native.Nat.{
  ℕ, zero, suc, ◌+◌, ◌-◌, ◌*◌, ◌/◌, ◌%◌, ◌^◌, ◌≤◌, ◌<◌, bit_and, bit_or, bit_xor,
}
pub use mathlib.Core.Path.{◌≡◌, refl, sym, ap, ◌∙◌}
pub use mathlib.Core.Logic.{◌≢◌, ◌↔◌, ◌⊎◌, inl, inr}
pub use mathlib.Core.Bool.{Bool, true, false, not, ◌&&◌, ◌||◌}
pub use mathlib.Core.Option.{Option, none, some}
pub use mathlib.Core.List.{List, [], ◌∷◌, ◌++◌}
pub use native.Mathlib.Omega.{arith}
pub use native.Mathlib.Nat.{one-le-pow, pow-suc, mod-lt}
