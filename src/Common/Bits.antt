-- ===== src/Common/Bits.antt =====
-- Bit fields of words: how `&`, `|`, `<<` and `>>` act on a field of `w` bits at an offset.
use Prim.Native.Nat.{
  ℕ, zero, suc, ◌+◌, ◌-◌, ◌*◌, ◌/◌, ◌%◌, ◌^◌, ◌≤◌, ◌<◌, bit_and, bit_or, bit_or-bitwise,
  bit_and-bitwise,
}
use mathlib.Core.Path.{◌≡◌, refl, ap, ◌∙◌}
use native.Mathlib.Nat.{one-le-pow, pow-suc, div-div-eq-div-mul, div-eq_of_lt, mod-mod}
use native.Mathlib.Omega.{arith}
use chick.Common.Digits.{or_digit, and_digit}

-- `usize` and `u64` have 64 bits; `<<` drops what leaves them.
abbrev pub word : ℕ
word = 2 ^ 64

abbrev pub shl : ℕ → ℕ → ℕ
shl x k = x * 2 ^ k % 2 ^ 64

abbrev pub shr : ℕ → ℕ → ℕ
shr x k = x / 2 ^ k

-- `!x` on 64 bits.
abbrev pub lnot : ℕ → ℕ
lnot x = 2 ^ 64 - 1 - x

-- `mask!(k)`.
abbrev pub mask : ℕ → ℕ
mask k = 2 ^ k - 1

-- The field of `w` bits at offset `k`.
abbrev pub field : ℕ → ℕ → ℕ → ℕ
field k w x = x / 2 ^ k % 2 ^ w

pub or_zero_fuel : (n a : ℕ) → a ≤ n → bit_or a 0 ≡ a
or_zero_fuel n zero h = refl
or_zero_fuel zero (suc a) h = absurd (omega arith)
or_zero_fuel (suc n) (suc a) h =
    omega (arith, or_digit (suc a) 0, or_zero_fuel n (suc a / 2) (omega arith))

pub or-zero : (a : ℕ) → bit_or a 0 ≡ a
or-zero a = or_zero_fuel a a (omega arith)

pub zero-or : (a : ℕ) → bit_or 0 a ≡ a
zero-or a = bit_or-bitwise 0 a

and_zero_fuel : (n a : ℕ) → a ≤ n → bit_and a 0 ≡ 0
and_zero_fuel n zero h = refl
and_zero_fuel zero (suc a) h = absurd (omega arith)
and_zero_fuel (suc n) (suc a) h =
    omega (arith, and_digit (suc a) 0, and_zero_fuel n (suc a / 2) (omega arith))

pub and-zero : (a : ℕ) → bit_and a 0 ≡ 0
and-zero a = and_zero_fuel a a (omega arith)

pub zero-and : (a : ℕ) → bit_and 0 a ≡ 0
zero-and a = bit_and-bitwise 0 a

-- `x / 2 ^ suc k` and `x % 2 ^ suc k`, digit by digit.
div-pow-suc : (a k : ℕ) → a / 2 ^ suc k ≡ a / 2 / 2 ^ k
div-pow-suc a k =
    rw (div-div-eq-div-mul a 2 (2 ^ k)) (ap (λ (t : ℕ). a / t) (omega (arith, pow-suc 2 k)))

mod-pow-suc : (a k : ℕ) → a % 2 ^ suc k ≡ a / 2 % 2 ^ k * 2 + a % 2
mod-pow-suc a k = ground (
  arith,
  div-pow-suc a k,
  pow-suc 2 k,
  ap (λ (t : ℕ). t * (a / 2 / 2 ^ k)) (pow-suc 2 k),
  one-le-pow k 2,
)

and-half : (a b : ℕ) → bit_and a b / 2 ≡ bit_and (a / 2) (b / 2)
and-half a b = omega (arith, and_digit a b)

or-half : (a b : ℕ) → bit_or a b / 2 ≡ bit_or (a / 2) (b / 2)
or-half a b = omega (arith, or_digit a b)

-- `(a & b) >> k` is `(a >> k) & (b >> k)`, and so for `|`.
pub and-shr : (k a b : ℕ) → bit_and a b / 2 ^ k ≡ bit_and (a / 2 ^ k) (b / 2 ^ k)
and-shr zero a b = ground arith
and-shr (suc k) a b =
    rw (div-pow-suc (bit_and a b) k, div-pow-suc a k, div-pow-suc b k, and-half a b)
      (and-shr k (a / 2) (b / 2))

pub or-shr : (k a b : ℕ) → bit_or a b / 2 ^ k ≡ bit_or (a / 2 ^ k) (b / 2 ^ k)
or-shr zero a b = ground arith
or-shr (suc k) a b =
    rw (div-pow-suc (bit_or a b) k, div-pow-suc a k, div-pow-suc b k, or-half a b)
      (or-shr k (a / 2) (b / 2))

-- The low bits of `a & b` and of `a | b`.
pub and-low : (k a b : ℕ) → bit_and a b % 2 ^ k ≡ bit_and (a % 2 ^ k) (b % 2 ^ k)
and-low zero a b = ground arith
and-low (suc k) a b = ground (
  arith,
  mod-pow-suc (bit_and a b) k,
  mod-pow-suc a k,
  mod-pow-suc b k,
  and-half a b,
  and_digit a b,
  and-low k (a / 2) (b / 2),
  and_digit (a % 2 ^ suc k) (b % 2 ^ suc k),
)

pub or-low : (k a b : ℕ) → bit_or a b % 2 ^ k ≡ bit_or (a % 2 ^ k) (b % 2 ^ k)
or-low zero a b = ground arith
or-low (suc k) a b = ground (
  arith,
  mod-pow-suc (bit_or a b) k,
  mod-pow-suc a k,
  mod-pow-suc b k,
  or-half a b,
  or_digit a b,
  or-low k (a / 2) (b / 2),
  or_digit (a % 2 ^ suc k) (b % 2 ^ suc k),
)

-- A mask of `k` ones keeps the low `k` bits.
pub and-mask : (k a : ℕ) → bit_and a (mask k) ≡ a % 2 ^ k
and-mask zero a = ground (arith, and-zero a)
and-mask (suc k) a = ground (
  arith,
  and_digit a (mask (suc k)),
  mod-pow-suc a k,
  pow-suc 2 k,
  one-le-pow k 2,
  and-mask k (a / 2),
)

-- `(q << k) | r` is a sum when `r` fits `k` bits.
pub or-disjoint : (k q r : ℕ) → r < 2 ^ k → bit_or (q * 2 ^ k) r ≡ q * 2 ^ k + r
or-disjoint zero q r h = ground (arith, or-zero q)
or-disjoint (suc k) q r h = ground (
  arith,
  or_digit (q * 2 ^ suc k) r,
  pow-suc 2 k,
  ap (λ (t : ℕ). q * t) (pow-suc 2 k),
  or-disjoint k q (r / 2) (omega (arith, pow-suc 2 k)),
)

-- The field of a conjunction and of a disjunction.
pub field-and : (k w a b : ℕ) → field k w (bit_and a b) ≡ bit_and (field k w a) (field k w b)
field-and k w a b = rw (and-shr k a b) (and-low w (a / 2 ^ k) (b / 2 ^ k))

pub field-or : (k w a b : ℕ) → field k w (bit_or a b) ≡ bit_or (field k w a) (field k w b)
field-or k w a b = rw (or-shr k a b) (or-low w (a / 2 ^ k) (b / 2 ^ k))

-- `a & b` is below any power of two that `b` is below.
pub and-lt : (k a b : ℕ) → b < 2 ^ k → bit_and a b < 2 ^ k
and-lt k a b h =
    let high : bit_and a b / 2 ^ k ≡ 0 =
      rw (and-shr k a b, div-eq_of_lt h) (and-zero (a / 2 ^ k)) in
    grind (arith, one-le-pow k 2)

-- `(x & !(mask!(w) << k)) | (v << k)`: the field is set, and every field outside it is kept.
module _ (x v k w : ℕ) where
  abbrev pub put : ℕ
  put = bit_or (bit_and x (lnot (shl (mask w) k))) (shl v k)

  pub put_self : field k w (lnot (shl (mask w) k)) ≡ 0 → field k w (shl v k) ≡ v → field k w put ≡ v
  put_self h e =
      rw
        (
          field-or k w (bit_and x (lnot (shl (mask w) k))) (shl v k),
          field-and k w x (lnot (shl (mask w) k)),
          h,
          and-zero,
        )
        (zero-or (field k w (shl v k)) ∙ e)

  pub put_other :
      (j u : ℕ)
      → field j u (lnot (shl (mask w) k)) ≡ mask u
      → field j u (shl v k) ≡ 0
      → field j u put ≡ field j u x
  put_other j u h e =
      rw
        (
          field-or j u (bit_and x (lnot (shl (mask w) k))) (shl v k),
          field-and j u x (lnot (shl (mask w) k)),
          h,
          e,
          or-zero,
          and-mask u (field j u x),
        )
        (mod-mod (x / 2 ^ j) (2 ^ u))

-- Clearing bits outside a field keeps the field.
pub field-and-keep : (k w x c : ℕ) → field k w c ≡ mask w → field k w (bit_and x c) ≡ field k w x
field-and-keep k w x c h =
    rw (field-and k w x c, h, and-mask w (field k w x)) (mod-mod (x / 2 ^ k) (2 ^ w))

pub or-one : (b : ℕ) → b < 2 → bit_or b 1 ≡ 1
or-one zero h = refl
or-one (suc zero) h = refl
or-one (suc (suc b)) h = absurd (omega arith)
