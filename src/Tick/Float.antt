-- ===== src/Tick/Float.antt =====
-- The f32 arithmetic of kernel/src/arch/x86_64/tick.rs. All its values are natural numbers: an f32
-- has 24 significant bits, and what does not fit is rounded to the nearest, and to the even one of
-- two.
pub mod Laws
use chick.Common.{ℕ, zero, suc, ◌+◌, ◌-◌, ◌*◌, ◌/◌, ◌%◌, ◌^◌, ltb, leb, ◌==◌, if◌then◌else◌}

-- The unit in the last place: the least power of two, from `u` on, of which the number has fewer
-- than 2 ^ 24. The fuel bounds the exponent.
unfoldable pub ulp : ℕ → ℕ → ℕ → ℕ
ulp zero u n = u
ulp (suc fuel) u n = let rest = ulp fuel (u * 2) n in if ltb n (2 ^ 24 * u) then u else rest

-- The multiple of `u` that is nearest.
unfoldable pub nearest : ℕ → ℕ → ℕ
nearest u n =
    let q = n / u in
    let r = n % u in
    if ltb (r * 2) u
    then q * u
    else if ltb u (r * 2)
    then (q + 1) * u
    else if q % 2 == 0
    then q * u
    else (q + 1) * u

-- `n as f32`, for a number below 2 ^ 64.
unfoldable pub to_f32 : ℕ → ℕ
unfolding ulp nearest
to_f32 n = nearest (ulp 40 1 n) n

-- The product of two numbers of f32 that are natural.
unfoldable pub mul_f32 : ℕ → ℕ → ℕ
unfolding to_f32
mul_f32 a b = to_f32 (a * b)

-- `x as u32`.
unfoldable pub to_u32 : ℕ → ℕ
to_u32 x = if leb (2 ^ 32) x then 2 ^ 32 - 1 else x
