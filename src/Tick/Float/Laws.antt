-- ===== src/Tick/Float/Laws.antt =====
-- How far the roundings of f32 in kernel/src/arch/x86_64/tick.rs are from the exact value.
use chick.Common.{
  ℕ, zero, suc, ◌+◌, ◌-◌, ◌*◌, ◌/◌, ◌%◌, ◌^◌, ◌≤◌, ◌<◌, ◌≡◌, ◌⊎◌, refl, sym, ◌∙◌, ap, arith, ltb,
  ◌==◌, Bool-cases, inl, inr, pow-suc,
}
use native.Mathlib.Nat.{div-add-mod', mod-lt, mul_assoc, div-lt_iff_lt-mul}
use chick.Tick.Float.{ulp, nearest, to_f32}

-- The unit is positive, and at most a 2 ^ 23-th of the number unless it is 1.
ulp-small :
    (fuel u n : ℕ)
    → 0 < u
    → (u ≡ 1) ⊎ (2 ^ 23 * u ≤ n)
    → (0 < ulp fuel u n) × ((ulp fuel u n ≡ 1) ⊎ (2 ^ 23 * ulp fuel u n ≤ n))
unfolding ulp
ulp-small zero u n pos h = (pos, h)
ulp-small (suc fuel) u n pos h = elim (Bool-cases (ltb n (2 ^ 24 * u))) [
  | inl lt ↦ rw lt (pos, h)
  | inr ge ↦ rw ge (ulp-small fuel (u * 2) n (omega arith) (inr (ground arith)))
]

-- With enough fuel the number has fewer than 2 ^ 24 units.
ulp-large : (fuel u n : ℕ) → n < 2 ^ 24 * (u * 2 ^ fuel) → n < 2 ^ 24 * ulp fuel u n
unfolding ulp
ulp-large zero u n h = omega arith
ulp-large (suc fuel) u n h = elim (Bool-cases (ltb n (2 ^ 24 * u))) [
  | inl lt ↦ rw lt (ground arith)
  | inr ge ↦ rw ge (
      ulp-large fuel (u * 2) n
        (omega (arith, ap (λ (t : ℕ). u * t) (pow-suc 2 fuel), mul_assoc u 2 (2 ^ fuel))))
]

nearest-close : (u n : ℕ) → 0 < u → (nearest u n * 2 ≤ n * 2 + u) × (n * 2 ≤ nearest u n * 2 + u)
unfolding nearest
nearest-close u n pos =
    let whole = div-add-mod' n u in
    let low = mod-lt n pos in (ground (arith, whole, low), ground (arith, whole, low))

nearest-one : (n : ℕ) → nearest 1 n ≡ n
unfolding nearest
nearest-one n = ground arith

-- Numbers below 2 ^ 24 are kept. A larger one changes by at most a 2 ^ 24-th of it.
pub to_f32-close :
    (n : ℕ) → (n * (2 ^ 24 - 1) ≤ to_f32 n * 2 ^ 24) × (to_f32 n * 2 ^ 24 ≤ n * (2 ^ 24 + 1))
unfolding to_f32
to_f32-close n =
    let (pos, small) = ulp-small 40 1 n (omega arith) (inl refl) in
    let (above, below) = nearest-close (ulp 40 1 n) n pos in
    elim small [
      | inl one ↦
          let same : nearest (ulp 40 1 n) n ≡ n = rw one (nearest-one n) in
          (omega arith, omega arith)
      | inr unit ↦ (omega arith, omega arith)
    ]

pub to_f32-exact : (n : ℕ) → n < 2 ^ 24 → to_f32 n ≡ n
unfolding to_f32 ulp
to_f32-exact n h = let one : ulp 40 1 n ≡ 1 = ground arith in rw one (nearest-one n)

ulp-pow : (fuel e n : ℕ) → (d : ℕ) × (ulp fuel (2 ^ e) n ≡ 2 ^ d)
unfolding ulp
ulp-pow zero e n = (e, refl)
ulp-pow (suc fuel) e n = elim (Bool-cases (ltb n (2 ^ 24 * 2 ^ e))) [
  | inl lt ↦ (e, rw lt refl)
  | inr ge ↦
      let (d, same) = ulp-pow fuel (suc e) n in
      (d, rw ge (ap (λ (t : ℕ). ulp fuel t n) (sym (pow-suc 2 e)) ∙ same))
]

nearest-multiple : (u n : ℕ) → (k : ℕ) × (nearest u n ≡ k * u) × (k ≤ n / u + 1)
unfolding nearest
nearest-multiple u n = elim (Bool-cases (ltb (n % u * 2) u)) [
  | inl a ↦ (n / u, ground arith, ground arith)
  | inr a ↦ elim (Bool-cases (ltb u (n % u * 2))) [
    | inl b ↦ (n / u + 1, ground arith, ground arith)
    | inr b ↦ elim (Bool-cases (n / u % 2 == 0)) [
      | inl c ↦ (n / u, ground arith, ground arith)
      | inr c ↦ (n / u + 1, ground arith, ground arith)
    ]
  ]
]

-- A u64 gives a number of 24 significant bits.
pub to_f32-significant :
    (n : ℕ) → n < 2 ^ 64 → (k : ℕ) × (e : ℕ) × (to_f32 n ≡ k * 2 ^ e) × (k ≤ 2 ^ 24)
unfolding to_f32
to_f32-significant n h =
    let (pos, small) = ulp-small 40 1 n (omega arith) (inl refl) in
    let (e, unit) = ulp-pow 40 0 n in
    let (k, multiple, few) = nearest-multiple (ulp 40 1 n) n in
    let quotient : n / ulp 40 1 n < 2 ^ 24 =
      (div-lt_iff_lt-mul pos).1 (ulp-large 40 1 n (omega arith)) in
    (k, e, multiple ∙ ap (λ (t : ℕ). k * t) unit, omega arith)
