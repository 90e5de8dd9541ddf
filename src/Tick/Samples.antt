-- ===== src/Tick/Samples.antt =====
-- The samples of the calibration in kernel/src/arch/x86_64/tick.rs: their arithmetic.
use chick.Common.{ℕ, zero, suc, ◌+◌, ◌-◌, ◌*◌, ◌/◌, ◌^◌, ◌≤◌, ◌<◌, ◌≡◌, refl, ◌∙◌, ap, arith}
use native.Mathlib.Nat.{zero-add}
use chick.Common.Outcome.{done, Profile}
use chick.Common.Checked.{checked_add-done}
use chick.Tick.{cycles_of, sum_from}
use chick.Tick.Float.{to_f32, mul_f32, to_u32}
use chick.Tick.Float.Laws.{to_f32-close}

-- The cycles that the code finds in 10 ms, from those of the 50 ms of a sample.
abbrev pub cycles : ℕ → ℕ
cycles interval = to_u32 (mul_f32 (to_f32 (interval / 50)) 10)

to_u32-le : (x : ℕ) → to_u32 x ≤ x
unfolding to_u32
to_u32-le x = ground arith

pub cycles-small : (interval : ℕ) → interval ≤ 2 ^ 30 → cycles interval ≤ 2 ^ 28
unfolding mul_f32
cycles-small interval h =
    let c = interval / 50 in
    let (a, b) = to_f32-close c in
    let (d, e) = to_f32-close (to_f32 c * 10) in omega (arith, to_u32-le (to_f32 (to_f32 c * 10)))

pub cycles_of-cycles :
    (E : Type 0) (interval duration : ℕ)
    → duration ≡ 50
    → cycles_of {E = E} interval duration ≡ done (cycles interval)
unfolding cycles_of
cycles_of-cycles E interval duration fifty = rw fifty refl

-- The sum of `n` samples from index `i` on.
abbrev pub total : (ℕ → ℕ) → ℕ → ℕ → ℕ
total samples zero i = 0
total samples (suc n) i = samples i + total samples n (i + 1)

total-congr :
    (f g : ℕ → ℕ) (n i : ℕ) → ((j : ℕ) → j < i + n → f j ≡ g j) → total f n i ≡ total g n i
total-congr f g zero i same = refl
total-congr f g (suc n) i same =
    omega (arith, same i (omega arith), total-congr f g n (i + 1) (λ j lt. same j (omega arith)))

sum_from-total :
    (E : Type 0) (profile : Profile) (samples : ℕ → ℕ) (n i acc bound : ℕ)
    → ((j : ℕ) → j < i + n → samples j ≤ bound)
    → acc + n * bound < 2 ^ 32
    → sum_from {E = E} profile samples n i acc ≡ done (acc + total samples n i)
unfolding sum_from
sum_from-total E profile samples zero i acc bound small h = ground arith
sum_from-total E profile samples (suc n) i acc bound small h =
    let first = small i (omega arith) in
    rw (checked_add-done E profile 32 acc (samples i) (ground arith)) (
      sum_from-total E profile samples n (i + 1) (acc + samples i) bound
        (λ j lt. small j (omega arith)) (ground arith)
      ∙ ap done (omega arith))

pub sum_from-congr :
    (E : Type 0) (profile : Profile) (f g : ℕ → ℕ)
    → ((j : ℕ) → j < 10 → f j ≡ g j)
    → ((j : ℕ) → j < 10 → g j ≤ 2 ^ 28)
    → sum_from {E = E} profile f 10 0 0 ≡ done (total g 10 0)
sum_from-congr E profile f g same small =
    sum_from-total E profile f 10 0 0 (2 ^ 28) (λ j lt. rw (same j lt) (small j lt)) (omega arith)
    ∙ ap done (zero-add (total f 10 0) ∙ total-congr f g 10 0 same)

-- What the counter of the core shows at the start of each sample and, after it, at the end: the
-- reads of the code alternate between the two.
abbrev pub start : ℕ → (ℕ → ℕ) → ℕ → ℕ
start counter answers zero = counter
start counter answers (suc k) = answers (2 * k + 1)

-- The counter counts down, by at most 2 ^ 30 in a sample.
pub record IsCounting (counter : ℕ) (answers : ℕ → ℕ) : Type 0 where
  pub word : (k : ℕ) → start counter answers k < 2 ^ 32
  pub down : (k : ℕ) → answers (2 * k) ≤ start counter answers k
  pub slow : (k : ℕ) → start counter answers k ≤ answers (2 * k) + 2 ^ 30

-- The sample that tick `k` takes.
abbrev pub sample : ℕ → (ℕ → ℕ) → ℕ → ℕ
sample counter answers k = cycles (start counter answers k - answers (2 * k))
