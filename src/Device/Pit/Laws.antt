-- ===== src/Device/Pit/Laws.antt =====
-- What `Pit::new` writes, and what `Pit::read` gives back.
use chick.Common.{
  ℕ, zero, suc, ◌*◌, ◌/◌, ◌%◌, ◌^◌, ◌≤◌, ◌<◌, ◌≡◌, ◌↔◌, refl, ◌∙◌, ◌∷◌, arith, ◌==◌, if◌then◌else◌,
  leb, leb→le, bit_and, bit_or, Bool-cases, inl, inr,
}
use native.Mathlib.Nat.{le-div_iff_mul-le, div-lt_iff_lt-mul, mul-le-mul_left}
use chick.Common.Bits.{shl, shr, and-mask, or-disjoint}
use chick.Common.Outcome.{done, panic}
use chick.Device.{Bus, out8, write, read}
use chick.Device.Pit.{Pit, new, read_count, reload_value, frequency, frequence_hz}

frequency-pos : (millis : ℕ) → 0 < millis → frequency millis ≡ 1000 / millis
unfolding frequency
frequency-pos zero h = absurd (omega arith)
frequency-pos (suc m) h = refl

reload-bytes :
    (r low high : ℕ)
    → r < 2 ^ 16
    → low ≡ bit_and r 0xff % 2 ^ 8
    → high ≡ shr r 8 % 2 ^ 8
    → bit_or (shl high 8 % 2 ^ 16) low ≡ r
reload-bytes r low high h el eh =
    let l : low ≡ r % 2 ^ 8 = omega (arith, el, and-mask 8 r) in
    let s : shl high 8 % 2 ^ 16 ≡ high * 2 ^ 8 = ground arith in
    rw s (omega (arith, or-disjoint 8 high low (omega arith)))

reload-value :
    (E : Type 0) (millis : ℕ)
    → 0 < millis
    → reload_value {E = E} millis
      ≡ (if 1000 / millis == 0 then panic else done (frequence_hz / (1000 / millis) % 2 ^ 16))
unfolding reload_value
reload-value E millis h = rw (frequency-pos millis h) refl

quotient : (millis : ℕ) → 0 < millis → 1000 / millis * millis ≤ 1000
quotient millis h = omega arith

fits : (millis : ℕ) → 0 < millis → millis ≤ 52 → frequence_hz / (1000 / millis) < 2 ^ 16
fits millis pos small =
    let large : 19 ≤ 1000 / millis = (le-div_iff_mul-le pos).1 (omega arith) in
    (div-lt_iff_lt-mul (omega arith)).1 (omega (arith, mul-le-mul_left (2 ^ 16) large))

reload-frequency :
    (E : Type 0) (millis : ℕ)
    → 0 < millis
    → millis ≤ 1000
    → reload_value {E = E} millis ≡ done (frequence_hz / (1000 / millis) % 2 ^ 16)
reload-frequency E millis pos small =
    let large : 1 ≤ 1000 / millis = (le-div_iff_mul-le pos).1 (omega arith) in
    rw (reload-value E millis pos) (ground arith)

-- `Pit::new` panics exactly for more than 1000 milliseconds.
pub new-panic :
    (E : Type 0) (millis : ℕ) (bus : Bus) → (new {E = E} millis bus ≡ panic) ↔ (1000 < millis)
unfolding new reload_value frequency
new-panic E zero bus = ground arith
new-panic E (suc m) bus =
    let lt : (1000 / suc m < 1) ↔ (1000 < 1 * suc m) = div-lt_iff_lt-mul (omega arith) in
    ground (arith, lt)

-- The bus on which a device answers the next reads with two bytes.
abbrev pub answering : ℕ → ℕ → Bus → Bus
answering low high bus = record bus { answers = λ i. if i == 0 then low else high }

-- For 1 to 1000 milliseconds `Pit::new` writes the command byte and two bytes, low and high. If the
-- device answers with these bytes, `read` gives the frequency of the timer divided by that of the
-- interval, on 16 bits; up to 52 milliseconds nothing of it is lost.
pub read_count-new :
    (E : Type 0) (millis : ℕ) (bus after : Bus)
    → 0 < millis
    → millis ≤ 1000
    → (pit : Pit) × (low : ℕ) × (high : ℕ) × (new {E = E} millis bus
        ≡ done (
          pit,
          record bus { log = out8 0x40 high ∷ (out8 0x40 low ∷ (out8 0x43 0x30 ∷ bus.log)) },
        ))
      × ((read_count pit (answering low high after)).0 ≡ (
          if leb millis 52
          then frequence_hz / (1000 / millis)
          else frequence_hz / (1000 / millis) % 2 ^ 16))
unfolding new read_count write read
read_count-new E millis bus after pos small =
    let q = frequence_hz / (1000 / millis) in
    let r = q % 2 ^ 16 in
    let low = bit_and r 0xff % 2 ^ 8 in
    let high = shr r 8 % 2 ^ 8 in
    let same : bit_or (shl high 8 % 2 ^ 16) low ≡ r =
      reload-bytes r low high (omega arith) refl refl in
    let kept : r ≡ (if leb millis 52 then q else r) = elim (Bool-cases (leb millis 52)) [
      | inl h ↦ rw h (let lt = fits millis pos (leb→le millis 52 h) in omega arith)
      | inr h ↦ rw h refl
    ] in
    (
      record { command_port = 0x43; data_port = 0x40 },
      low,
      high,
      rw (reload-frequency E millis pos small) refl,
      same ∙ kept,
    )
