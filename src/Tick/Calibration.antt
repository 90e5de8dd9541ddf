-- ===== src/Tick/Calibration.antt =====
-- The calibration of kernel/src/arch/x86_64/tick.rs: how many ticks it takes, and what it finds.
use chick.Common.{
  ℕ, suc, ◌+◌, ◌-◌, ◌*◌, ◌/◌, ◌^◌, ◌≤◌, ◌<◌, ◌≡◌, refl, ◌∙◌, arith, true, false, List, ◌∷◌, leb,
  ◌==◌, lt→ltb, Bool-cases, inl, inr,
}
use chick.Common.Store.{update}
use chick.Common.Outcome.{done, Profile}
use chick.Device.{Bus, Access, store32, load32, out8}
use chick.Common.Checked.{checked_sub-done}
use chick.Device
use chick.Device.Apic
use chick.Device.Apic.{Apic}
use chick.Device.Pit
use chick.Tick.{
  Tick, calibration_samples, init_counters, sum_from, finish_calibration, end_calibration,
}
use chick.Tick.Samples.{
  cycles, cycles-small, cycles_of-cycles, total, sum_from-congr, start, IsCounting, sample,
}

-- After `k` ticks of a calibration that started with `counter`, on a bus with `answers`.
pub record Calibrating (apic : Apic) (counter : ℕ) (answers : ℕ → ℕ) (k : ℕ) (t : Tick) (bus : Bus)
    : Type 0 where
  pub controller : t.apic ≡ apic
  pub active : t.is_calibration ≡ true
  pub index : t.calibration_idx ≡ k
  pub unticked : t.ticks ≡ 0
  pub duration : t.duration ≡ 50
  pub lapic_counter : t.lapic_counter ≡ start counter answers k
  pub filled : (j : ℕ) → j < k → t.calibration j ≡ sample counter answers j
  pub rest : (i : ℕ) → bus.answers i ≡ answers (2 * k + i)

-- The accesses that start a sample, on those before.
abbrev pub armed : ℕ → List Access → List Access
armed lapic log =
    load32 (lapic + 0x390)
    ∷ (store32 (lapic + 0x380) (2 ^ 32 - 1)
        ∷ (store32 (lapic + 0x3e0) 1
            ∷ (store32 (lapic + 0x320) 0x20
                ∷ (out8 0x43 0 ∷ (out8 0x40 0xe9 ∷ (out8 0x40 0x0b ∷ (out8 0x43 0x30 ∷ log)))))))

pub init_counters-done :
    (E : Type 0) (t : Tick) (bus : Bus)
    → t.duration ≡ 50
    → init_counters {E = E} t bus
      ≡ done (
        record t { lapic_counter = bus.answers 0 },
        record { log = armed t.apic.lapic_addr bus.log; answers = λ i. bus.answers (i + 1) },
      )
unfolding init_counters Pit.new Pit.reload_value Pit.frequency Pit.set_mode Pit.mode_byte
    Apic.init_counter Apic.read_counter Device.write Device.read Apic.offset Apic.register
    Apic.value Apic.flag
init_counters-done E t bus h = rw h refl

abbrev sampled : Tick → Bus → Tick
sampled t bus = record t {
  calibration = update t.calibration t.calibration_idx (cycles (t.lapic_counter - bus.answers 0));
  calibration_idx = t.calibration_idx + 1;
}

abbrev after_read : Tick → Bus → Bus
after_read t bus = record {
  log = load32 (t.apic.lapic_addr + 0x390) ∷ bus.log;
  answers = λ i. bus.answers (i + 1);
}

end_calibration-finish :
    (E : Type 0) (profile : Profile) (t : Tick) (bus : Bus)
    → t.duration ≡ 50
    → t.calibration_idx < 10
    → bus.answers 0 ≤ t.lapic_counter
    → t.lapic_counter < 2 ^ 32
    → end_calibration {E = E} profile t bus
      ≡ finish_calibration profile (sampled t bus) (after_read t bus)
unfolding end_calibration Apic.read_counter Device.read Apic.offset Apic.register
end_calibration-finish E profile t bus fifty idx below word =
    rw
      (
        checked_sub-done E profile t.lapic_counter (bus.answers 0) below word,
        cycles_of-cycles E (t.lapic_counter - bus.answers 0) t.duration fifty,
        lt→ltb t.calibration_idx 10 idx,
      )
      refl

-- The accesses that start the timer of the core, on those before.
abbrev pub started : ℕ → ℕ → List Access → List Access
started lapic ticks log =
    store32 (lapic + 0x380) ticks
    ∷ (store32 (lapic + 0x3e0) 1 ∷ (store32 (lapic + 0x320) 0x20020 ∷ log))

finish_calibration-last :
    (E : Type 0) (profile : Profile) (t : Tick) (bus : Bus) (sum : ℕ)
    → leb calibration_samples t.calibration_idx ≡ true
    → sum_from {E = E} profile t.calibration 10 0 0 ≡ done sum
    → finish_calibration {E = E} profile t bus
      ≡ done (
        record t { is_calibration = false },
        record bus { log = started t.apic.lapic_addr (sum / 10) bus.log },
      )
unfolding finish_calibration Apic.init_counter Device.write Apic.offset Apic.register Apic.value
    Apic.flag
finish_calibration-last E profile t bus sum last e = rw (last, e) refl

module _ {apic : Apic} {counter : ℕ} {answers : ℕ → ℕ} (counting : IsCounting counter answers) where
  sampled-filled :
      (k : ℕ) (t : Tick) (bus : Bus)
      → Calibrating apic counter answers k t bus
      → (j : ℕ) → j < suc k
      → (sampled t bus).calibration j ≡ sample counter answers j
  sampled-filled k t bus c j lt = elim (Bool-cases (k == j)) [
    | inl e ↦ ground (arith, c.index, c.filled j, c.rest 0, c.lapic_counter)
    | inr e ↦ ground (arith, c.index, c.filled j, c.rest 0, c.lapic_counter)
  ]

  read_start :
      (E : Type 0) (profile : Profile) (k : ℕ) (t : Tick) (bus : Bus)
      → Calibrating apic counter answers k t bus
      → k < 10
      → end_calibration {E = E} profile t bus
        ≡ finish_calibration profile (sampled t bus) (after_read t bus)
  read_start E profile k t bus c lt =
      let first : bus.answers 0 ≡ answers (2 * k) = ground (arith, c.rest 0) in
      end_calibration-finish E profile t bus c.duration (omega (arith, c.index))
        (omega (arith, first, c.lapic_counter, counting.down k))
        (omega (arith, c.lapic_counter, counting.word k))

  -- A tick before the last takes a sample and starts the next.
  pub sample_step :
      (E : Type 0) (profile : Profile) (k : ℕ) (t : Tick) (bus : Bus)
      → Calibrating apic counter answers k t bus
      → k < 9
      → (t' : Tick) × (bus' : Bus) × (end_calibration {E = E} profile t bus ≡ done (t', bus'))
        × Calibrating apic counter answers (suc k) t' bus'
  unfolding finish_calibration
  sample_step E profile k t bus c lt =
      let t' : Tick = record (sampled t bus) { lapic_counter = bus.answers 1 } in
      let bus' : Bus = record {
        log = armed t.apic.lapic_addr (after_read t bus).log;
        answers = λ i. bus.answers (i + 1 + 1);
      } in
      let more : leb calibration_samples (t.calibration_idx + 1) ≡ false =
        ground (arith, c.index) in
      (
        t',
        bus',
        read_start E profile k t bus c (omega arith)
            ∙ (rw more (init_counters-done E (sampled t bus) (after_read t bus) c.duration)),
        record {
          controller = c.controller;
          active = c.active;
          index = omega (arith, c.index);
          unticked = c.unticked;
          duration = c.duration;
          lapic_counter = ground (arith, c.rest 1);
          filled = sampled-filled k t bus c;
          rest = λ i. ground (arith, c.rest (i + 1 + 1));
        },
      )

  -- The last tick starts the timer with the mean of the samples.
  pub last_step :
      (E : Type 0) (profile : Profile) (t : Tick) (bus : Bus)
      → Calibrating apic counter answers 9 t bus
      → (t' : Tick) × (bus' : Bus) × (log : List Access) × (end_calibration {E = E} profile t bus
          ≡ done (t', bus'))
        × (t'.is_calibration ≡ false)
        × (t'.ticks ≡ 0)
        × (bus'.log ≡ started apic.lapic_addr (total (sample counter answers) 10 0 / 10) log)
  last_step E profile t bus c =
      let t' = sampled t bus in
      let read = after_read t bus in
      let mean = total (sample counter answers) 10 0 / 10 in
      let last : leb calibration_samples (t.calibration_idx + 1) ≡ true = ground (arith, c.index) in
      let sum =
        sum_from-congr E profile t'.calibration (sample counter answers) (sampled-filled 9 t bus c)
          (λ j lt.
            cycles-small (start counter answers j - answers (2 * j))
              (omega (arith, counting.slow j))) in
      (
        record t' { is_calibration = false },
        record read { log = started t.apic.lapic_addr mean read.log },
        read.log,
        read_start E profile 9 t bus c (omega arith)
            ∙ finish_calibration-last E profile t' read (total (sample counter answers) 10 0) last
                sum,
        refl,
        c.unticked,
        rw (c.controller) refl,
      )
