-- ===== src/Tick.antt =====
-- kernel/src/arch/x86_64/tick.rs: the source of ticks, and the calibration of the timer of a core.
-- What CPUID gives is an argument, and so is the build, since the code computes on u32.
pub mod Calibration
pub mod Samples
pub mod Float
use chick.Common.{
  ℕ, zero, suc, ◌+◌, ◌-◌, ◌*◌, ◌/◌, ◌%◌, ◌^◌, Bool, true, false, Option, none, some, ltb, leb,
  if◌then◌else◌, ◌==◌,
}
use chick.Common.Bits.{shl}
use chick.Common.Store.{update}
use chick.Common.Outcome.{Outcome, done, err, panic, expect, Profile, ◌>>=◌}
use chick.Device.{Bus}
use chick.Common.Checked.{checked_add, checked_sub}
use chick.Device.Apic
use chick.Device.Apic.{Apic, ioapic_write, init_counter, read_counter}
use chick.Device.Pit
use chick.Device.Pit.{interrupt_on_terminal_count}
use chick.Percore
use chick.Percore.{PerCore, Undefined}
use chick.Scheduler
use chick.Scheduler.{HeapOps, Executor, Machine, Exit, returned, restored, halted, panicked}
use chick.Sync
use chick.Sync.{OnceLock}
use chick.Tick.Float.{to_f32, mul_f32, to_u32}
use chick.Thread.{Tcbs, SchedContext}

abbrev pub calibration_samples : ℕ
calibration_samples = 10

unfoldable pub set_ioapic_pit_interrupt : Apic → Bus → Bus
unfolding ioapic_write
set_ioapic_pit_interrupt apic bus =
    let gsi : ℕ = 2 in
    let vector : ℕ = 0x20 in
    let dest_apic_id : ℕ = 0 in
    let low_index = 0x10 + gsi * 2 in
    let high_index = low_index + 1 in
    let bus1 = ioapic_write high_index (shl dest_apic_id 24 % 2 ^ 32) apic bus in
    ioapic_write low_index vector apic bus1

-- `duration` is in milliseconds.
pub record Tick : Type 0 where
  pub apic : Apic
  pub is_calibration : Bool
  pub ticks : ℕ
  pub duration : ℕ
  pub lapic_counter : ℕ
  pub calibration : ℕ → ℕ
  pub calibration_idx : ℕ

abbrev pub new : Tick
new = record {
  apic = Apic.new;
  is_calibration = true;
  ticks = 0;
  duration = 50;
  lapic_counter = 0;
  calibration = λ i. 0;
  calibration_idx = 0;
}

unfoldable pub init_counters : {E : Type 0} → Tick → Bus → Outcome E (Tick × Bus)
unfolding Pit.new Pit.set_mode init_counter read_counter
init_counters t bus = do
  (pit, bus1) ← Pit.new t.duration bus
  let bus2 = Pit.set_mode interrupt_on_terminal_count pit bus1
  let bus3 = init_counter false (2 ^ 32 - 1) t.apic bus2
  let (counter, bus4) = read_counter t.apic bus3
  done (record t { lapic_counter = counter }, bus4)

unfoldable pub calibrate : {E : Type 0} → Apic → Tick → Bus → Outcome E (Tick × Bus)
unfolding set_ioapic_pit_interrupt init_counters
calibrate apic t bus =
    let t1 : Tick = record t { is_calibration = true; apic = apic; calibration_idx = 0 } in
    init_counters t1 (set_ioapic_pit_interrupt t1.apic bus)

-- `1.0 / DEFAULT_TICKS_HZ * 1000.0`, which f32 rounds to 10.
abbrev pub hz_to_millis : ℕ
hz_to_millis = 10

-- An integer division by zero panics.
unfoldable pub cycles_of : {E : Type 0} → ℕ → ℕ → Outcome E ℕ
unfolding to_f32 mul_f32 to_u32
cycles_of interval duration =
    let millis = duration % 2 ^ 32 in
    if millis == 0
    then panic
    else let cycles_per_ms = interval / millis in
      done (to_u32 (mul_f32 (to_f32 cycles_per_ms) hz_to_millis))

-- The sum of `n` samples from index `i` on, added to `acc`.
unfoldable pub sum_from : {E : Type 0} → Profile → (ℕ → ℕ) → ℕ → ℕ → ℕ → Outcome E ℕ
unfolding checked_add
sum_from profile samples zero i acc = done acc
sum_from profile samples (suc n) i acc = do
  acc' ← checked_add profile 32 acc (samples i)
  sum_from profile samples n (i + 1) acc'

-- The end of `end_calibration`: after the last sample start the timer, before that the next one.
unfoldable pub finish_calibration : {E : Type 0} → Profile → Tick → Bus → Outcome E (Tick × Bus)
unfolding sum_from init_counter init_counters
finish_calibration profile t bus =
    if leb calibration_samples t.calibration_idx
    then (sum_from profile t.calibration calibration_samples 0 0 >>= λ sum.
        let cycles_mean = sum / calibration_samples in
        done (record t { is_calibration = false }, init_counter true cycles_mean t.apic bus))
    else init_counters t bus

unfoldable pub end_calibration : {E : Type 0} → Profile → Tick → Bus → Outcome E (Tick × Bus)
unfolding read_counter checked_sub cycles_of finish_calibration
end_calibration profile t bus = do
  let (end, bus1) = read_counter t.apic bus
  interval ← checked_sub profile 32 t.lapic_counter end
  cycles ← cycles_of interval t.duration
  let t1 : Tick =
      if ltb t.calibration_idx calibration_samples
      then record t {
        calibration = update t.calibration t.calibration_idx cycles;
        calibration_idx = t.calibration_idx + 1;
      }
      else t
  finish_calibration profile t1 bus1

-- What a tick reaches beside itself: the bus, the executors in the cell `SCHEDULER`, and the threads
-- and scheduling contexts.
pub record Kernel (Q : Type 0) : Type 0 where
  pub bus : Bus
  pub scheduler : OnceLock (PerCore (Executor Q))
  pub tcbs : Tcbs
  pub contexts : ℕ → SchedContext

-- How the code leaves: it returns, or it goes into a thread or into the halt loop.
pub data Leave (K : Type 0) : Type 0 where
  returns : K → Leave K
  runs : K → (tcb : ℕ) → Leave K
  halts : K → Leave K

module _ {Q : Type 0} where
  -- The executor of the core, once it is set up.
  unfoldable pub this_executor :
      ℕ → Kernel Q → Outcome Undefined (PerCore (Executor Q) × Executor Q)
  unfolding Sync.get Percore.get
  this_executor ebx k = do
    cores ← expect (Sync.get k.scheduler)
    exec ← Percore.get ebx cores
    done (cores, exec)

  -- The state with what the executor of the core has made of it.
  unfoldable pub put_back : ℕ → PerCore (Executor Q) → Kernel Q → Machine Q → Kernel Q
  unfolding Percore.cpuid
  put_back ebx cores k m = record k {
    scheduler = record (k.scheduler) {
      value = some (record cores { cores = update cores.cores (Percore.cpuid ebx) (some m.exec) });
    };
    tcbs = m.tcbs;
    contexts = m.contexts;
  }

  unfoldable pub leave :
      ℕ → PerCore (Executor Q) → Kernel Q → Exit Q → Outcome Undefined (Leave (Kernel Q))
  unfolding put_back
  leave ebx cores k (returned m) = done (returns (put_back ebx cores k m))
  leave ebx cores k (restored m t) = done (runs (put_back ebx cores k m) t)
  leave ebx cores k (halted m) = done (halts (put_back ebx cores k m))
  leave ebx cores k panicked = panic

  -- A call of a method of the core's executor.
  unfoldable pub call_executor :
      ℕ → (Machine Q → Exit Q) → Kernel Q → Outcome Undefined (Leave (Kernel Q))
  unfolding this_executor leave
  call_executor ebx method k = do
    (cores, exec) ← this_executor ebx k
    leave ebx cores k (method (record { tcbs = k.tcbs; contexts = k.contexts; exec = exec }))

  unfoldable pub tick_handler :
      HeapOps Q → Profile → ℕ → Tick → Kernel Q → Outcome Undefined (Tick × Leave (Kernel Q))
  unfolding end_calibration checked_add call_executor Scheduler.preempt
  tick_handler ops profile ebx t k =
      if t.is_calibration
      then (end_calibration profile t k.bus >>= λ (t1, bus).
          done (t1, returns (record k { bus = bus })))
      else (checked_add profile 64 t.ticks 1 >>= λ ticks.
          call_executor ebx (Scheduler.preempt ops profile) k >>= λ exit.
          done (record t { ticks = ticks }, exit))
