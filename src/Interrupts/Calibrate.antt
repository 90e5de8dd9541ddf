-- ===== src/Interrupts/Calibrate.antt =====
-- The start of the kernel and the interrupts after it: the calibration is over after ten of them.
use chick.Common.{ℕ, zero, suc, ◌+◌, ◌/◌, ◌≤◌, ◌<◌, ◌≡◌, refl, true, false, List, ◌∷◌, arith}
use chick.Common.Outcome.{done, Profile}
use chick.Device
use chick.Device.{Bus, Access, store32}
use chick.Device.Apic
use chick.Device.Apic.{Apic}
use chick.Interrupts.{
  Statics, leaves, lock, unlocked, acknowledge, after_tick, timer_handler, timers,
}
use chick.Percore.{Undefined}
use chick.Scheduler.{HeapOps}
use chick.Tick.{Tick, Kernel, returns, tick_handler, end_calibration}
use chick.Tick.Calibration.{Calibrating, started, sample_step, last_step}
use chick.Tick.Samples.{IsCounting, sample, total}

-- What the interrupts of a calibration leave alone.
pub record SameKernel {Q : Type 0} (k k' : Kernel Q) : Type 0 where
  pub scheduler : k'.scheduler ≡ k.scheduler
  pub tcbs : k'.tcbs ≡ k.tcbs
  pub contexts : k'.contexts ≡ k.contexts

-- After `k` interrupts of a calibration that started in the state `first`.
pub record Waiting {Q : Type 0} (counter : ℕ) (answers : ℕ → ℕ) (first : Statics Q) (k : ℕ)
    (s : Statics Q) : Type 0 where
  pub free : s.ticks.locked ≡ false
  pub same_apic : s.apic ≡ first.apic
  pub free_apic : s.apic.locked ≡ false
  pub same_kernel : SameKernel first.kernel s.kernel
  pub calibrating : Calibrating first.apic.inner counter answers k s.ticks.inner s.kernel.bus

-- What the calibration leaves: the locks are free, and the last accesses start the timer of the core
-- with `mean`, to repeat, and then end the interrupt.
pub record Calibrated {Q : Type 0} (mean : ℕ) (first s : Statics Q) : Type 0 where
  pub free : s.ticks.locked ≡ false
  pub same_apic : s.apic ≡ first.apic
  pub free_apic : s.apic.locked ≡ false
  pub same_kernel : SameKernel first.kernel s.kernel
  pub over : s.ticks.inner.is_calibration ≡ false
  pub unticked : s.ticks.inner.ticks ≡ 0
  pub before : List Access
  pub log :
      s.kernel.bus.log
      ≡ store32 (first.apic.inner.lapic_addr + 0xb0) 0
        ∷ started first.apic.inner.lapic_addr mean before

module _ {Q : Type 0} (ops : HeapOps Q) (profile : Profile) (ebx : ℕ) where
  timer_handler-calibration :
      (s : Statics Q) (t : Tick) (bus : Bus)
      → s.ticks.locked ≡ false
      → s.apic.locked ≡ false
      → s.ticks.inner.is_calibration ≡ true
      → end_calibration {E = Undefined} profile s.ticks.inner s.kernel.bus ≡ done (t, bus)
      → timer_handler ops profile ebx s
        ≡ done (
            leaves (
              returns (record {
                ticks = unlocked t;
                apic = s.apic;
                kernel = record (s.kernel) { bus = Apic.end_interrupt s.apic.inner bus };
              })))
  unfolding timer_handler lock tick_handler after_tick acknowledge
  timer_handler-calibration s t bus free free_apic active e = rw (free, e, active, free_apic) refl

  module _ {counter : ℕ} {answers : ℕ → ℕ} (counting : IsCounting counter answers) where
    timer_handler-Waiting :
        (first : Statics Q) (k : ℕ) (s : Statics Q)
        → Waiting counter answers first k s
        → k < 9
        → (s' : Statics Q) × (timer_handler ops profile ebx s ≡ done (leaves (returns s')))
          × Waiting counter answers first (suc k) s'
    unfolding Apic.end_interrupt Device.write
    timer_handler-Waiting first k s w lt =
        let (t, bus, e, c) =
          sample_step counting Undefined profile k s.ticks.inner s.kernel.bus w.calibrating lt in
        (
          _,
          timer_handler-calibration s t bus w.free w.free_apic w.calibrating.active e,
          record {
            free = refl;
            same_apic = w.same_apic;
            free_apic = w.free_apic;
            same_kernel = record {
              scheduler = w.same_kernel.scheduler;
              tcbs = w.same_kernel.tcbs;
              contexts = w.same_kernel.contexts;
            };
            calibrating = record {
              controller = c.controller;
              active = c.active;
              index = c.index;
              unticked = c.unticked;
              duration = c.duration;
              lapic_counter = c.lapic_counter;
              filled = c.filled;
              rest = c.rest;
            };
          },
        )

    pub timer_handler-Calibrated :
        (first s : Statics Q)
        → Waiting counter answers first 9 s
        → (s' : Statics Q) × (timer_handler ops profile ebx s ≡ done (leaves (returns s')))
          × Calibrated (total (sample counter answers) 10 0 / 10) first s'
    unfolding Apic.end_interrupt Device.write Apic.offset Apic.register
    timer_handler-Calibrated first s w =
        let (t, bus, log, e, over, unticked, accesses) =
          last_step counting Undefined profile s.ticks.inner s.kernel.bus w.calibrating in
        (
          _,
          timer_handler-calibration s t bus w.free w.free_apic w.calibrating.active e,
          record {
            free = refl;
            same_apic = w.same_apic;
            free_apic = w.free_apic;
            same_kernel = record {
              scheduler = w.same_kernel.scheduler;
              tcbs = w.same_kernel.tcbs;
              contexts = w.same_kernel.contexts;
            };
            over = over;
            unticked = unticked;
            before = log;
            log = rw (accesses, w.same_apic) refl;
          },
        )

    pub timers-Waiting :
        (first : Statics Q) (n k : ℕ) (s : Statics Q)
        → Waiting counter answers first k s
        → k + n ≤ 9
        → (s' : Statics Q) × (timers ops profile ebx n s ≡ done (leaves (returns s')))
          × Waiting counter answers first (k + n) s'
    unfolding timers
    timers-Waiting first zero k s w le = (s, refl, rw (let q : k + 0 ≡ k = omega arith in q) w)
    timers-Waiting first (suc n) k s w le =
        let (s1, e1, w1) = timer_handler-Waiting first k s w (omega arith) in
        let (s2, e2, w2) = timers-Waiting first n (suc k) s1 w1 (omega arith) in
        (s2, rw e1 e2, rw (let q : k + suc n ≡ suc k + n = omega arith in q) w2)
