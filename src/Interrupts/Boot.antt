-- ===== src/Interrupts/Boot.antt =====
-- The start of the kernel in kernel/src/main.rs, and the interrupts of the timer that follow.
use chick.Common.{ℕ, ◌+◌, ◌/◌, ◌<◌, ◌^◌, ◌≡◌, refl, ap, ◌∙◌, List, true, Option, some, arith}
use chick.Common.Outcome.{done, Profile}
use chick.Device
use chick.Device.{Bus, Access}
use chick.Device.Apic
use chick.Device.Apic.{Apic, has_apic, map_apic}
use chick.Device.Pic
use chick.Interrupts.{Statics, Mutex, unlocked, leaves, timer_handler, timers, boot, statics}
use chick.Interrupts.Calibrate.{Waiting, Calibrated, timer_handler-Calibrated, timers-Waiting}
use chick.Percore
use chick.Percore.{Undefined}
use chick.Scheduler.{HeapOps}
use chick.Tick
use chick.Tick.{Kernel, Tick, calibrate, returns}
use chick.Tick.Calibration.{init_counters-done}
use chick.Tick.Samples.{IsCounting, sample, total}
use chick.Common.Checked.{checked_add-done}

module _ (profile : Profile) (virt_addr : ℕ → Option ℕ) where
  map_apic-done :
      (E : Type 0) (paddr offset v : ℕ)
      → paddr + offset < 2 ^ 64
      → virt_addr (paddr + offset) ≡ some v
      → map_apic {E = E} profile virt_addr paddr offset ≡ done v
  unfolding map_apic
  map_apic-done E paddr offset v fits e =
      rw (checked_add-done E profile 64 paddr offset fits, e) refl

  init-done :
      (E : Type 0) (edx offset io lapic : ℕ) (bus : Bus)
      → has_apic edx ≡ true
      → 0xfee0_0000 + offset < 2 ^ 64
      → virt_addr (0xfec0_0000 + offset) ≡ some io
      → virt_addr (0xfee0_0000 + offset) ≡ some lapic
      → Apic.init {E = E} profile virt_addr edx offset bus
        ≡ done (
          record { io_apic_addr = io; lapic_addr = lapic },
          Apic.enable_lapic lapic (Apic.enable_io_apic io (Pic.disable Pic.new bus)),
        )
  unfolding Apic.init
  init-done E edx offset io lapic bus has fits a b =
      rw
        (
          has,
          map_apic-done E 0xfec0_0000 offset io (omega arith) a,
          map_apic-done E 0xfee0_0000 offset lapic fits b,
        )
        refl

calibrate-done :
    (E : Type 0) (apic : Apic) (t : Tick) (bus : Bus)
    → t.duration ≡ 50
    → (log : List Access) × (calibrate {E = E} apic t bus
        ≡ done (
          record t {
            is_calibration = true;
            apic = apic;
            calibration_idx = 0;
            lapic_counter = bus.answers 0;
          },
          record { log = log; answers = λ i. bus.answers (i + 1) },
        ))
unfolding calibrate Tick.set_ioapic_pit_interrupt Apic.ioapic_write Device.write
calibrate-done E apic t bus fifty = (
  _,
  init_counters-done E (record t { is_calibration = true; apic = apic; calibration_idx = 0 })
      (Tick.set_ioapic_pit_interrupt apic bus) fifty,
)

module _ {Q : Type 0} (ops : HeapOps Q) (profile : Profile) (virt_addr : ℕ → Option ℕ) where
  boot_steps :
      (edx eax offset : ℕ) (s : Statics Q) (apic : Apic) (t : Tick) (bus bus' : Bus)
      → Apic.init {E = Undefined} profile virt_addr edx offset s.kernel.bus ≡ done (apic, bus)
      → calibrate {E = Undefined} apic s.ticks.inner bus ≡ done (t, bus')
      → boot ops profile virt_addr edx eax offset s
        ≡ done (record {
          ticks = unlocked t;
          apic = unlocked apic;
          kernel = record (s.kernel) {
            bus = bus';
            scheduler = Percore.init_scheduler ops eax s.kernel.scheduler;
          };
        })
  unfolding boot
  boot_steps edx eax offset s apic t bus bus' a b = rw (a, b) refl

  pub boot-Waiting :
      (edx ebx eax offset io lapic : ℕ) (k : Kernel Q)
      → has_apic edx ≡ true
      → 0xfee0_0000 + offset < 2 ^ 64
      → virt_addr (0xfec0_0000 + offset) ≡ some io
      → virt_addr (0xfee0_0000 + offset) ≡ some lapic
      → (s : Statics Q) × (boot ops profile virt_addr edx eax offset (statics k) ≡ done s)
        × (s.kernel.scheduler ≡ Percore.init_scheduler ops eax k.scheduler)
        × (s.apic.inner.lapic_addr ≡ lapic)
        × Waiting (k.bus.answers 1) (λ i. k.bus.answers (i + 2)) s 0 s
  unfolding statics Apic.enable_io_apic Apic.enable_lapic Pic.disable Device.write Device.read
  boot-Waiting edx ebx eax offset io lapic k has fits a b =
      let apic : Apic = record { io_apic_addr = io; lapic_addr = lapic } in
      let bus = Apic.enable_lapic lapic (Apic.enable_io_apic io (Pic.disable Pic.new k.bus)) in
      let (log, e) = calibrate-done Undefined apic Tick.new bus refl in
      let s : Statics Q = record {
        ticks = unlocked (record Tick.new {
          is_calibration = true;
          apic = apic;
          calibration_idx = 0;
          lapic_counter = bus.answers 0;
        });
        apic = unlocked apic;
        kernel = record k {
          bus = record { log = log; answers = λ i. bus.answers (i + 1) };
          scheduler = Percore.init_scheduler ops eax k.scheduler;
        };
      } in
      (
        s,
        boot_steps edx eax offset (statics k) apic s.ticks.inner bus s.kernel.bus
            (init-done profile virt_addr Undefined edx offset io lapic k.bus has fits a b) e,
        refl,
        refl,
        record {
          free = refl;
          same_apic = refl;
          free_apic = refl;
          same_kernel = record { scheduler = refl; tcbs = refl; contexts = refl };
          calibrating = record {
            controller = refl;
            active = refl;
            index = refl;
            unticked = refl;
            duration = refl;
            lapic_counter = refl;
            filled = λ j lt. absurd (omega arith);
            rest = λ i. ground arith;
          };
        },
      )

  -- The kernel starts on a processor with an APIC whose registers have canonical addresses. If the
  -- counter of the core counts down, by at most 2 ^ 30 in each sample, then nine interrupts of the
  -- timer leave the calibration going on and the tenth ends it: the handler returns each time, the
  -- locks are free, the timer of the core is started with the mean of the ten samples, and the
  -- scheduler is as `init_scheduler` made it.
  pub boot-Calibrated :
      (edx ebx eax offset io lapic : ℕ) (k : Kernel Q)
      → has_apic edx ≡ true
      → 0xfee0_0000 + offset < 2 ^ 64
      → virt_addr (0xfec0_0000 + offset) ≡ some io
      → virt_addr (0xfee0_0000 + offset) ≡ some lapic
      → IsCounting (k.bus.answers 1) (λ i. k.bus.answers (i + 2))
      → (s s9 s10 : Statics Q) × (boot ops profile virt_addr edx eax offset (statics k) ≡ done s)
        × (timers ops profile ebx 9 s ≡ done (leaves (returns s9)))
        × (s9.ticks.inner.is_calibration ≡ true)
        × (timer_handler ops profile ebx s9 ≡ done (leaves (returns s10)))
        × (s10.kernel.scheduler ≡ Percore.init_scheduler ops eax k.scheduler)
        × (s10.apic.inner.lapic_addr ≡ lapic)
        × Calibrated (total (sample (k.bus.answers 1) (λ i. k.bus.answers (i + 2))) 10 0 / 10) s s10
  boot-Calibrated edx ebx eax offset io lapic k has fits a b counting =
      let (s, e, cell, base, w) = boot-Waiting edx ebx eax offset io lapic k has fits a b in
      let (s9, e9, w9) = timers-Waiting ops profile ebx counting s 9 0 s w (omega arith) in
      let (s10, e10, c) = timer_handler-Calibrated ops profile ebx counting s s9 w9 in
      (
        s,
        s9,
        s10,
        e,
        e9,
        w9.calibrating.active,
        e10,
        c.same_kernel.scheduler ∙ cell,
        ap (λ (m : Mutex Apic). m.inner.lapic_addr) c.same_apic ∙ base,
        c,
      )
