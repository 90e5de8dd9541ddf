-- ===== src/Examples/Interrupts.antt =====
-- A start of the kernel on a core whose counter falls by 500 million in each sample, and an interrupt
-- of the timer on a core with two ready threads.
use chick.Common.{
  ℕ, zero, suc, ◌+◌, ◌*◌, ◌/◌, ◌%◌, ◌^◌, ◌≤◌, ◌<◌, ◌≡◌, ◌⊎◌, refl, true, false, some, List, [], ◌∷◌,
  ◌==◌, if◌then◌else◌, arith,
}
use chick.Common.Outcome.{done, panic, debug}
use chick.Device.{store32}
use chick.Device.Apic
use chick.Device.Apic.{has_apic}
use chick.Examples.Scheduler.{machine}
use chick.Interrupts.{Statics, leaves, spins, unlocked, timers, timer_handler, main, boot, statics}
use chick.Interrupts.Boot.{boot-Calibrated}
use chick.Interrupts.Calibrate.{Calibrated}
use chick.Interrupts.Laws.{Executed, timer_handler-preempt}
use chick.Interrupts.Main.{main-timers}
use chick.Percore
use chick.Percore.{PerCore, cpuid, sysinfo, max_cpus}
use chick.Scheduler.{Entry, Machine, Executor, returned, restored, panicked, preempt}
use chick.Scheduler.Heap.Sample.{list_heap, list_heap-IsHeap}
use chick.Sync
use chick.Thread.{new}
use chick.Tick
use chick.Tick.{Kernel, returns, runs, halts, this_executor}
use chick.Tick.Samples.{IsCounting, start, sample, total}

-- The starts are the odd answers.
abbrev falling : ℕ → ℕ
falling i = if i % 2 == 0 then 3500000000 else 4000000000

abbrev kernel : Kernel (List Entry)
kernel = record {
  bus = record { log = []; answers = falling };
  scheduler = Sync.new;
  tcbs = λ t. new;
  contexts = λ c. record { ticks = 0; ticks_consumed = 0; deadline = 0; thread = 0 };
}

falling-IsCounting : IsCounting (falling 1) (λ i. falling (i + 2))
falling-IsCounting = record { word = word; down = down; slow = slow }
  where
    word : (k : ℕ) → start (falling 1) (λ i. falling (i + 2)) k < 2 ^ 32
    word zero = omega arith
    word (suc k) = ground arith

    down : (k : ℕ) → falling (2 * k + 2) ≤ start (falling 1) (λ i. falling (i + 2)) k
    down zero = omega arith
    down (suc k) = ground arith

    slow : (k : ℕ) → start (falling 1) (λ i. falling (i + 2)) k ≤ falling (2 * k + 2) + 2 ^ 30
    slow zero = omega arith
    slow (suc k) = ground arith

-- A processor with an APIC, of which bit 9 of EDX tells.
apic_found : has_apic 0x200 ≡ true
unfolding has_apic
apic_found = refl

on_core : (cpuid 0 < max_cpus) × (cpuid 0 < sysinfo 0)
unfolding cpuid sysinfo
on_core = (omega arith, omega arith)

main-timers_example :
    (s s' : Statics (List Entry)) × (main list_heap debug some 0x200 0 0
        (some 0xffff_8000_0000_0000)
        (some 0xe0000)
        kernel
      ≡ done (halts s))
    × (timers list_heap debug 0 (10 + 7) s ≡ done (leaves (returns s')))
    × (s'.ticks.locked ≡ false)
    × (s'.ticks.inner.is_calibration ≡ false)
    × (s'.ticks.inner.ticks ≡ 7)
main-timers_example =
    main-timers list_heap list_heap-IsHeap debug some 0x200 0 0 0xffff_8000_0000_0000
      0xffff_8000_0000_0000 0xe0000 (0xfec0_0000 + 0xffff_8000_0000_0000)
      (0xfee0_0000 + 0xffff_8000_0000_0000) 7 kernel refl apic_found (omega arith) refl refl
      falling-IsCounting refl on_core.0 on_core.1 (omega arith)

boot-Calibrated_example :
    (s s9 s10 : Statics (List Entry)) × (boot list_heap debug some 0x200 0 0xffff_8000_0000_0000
        (statics kernel)
      ≡ done s)
    × (timers list_heap debug 0 9 s ≡ done (leaves (returns s9)))
    × (s9.ticks.inner.is_calibration ≡ true)
    × (timer_handler list_heap debug 0 s9 ≡ done (leaves (returns s10)))
    × (s10.kernel.scheduler ≡ Percore.init_scheduler list_heap 0 Sync.new)
    × (s10.apic.inner.lapic_addr ≡ 0xfee0_0000 + 0xffff_8000_0000_0000)
    × Calibrated (total (sample (falling 1) (λ i. falling (i + 2))) 10 0 / 10) s s10
boot-Calibrated_example =
    boot-Calibrated list_heap debug some 0x200 0 0 0xffff_8000_0000_0000
      (0xfec0_0000 + 0xffff_8000_0000_0000) (0xfee0_0000 + 0xffff_8000_0000_0000) kernel apic_found
      (omega arith) refl refl falling-IsCounting

abbrev cores : PerCore (Executor (List Entry))
cores = record { cores = λ i. some machine.exec; initialized_count = 1 }

abbrev busy : Statics (List Entry)
busy = record {
  ticks = unlocked (record Tick.new { is_calibration = false });
  apic = unlocked Apic.new;
  kernel = record {
    bus = record { log = []; answers = λ i. 0 };
    scheduler = record { once = Sync.initialized; value = some cores };
    tcbs = machine.tcbs;
    contexts = machine.contexts;
  };
}

found : this_executor 0 busy.kernel ≡ done (cores, machine.exec)
unfolding this_executor Sync.get Percore.get Percore.get_unsafe cpuid
found = refl

timer_handler-preempt_example :
    ((m : Machine (List Entry)) × (s' : Statics (List Entry)) × (preempt list_heap debug machine
        ≡ returned m)
      × (timer_handler list_heap debug 0 busy ≡ done (leaves (returns s')))
      × (s'.ticks.locked ≡ false)
      × (s'.apic.locked ≡ false)
      × (s'.ticks.inner.ticks ≡ 0 + 1)
      × (s'.kernel.bus.log ≡ store32 (0 + 0xb0) 0 ∷ [])
      × Executed 0 cores m s'.kernel)
    ⊎ ((m : Machine (List Entry)) × (tcb : ℕ) × (s' : Statics (List Entry)) × (preempt list_heap
            debug machine
          ≡ restored m tcb)
        × (timer_handler list_heap debug 0 busy ≡ done (leaves (runs s' tcb)))
        × (s'.ticks.locked ≡ true)
        × (s'.kernel.bus.log ≡ [])
        × (timer_handler list_heap debug 0 s' ≡ done spins)
        × Executed 0 cores m s'.kernel)
    ⊎ ((preempt list_heap debug machine ≡ panicked)
        × (timer_handler list_heap debug 0 busy ≡ panic))
timer_handler-preempt_example =
    timer_handler-preempt list_heap debug 0 busy cores machine.exec refl refl refl (omega arith)
      found
