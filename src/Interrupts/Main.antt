-- ===== src/Interrupts/Main.antt =====
-- `main` of kernel/src/main.rs: no thread is ever enqueued, so the kernel goes into the halt loop.
use chick.Common.{ℕ, ◌+◌, ◌<◌, ◌^◌, ◌≡◌, refl, ◌∙◌, true, false, Option, some, arith, lt→ltb}
use native.Mathlib.Nat.{zero-add}
use chick.Common.Outcome.{done, Profile}
use chick.Device.Apic.{has_apic}
use chick.Interrupts.{Statics, leaves, timers, main, boot, statics}
use chick.Interrupts.Boot.{boot-Waiting}
use chick.Interrupts.Calibrate.{Waiting, timers-Waiting, timer_handler-Calibrated}
use chick.Interrupts.Idle.{Idle, schedule-idle, timers-add, timers-Idle}
use chick.Interrupts.Laws.{machine, call_executor-leave, put_back-executor}
use chick.Percore
use chick.Percore.{Undefined, PerCore, cpuid, sysinfo, max_cpus}
use chick.Percore.Laws.{get-init_scheduler}
use chick.Scheduler
use chick.Scheduler.{HeapOps, Machine, Executor, halted}
use chick.Scheduler.Heap.{IsHeap}
use chick.Sync
use chick.Tick.{Kernel, returns, halts, this_executor, call_executor, put_back, leave}
use chick.Tick.Samples.{IsCounting}

module _ {Q : Type 0} (ops : HeapOps Q) (laws : IsHeap ops) (profile : Profile)
    (virt_addr : ℕ → Option ℕ) where
  -- Which executor a core has depends on the cell alone.
  same-executor :
      (ebx : ℕ) (k k' : Kernel Q)
      → k'.scheduler ≡ k.scheduler
      → this_executor ebx k' ≡ this_executor ebx k
  unfolding this_executor
  same-executor ebx k k' e = rw e refl

  first-executor :
      (ebx eax : ℕ) (k : Kernel Q)
      → k.scheduler ≡ Percore.init_scheduler ops eax Sync.new
      → cpuid ebx < max_cpus
      → cpuid ebx < sysinfo eax
      → (cores : PerCore (Executor Q)) × (this_executor ebx k ≡ done (cores, Scheduler.new ops))
  unfolding this_executor
  first-executor ebx eax k e low counted =
      let (p, cell, at, pos, few, again) = get-init_scheduler ops eax 0 in
      let found : Percore.get ebx p ≡ done (Scheduler.new ops) =
        at ebx
        ∙ rw (lt→ltb (cpuid ebx) max_cpus low, lt→ltb (cpuid ebx) (sysinfo eax) counted) refl in
      (p, rw (e, cell, found) refl)

  run-halts :
      (ebx : ℕ) (k : Kernel Q) (cores : PerCore (Executor Q))
      → this_executor ebx k ≡ done (cores, Scheduler.new ops)
      → call_executor ebx (Scheduler.run ops) k
        ≡ done (halts (put_back ebx cores k (machine k (Scheduler.new ops))))
  unfolding Scheduler.run leave
  run-halts ebx k cores found =
      call_executor-leave ebx (Scheduler.run ops) k cores (Scheduler.new ops) found
      ∙ rw (schedule-idle ops laws (machine k (Scheduler.new ops)) refl) refl

  main_steps :
      (edx ebx eax paddr offset rsdp : ℕ) (k : Kernel Q) (s : Statics Q) (k' : Kernel Q)
      → virt_addr paddr ≡ some offset
      → boot ops profile virt_addr edx eax offset (statics k) ≡ done s
      → call_executor ebx (Scheduler.run ops) s.kernel ≡ done (halts k')
      → main ops profile virt_addr edx ebx eax (some paddr) (some rsdp) k
        ≡ done (halts (record s { kernel = k' }))
  unfolding main
  main_steps edx ebx eax paddr offset rsdp k s k' c a b = rw (c, a, b) refl

  -- The boot loader gives an offset of physical memory, which `VirtAddr::new` accepts, and an address
  -- of the RSDP. The processor has an APIC, and `VirtAddr::new` accepts the addresses of its two parts
  -- at the offset; their sums with it do not overflow. The scheduler's cell is new, the core is one of
  -- the first 16 and of those that CPUID counts, and its counter counts down by at most 2 ^ 30 in each
  -- sample. Then `main` goes into the halt loop, and interrupts of the timer there all return: the
  -- first ten calibrate the timer, and each later one, of fewer than 2 ^ 64, counts a tick.
  pub main-timers :
      (edx ebx eax paddr offset rsdp io lapic n : ℕ) (k : Kernel Q)
      → virt_addr paddr ≡ some offset
      → has_apic edx ≡ true
      → 0xfee0_0000 + offset < 2 ^ 64
      → virt_addr (0xfec0_0000 + offset) ≡ some io
      → virt_addr (0xfee0_0000 + offset) ≡ some lapic
      → IsCounting (k.bus.answers 1) (λ i. k.bus.answers (i + 2))
      → k.scheduler ≡ Sync.new
      → cpuid ebx < max_cpus
      → cpuid ebx < sysinfo eax
      → n < 2 ^ 64
      → (s s' : Statics Q) × (main ops profile virt_addr edx ebx eax (some paddr) (some rsdp) k
          ≡ done (halts s))
        × (timers ops profile ebx (10 + n) s ≡ done (leaves (returns s')))
        × (s'.ticks.locked ≡ false)
        × (s'.ticks.inner.is_calibration ≡ false)
        × (s'.ticks.inner.ticks ≡ n)
  unfolding timers put_back
  main-timers edx ebx eax paddr offset rsdp io lapic n k mapped has fits a b counting fresh low
        counted room =
      let (s, e, cell, base, w) =
        boot-Waiting ops profile virt_addr edx ebx eax offset io lapic k has fits a b in
      let (cores, found) = first-executor ebx eax s.kernel (rw⁻¹ fresh cell) low counted in
      let m = machine s.kernel (Scheduler.new ops) in
      let k' = put_back ebx cores s.kernel m in
      let s0 : Statics Q = record s { kernel = k' } in
      let w0 : Waiting (k.bus.answers 1) (λ i. k.bus.answers (i + 2)) s0 0 s0 = record {
        free = w.free;
        same_apic = refl;
        free_apic = w.free_apic;
        same_kernel = record { scheduler = refl; tcbs = refl; contexts = refl };
        calibrating = w.calibrating;
      } in
      let (s9, e9, w9) = timers-Waiting ops profile ebx counting s0 9 0 s0 w0 (omega arith) in
      let (s10, e10, c) = timer_handler-Calibrated ops profile ebx counting s0 s9 w9 in
      let (cores', found') = put_back-executor ebx cores (Scheduler.new ops) s.kernel m found in
      let idle : Idle ops laws ebx 0 s10 = record {
        free = c.free;
        free_apic = c.free_apic;
        over = c.over;
        ticked = c.unticked;
        cores = cores';
        found = same-executor ebx k' s10.kernel c.same_kernel.scheduler ∙ found';
      } in
      let (s', en, i) = timers-Idle ops laws profile ebx n 0 s10 idle (omega arith) in
      let ten : timers ops profile ebx 10 s0 ≡ done (leaves (returns s10)) =
        timers-add ops laws profile ebx 9 1 s0 s9 e9 ∙ rw e10 refl in
      (
        s0,
        s',
        main_steps edx ebx eax paddr offset rsdp k s k' mapped e
            (run-halts ebx s.kernel cores found),
        timers-add ops laws profile ebx 10 n s0 s10 ten ∙ en,
        i.free,
        i.over,
        i.ticked ∙ zero-add n,
      )
