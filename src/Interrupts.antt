-- ===== src/Interrupts.antt =====
-- kernel/src/arch/x86_64/interrupts/idt.rs and kernel/src/main.rs: the handler of the timer, with
-- the spin locks `TICKS` and `APIC`, and the start of the kernel.
-- A thread that waits for a lock that is held on its own core waits for ever: the result is then
-- `spins`. A handler that leaves into a thread leaves its locks held, since nothing is dropped.
pub mod Boot
pub mod Calibrate
pub mod Idle
pub mod Laws
pub mod Main
use chick.Common.{ℕ, zero, suc, ◌+◌, Bool, true, false, Option, none, some, if◌then◌else◌}
use chick.Common.Outcome.{Outcome, done, err, panic, expect, Profile, ◌>>=◌}
use chick.Device.{Bus}
use chick.Device.Apic
use chick.Device.Apic.{Apic, end_interrupt}
use chick.Percore
use chick.Percore.{Undefined}
use chick.Scheduler
use chick.Scheduler.{HeapOps, Executor}
use chick.Sync
use chick.Sync.{OnceLock}
use chick.Tick
use chick.Tick.{Tick, Kernel, Leave, returns, runs, halts, tick_handler, calibrate, call_executor}

-- `Mutex` of the crate spin.
pub record Mutex (A : Type 0) : Type 0 where
  pub locked : Bool
  pub inner : A

-- The static variables of the kernel beside what a tick reaches.
pub record Statics (Q : Type 0) : Type 0 where
  pub ticks : Mutex Tick
  pub apic : Mutex Apic
  pub kernel : Kernel Q

pub data Control (Q : Type 0) : Type 0 where
  leaves : Leave (Statics Q) → Control Q
  spins : Control Q

-- `lock`: none when it waits for ever.
unfoldable pub lock : {A : Type 0} → Mutex A → Option A
lock m = if m.locked then none else some m.inner

abbrev pub unlocked : {A : Type 0} → A → Mutex A
unlocked a = record { locked = false; inner = a }

abbrev pub held : {A : Type 0} → A → Mutex A
held a = record { locked = true; inner = a }

module _ {Q : Type 0} where
  -- The second statement of `timer_handler`.
  unfoldable pub acknowledge : Statics Q → Control Q
  unfolding lock end_interrupt
  acknowledge s = elim (lock s.apic) [
    | none ↦ spins
    | some a ↦
        leaves
          (returns (record s { kernel = record (s.kernel) { bus = end_interrupt a s.kernel.bus } }))
  ]

  -- What follows the call of `tick_handler`: if it returns, the lock is released.
  unfoldable pub after_tick : Statics Q → Tick × Leave (Kernel Q) → Control Q
  unfolding acknowledge
  after_tick s (t, returns k) = acknowledge (record s { ticks = unlocked t; kernel = k })
  after_tick s (t, runs k tcb) = leaves (runs (record s { ticks = held t; kernel = k }) tcb)
  after_tick s (t, halts k) = leaves (halts (record s { ticks = held t; kernel = k }))

  unfoldable pub timer_handler : HeapOps Q → Profile → ℕ → Statics Q → Outcome Undefined (Control Q)
  unfolding lock tick_handler after_tick
  timer_handler ops profile ebx s = elim (lock s.ticks) [
    | none ↦ done spins
    | some t ↦ tick_handler ops profile ebx t s.kernel >>= λ x. done (after_tick s x)
  ]

  -- The statics as they are first used.
  unfoldable pub statics : Kernel Q → Statics Q
  statics k = record { ticks = unlocked Tick.new; apic = unlocked Apic.new; kernel = k }

  -- `main` up to its last two statements, without the console and the tables and registers of the
  -- CPU. It takes both locks while nothing holds them. The registers that CPUID 1 and 4 give are
  -- arguments, and so is the offset of physical memory, as `VirtAddr::new` gives it.
  unfoldable pub boot :
      HeapOps Q → Profile → (ℕ → Option ℕ) → ℕ → ℕ → ℕ → Statics Q → Outcome Undefined (Statics Q)
  unfolding Apic.init calibrate Percore.init_scheduler
  boot ops profile virt_addr edx eax offset s = do
    (apic, bus1) ← Apic.init profile virt_addr edx offset s.kernel.bus
    (ticks, bus2) ← calibrate apic s.ticks.inner bus1
    done (record {
      ticks = unlocked ticks;
      apic = unlocked apic;
      kernel = record (s.kernel) {
        bus = bus2;
        scheduler = Percore.init_scheduler ops eax s.kernel.scheduler;
      };
    })

  -- What the executor comes to, beside the other statics.
  abbrev pub with_statics : Statics Q → Leave (Kernel Q) → Leave (Statics Q)
  with_statics s (returns k) = returns (record s { kernel = k })
  with_statics s (runs k tcb) = runs (record s { kernel = k }) tcb
  with_statics s (halts k) = halts (record s { kernel = k })

  -- `main`, without the console and the tables and registers of the CPU. What the boot loader says of
  -- the offset of physical memory and of the RSDP is an argument, and each is expected.
  unfoldable pub main :
      HeapOps Q
      → Profile
      → (ℕ → Option ℕ)
      → ℕ
      → ℕ
      → ℕ
      → Option ℕ
      → Option ℕ
      → Kernel Q
      → Outcome Undefined (Leave (Statics Q))
  unfolding boot statics call_executor Scheduler.run
  main ops profile virt_addr edx ebx eax physical_memory_offset rsdp_addr k = do
    paddr ← expect physical_memory_offset
    offset ← expect (virt_addr paddr)
    rsdp ← expect rsdp_addr
    s ← boot ops profile virt_addr edx eax offset (statics k)
    exit ← call_executor ebx (Scheduler.run ops) s.kernel
    done (with_statics s exit)

  -- Go on with `f` if the handler returned.
  abbrev pub again :
      (Statics Q → Outcome Undefined (Control Q)) → Control Q → Outcome Undefined (Control Q)
  again f spins = done spins
  again f (leaves (returns s)) = f s
  again f (leaves (runs s tcb)) = done (leaves (runs s tcb))
  again f (leaves (halts s)) = done (leaves (halts s))

  -- Interrupts of the timer, one after the other, as long as the handler returns.
  unfoldable pub timers : HeapOps Q → Profile → ℕ → ℕ → Statics Q → Outcome Undefined (Control Q)
  unfolding timer_handler
  timers ops profile ebx zero s = done (leaves (returns s))
  timers ops profile ebx (suc n) s =
      timer_handler ops profile ebx s >>= again (timers ops profile ebx n)
