-- ===== src/Interrupts/Laws.antt =====
-- What the handler of the timer does once the calibration is over: whether it returns or leaves into
-- a thread, and what that means for the locks and the interrupt controller.
use chick.Common.{
  ℕ, ◌+◌, ◌<◌, ◌^◌, ◌≡◌, ◌≢◌, refl, ◌⊎◌, true, false, ◌∷◌, ◌==◌, if◌then◌else◌, some, arith, inl,
  inr,
}
use chick.Common.Outcome.{Outcome, done, panic, Profile, ◌>>=◌}
use chick.Device
use chick.Device.{Bus, store32}
use chick.Device.Apic
use chick.Interrupts.{
  Statics, leaves, spins, lock, unlocked, held, acknowledge, after_tick, timer_handler,
}
use chick.Percore
use chick.Percore.{Undefined, PerCore, cpuid}
use chick.Common.Store.{update}
use chick.Scheduler.{
  Entry, HeapOps, Executor, Machine, Exit, returned, restored, halted, panicked, preempt,
  preempt_counted, context_switch, switch_to,
}
use chick.Sync
use chick.Tick.{
  Tick, Kernel, Leave, returns, runs, tick_handler, call_executor, this_executor, leave, put_back,
}
use chick.Common.Checked.{checked_add-done}

module _ {Q : Type 0} where
  Exit-cases :
      (x : Exit Q)
      → ((m : Machine Q) × (x ≡ returned m))
        ⊎ ((m : Machine Q) × (t : ℕ) × (x ≡ restored m t))
        ⊎ ((m : Machine Q) × (x ≡ halted m))
        ⊎ (x ≡ panicked)
  Exit-cases (returned m) = inl (m, refl)
  Exit-cases (restored m t) = inr (inl (m, t, refl))
  Exit-cases (halted m) = inr (inr (inl (m, refl)))
  Exit-cases panicked = inr (inr (inr refl))

  context_switch-halted :
      (ops : HeapOps Q) (e : Entry) (m m' : Machine Q) → context_switch ops e m ≢ halted m'
  unfolding context_switch switch_to
  context_switch-halted ops e m m' h = ground arith

  preempt_counted-halted : (ops : HeapOps Q) (m m' : Machine Q) → preempt_counted ops m ≢ halted m'
  unfolding preempt_counted
  preempt_counted-halted ops m m' h = ground (arith, context_switch-halted ops)

  preempt-halted :
      (ops : HeapOps Q) (profile : Profile) (m m' : Machine Q) → preempt ops profile m ≢ halted m'
  unfolding preempt
  preempt-halted ops profile m m' h = ground (arith, preempt_counted-halted ops)

  -- The part of the kernel that a method of the executor sees.
  abbrev pub machine : Kernel Q → Executor Q → Machine Q
  machine k exec = record { tcbs = k.tcbs; contexts = k.contexts; exec = exec }

  pub call_executor-leave :
      (ebx : ℕ) (method : Machine Q → Exit Q) (k : Kernel Q) (cores : PerCore (Executor Q))
      (exec : Executor Q)
      → this_executor ebx k ≡ done (cores, exec)
      → call_executor ebx method k ≡ leave ebx cores k (method (machine k exec))
  unfolding call_executor
  call_executor-leave ebx method k cores exec e = rw e refl

  tick_handler-preempt :
      (ops : HeapOps Q) (profile : Profile) (ebx : ℕ) (t : Tick) (k : Kernel Q)
      (cores : PerCore (Executor Q)) (exec : Executor Q)
      (exit : Outcome Undefined (Leave (Kernel Q)))
      → t.is_calibration ≡ false
      → t.ticks + 1 < 2 ^ 64
      → this_executor ebx k ≡ done (cores, exec)
      → leave ebx cores k (preempt ops profile (machine k exec)) ≡ exit
      → tick_handler ops profile ebx t k
        ≡ (exit >>= λ l. done (record t { ticks = t.ticks + 1 }, l))
  unfolding tick_handler
  tick_handler-preempt ops profile ebx t k cores exec exit over room found e =
      rw
        (
          over,
          checked_add-done Undefined profile 64 t.ticks 1 room,
          call_executor-leave ebx (preempt ops profile) k cores exec found,
          e,
        )
        refl

  -- The executor of the core is the one that was put back.
  pub put_back-executor :
      (ebx : ℕ) (cores : PerCore (Executor Q)) (exec : Executor Q) (k : Kernel Q) (m : Machine Q)
      → this_executor ebx k ≡ done (cores, exec)
      → (cores' : PerCore (Executor Q)) × (this_executor ebx (put_back ebx cores k m)
          ≡ done (cores', m.exec))
  unfolding this_executor put_back Sync.get Percore.get Percore.get_unsafe
  put_back-executor ebx cores exec k m e =
      (record cores { cores = update cores.cores (cpuid ebx) (some m.exec) }, ground arith)

  -- The kernel has what a method of the core's executor has made of the threads, the scheduling
  -- contexts and the executor, and the executors of the other cores as before.
  pub record Executed (ebx : ℕ) (cores : PerCore (Executor Q)) (m : Machine Q) (k' : Kernel Q)
      : Type 0 where
    pub threads : k'.tcbs ≡ m.tcbs
    pub contexts : k'.contexts ≡ m.contexts
    pub after : PerCore (Executor Q)
    pub found : this_executor ebx k' ≡ done (after, m.exec)
    pub others : (j : ℕ) → after.cores j ≡ (if cpuid ebx == j then some m.exec else cores.cores j)

  put_back-Executed :
      (ebx : ℕ) (cores : PerCore (Executor Q)) (exec : Executor Q) (k : Kernel Q) (m : Machine Q)
      (bus : Bus)
      → this_executor ebx k ≡ done (cores, exec)
      → Executed ebx cores m (record (put_back ebx cores k m) { bus = bus })
  unfolding this_executor put_back Sync.get Percore.get Percore.get_unsafe
  put_back-Executed ebx cores exec k m bus e = record {
    threads = refl;
    contexts = refl;
    after = record cores { cores = update cores.cores (cpuid ebx) (some m.exec) };
    found = ground arith;
    others = λ j. refl;
  }

  -- The state in which the handler returns.
  abbrev pub ended : ℕ → PerCore (Executor Q) → Machine Q → Statics Q → Statics Q
  ended ebx cores m s = record {
    ticks = unlocked (record (s.ticks.inner) { ticks = s.ticks.inner.ticks + 1 });
    apic = s.apic;
    kernel = record (put_back ebx cores s.kernel m) {
      bus = Apic.end_interrupt s.apic.inner s.kernel.bus;
    };
  }

  pub timer_handler-returned :
      (ops : HeapOps Q) (profile : Profile) (ebx : ℕ) (s : Statics Q) (cores : PerCore (Executor Q))
      (exec : Executor Q) (m : Machine Q)
      → s.ticks.locked ≡ false
      → s.apic.locked ≡ false
      → s.ticks.inner.is_calibration ≡ false
      → s.ticks.inner.ticks + 1 < 2 ^ 64
      → this_executor ebx s.kernel ≡ done (cores, exec)
      → preempt ops profile (machine s.kernel exec) ≡ returned m
      → timer_handler ops profile ebx s ≡ done (leaves (returns (ended ebx cores m s)))
  unfolding timer_handler lock after_tick acknowledge leave put_back
  timer_handler-returned ops profile ebx s cores exec m free free_apic over room found e =
      let tick =
        tick_handler-preempt ops profile ebx s.ticks.inner s.kernel cores exec
          (leave ebx cores s.kernel (preempt ops profile (machine s.kernel exec))) over room found
          refl in
      rw (free, tick, e, free_apic) refl

  -- `timer_handler` on a core that has an executor, once the calibration is over, while nothing holds
  -- the locks and the ticks fit into a u64, calls `preempt` of the executor. Unless that panics, the
  -- threads, the scheduling contexts and the executor of the core are then what `preempt` made of
  -- them, and the executors of the other cores are as before. If `preempt` returns, so does the
  -- handler: both locks are free, the ticks are one more, and the last access is the write of 0 to the
  -- register that ends the interrupt. If it switches to a thread, `TICKS` stays locked and nothing was
  -- written to a device, so the interrupt is not ended and the next call of the handler waits for
  -- ever. It panics if `preempt` does.
  pub timer_handler-preempt :
      (ops : HeapOps Q) (profile : Profile) (ebx : ℕ) (s : Statics Q) (cores : PerCore (Executor Q))
      (exec : Executor Q)
      → s.ticks.locked ≡ false
      → s.apic.locked ≡ false
      → s.ticks.inner.is_calibration ≡ false
      → s.ticks.inner.ticks + 1 < 2 ^ 64
      → this_executor ebx s.kernel ≡ done (cores, exec)
      → ((m : Machine Q) × (s' : Statics Q) × (preempt ops profile (machine s.kernel exec)
            ≡ returned m)
          × (timer_handler ops profile ebx s ≡ done (leaves (returns s')))
          × (s'.ticks.locked ≡ false)
          × (s'.apic.locked ≡ false)
          × (s'.ticks.inner.ticks ≡ s.ticks.inner.ticks + 1)
          × (s'.kernel.bus.log ≡ store32 (s.apic.inner.lapic_addr + 0xb0) 0 ∷ s.kernel.bus.log)
          × Executed ebx cores m s'.kernel)
        ⊎ ((m : Machine Q) × (tcb : ℕ) × (s' : Statics Q) × (preempt ops profile
                (machine s.kernel exec)
              ≡ restored m tcb)
            × (timer_handler ops profile ebx s ≡ done (leaves (runs s' tcb)))
            × (s'.ticks.locked ≡ true)
            × (s'.kernel.bus.log ≡ s.kernel.bus.log)
            × (timer_handler ops profile ebx s' ≡ done spins)
            × Executed ebx cores m s'.kernel)
        ⊎ ((preempt ops profile (machine s.kernel exec) ≡ panicked)
            × (timer_handler ops profile ebx s ≡ panic))
  unfolding timer_handler lock after_tick acknowledge leave put_back Apic.end_interrupt Device.write
      Apic.offset Apic.register
  timer_handler-preempt ops profile ebx s cores exec free free_apic over room found =
      let t : Tick = record (s.ticks.inner) { ticks = s.ticks.inner.ticks + 1 } in
      let x = preempt ops profile (machine s.kernel exec) in
      let tick =
        tick_handler-preempt ops profile ebx s.ticks.inner s.kernel cores exec
          (leave ebx cores s.kernel x) over room found refl in
      elim (Exit-cases x) [
        | inl (m, e) ↦ inl (
          m,
          ended ebx cores m s,
          e,
          timer_handler-returned ops profile ebx s cores exec m free free_apic over room found e,
          refl,
          free_apic,
          refl,
          refl,
          put_back-Executed ebx cores exec s.kernel m (Apic.end_interrupt s.apic.inner s.kernel.bus)
              found,
        )
        | inr (inl (m, tcb, e)) ↦ inr (
            inl (
              m,
              tcb,
              record { ticks = held t; apic = s.apic; kernel = put_back ebx cores s.kernel m },
              e,
              rw (free, tick, e) refl,
              refl,
              refl,
              refl,
              put_back-Executed ebx cores exec s.kernel m s.kernel.bus found,
            ))
        | inr (inr (inl (m, e))) ↦ absurd (preempt-halted ops profile (machine s.kernel exec) m e)
        | inr (inr (inr e)) ↦ inr (inr (e, rw (free, tick, e) refl))
      ]
