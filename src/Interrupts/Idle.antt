-- ===== src/Interrupts/Idle.antt =====
-- The kernel of kernel/src/main.rs without threads: it goes into the halt loop, and the timer ticks.
use chick.Common.{ℕ, zero, suc, ◌+◌, ◌<◌, ◌^◌, ◌≡◌, refl, sym, ap, ◌∙◌, false, none, arith}
use native.Mathlib.Nat.{zero-add, suc-add}
use chick.Common.Outcome.{Outcome, done, err, panic, Profile, ◌>>=◌}
use chick.Device.Apic.{has_apic}
use chick.Interrupts.{Statics, Control, leaves, spins, again, timer_handler, timers}
use chick.Interrupts.Laws.{put_back-executor, timer_handler-returned, ended, machine}
use chick.Percore.{PerCore, Undefined}
use chick.Scheduler
use chick.Scheduler.{
  HeapOps, Machine, Executor, returned, halted, preempt, preempt_counted, schedule, inc_tick,
  should_preempt,
}
use chick.Scheduler.Heap.{top, IsHeap}
use chick.Tick.{returns, runs, halts, this_executor, put_back}

module _ {Q : Type 0} (ops : HeapOps Q) (laws : IsHeap ops) where
  open laws use {pop_empty, size-new, peek-pop}

  empty : ops.pop ops.new ≡ none
  empty = pop_empty ops.new size-new

  preempt-idle :
      (profile : Profile) (m : Machine Q)
      → m.exec ≡ Scheduler.new ops
      → preempt ops profile m ≡ returned m
  unfolding preempt preempt_counted inc_tick should_preempt
  preempt-idle profile m e =
      let current : m.exec.current ≡ none = ap (λ (x : Executor Q). x.current) e in
      let peek : ops.peek m.exec.ready ≡ none = rw e (peek-pop ops.new ∙ ap top empty) in
      ground arith

  pub schedule-idle : (m : Machine Q) → m.exec ≡ Scheduler.new ops → schedule ops m ≡ halted m
  unfolding schedule
  schedule-idle m e =
      let pop : ops.pop m.exec.ready ≡ none = rw e empty in
      let idle : m.exec.idle ≡ none = ap (λ (x : Executor Q). x.idle) e in ground arith

  -- A core without threads, once it is calibrated.
  pub record Idle (ebx ticks : ℕ) (s : Statics Q) : Type 0 where
    pub free : s.ticks.locked ≡ false
    pub free_apic : s.apic.locked ≡ false
    pub over : s.ticks.inner.is_calibration ≡ false
    pub ticked : s.ticks.inner.ticks ≡ ticks
    pub cores : PerCore (Executor Q)
    pub found : this_executor ebx s.kernel ≡ done (cores, Scheduler.new ops)

  timer_handler-Idle :
      (profile : Profile) (ebx ticks : ℕ) (s : Statics Q)
      → Idle ebx ticks s
      → ticks + 1 < 2 ^ 64
      → (s' : Statics Q) × (timer_handler ops profile ebx s ≡ done (leaves (returns s')))
        × Idle ebx (ticks + 1) s'
  unfolding put_back chick.Device.Apic.end_interrupt this_executor
  timer_handler-Idle profile ebx ticks s w room =
      let m = machine s.kernel (Scheduler.new ops) in
      let (cores, found) = put_back-executor ebx w.cores (Scheduler.new ops) s.kernel m w.found in
      (
        ended ebx w.cores m s,
        timer_handler-returned ops profile ebx s w.cores (Scheduler.new ops) m w.free w.free_apic
            w.over (omega (arith, w.ticked)) w.found (preempt-idle profile m refl),
        record {
          free = refl;
          free_apic = w.free_apic;
          over = w.over;
          ticked = omega (arith, w.ticked);
          cores = cores;
          found = found;
        },
      )

  pub timers-Idle :
      (profile : Profile) (ebx n ticks : ℕ) (s : Statics Q)
      → Idle ebx ticks s
      → ticks + n < 2 ^ 64
      → (s' : Statics Q) × (timers ops profile ebx n s ≡ done (leaves (returns s')))
        × Idle ebx (ticks + n) s'
  unfolding timers
  timers-Idle profile ebx zero ticks s w room =
      (s, refl, rw (let q : ticks + 0 ≡ ticks = omega arith in q) w)
  timers-Idle profile ebx (suc n) ticks s w room =
      let (s1, e1, w1) = timer_handler-Idle profile ebx ticks s w (omega arith) in
      let (s2, e2, w2) = timers-Idle profile ebx n (ticks + 1) s1 w1 (omega arith) in
      (s2, rw e1 e2, rw (let q : ticks + suc n ≡ ticks + 1 + n = omega arith in q) w2)

  -- The state that a call returns in, if it does.
  abbrev state_of : Statics Q → Outcome Undefined (Control Q) → Statics Q
  state_of s (done (leaves (returns s'))) = s'
  state_of s _ = s

  again-first :
      (f : Statics Q → Outcome Undefined (Control Q)) (s s' : Statics Q)
      (x : Outcome Undefined (Control Q))
      → (x >>= again f) ≡ done (leaves (returns s'))
      → x ≡ done (leaves (returns (state_of s x)))
  again-first f s s' (done (leaves (returns s1))) e = refl
  again-first f s s' (done (leaves (runs s1 tcb))) e = absurd (cc)
  again-first f s s' (done (leaves (halts s1))) e = absurd (cc)
  again-first f s s' (done spins) e = absurd (cc)
  again-first f s s' (err u) e = absurd (cc)
  again-first f s s' panic e = absurd (cc)

  returned-first :
      (profile : Profile) (ebx a : ℕ) (s s' : Statics Q)
      → timers ops profile ebx (suc a) s ≡ done (leaves (returns s'))
      → (s1 : Statics Q) × (timer_handler ops profile ebx s ≡ done (leaves (returns s1)))
  unfolding timers
  returned-first profile ebx a s s' e = (
    state_of s (timer_handler ops profile ebx s),
    again-first (timers ops profile ebx a) s s' (timer_handler ops profile ebx s) e,
  )

  -- The interrupts of two runs, one after the other.
  pub timers-add :
      (profile : Profile) (ebx a b : ℕ) (s s' : Statics Q)
      → timers ops profile ebx a s ≡ done (leaves (returns s'))
      → timers ops profile ebx (a + b) s ≡ timers ops profile ebx b s'
  unfolding timers
  timers-add profile ebx zero b s s' e =
      rw (zero-add b) (ap (timers ops profile ebx b) (ap (state_of s) e))
  timers-add profile ebx (suc a) b s s' e =
      let (s1, e1) = returned-first profile ebx a s s' e in
      rw (suc-add a b, e1) (timers-add profile ebx a b s1 s' (sym (rw e1 refl) ∙ e))
