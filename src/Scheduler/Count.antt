-- ===== src/Scheduler/Count.antt =====
-- The count of the ticks that a thread has run: what `inc_tick` of scheduler/executor.rs does.
use chick.Common.{
  ℕ, ◌+◌, ◌%◌, ◌^◌, ◌≤◌, ◌≡◌, refl, ◌⊎◌, inl, inr, some, Option-cases, lt→ltb, arith,
}
use native.Mathlib.Decide.{dec_lt}
use chick.Common.Checked.{checked_add}
use chick.Common.Outcome.{done, panic, Profile, debug, release}
use chick.Common.Store.{update}
use chick.Thread.{SchedContext}
use chick.Scheduler.{Entry, HeapOps, Machine, inc_tick}

module _ {Q : Type 0} (ops : HeapOps Q) where
  -- The count of the current thread's ticks is at its greatest in a debug build.
  pub record Overflows (profile : Profile) (m : Machine Q) : Type 0 where
    pub build : profile ≡ debug
    pub entry : Entry
    pub current : m.exec.current ≡ some entry
    pub context : ℕ
    pub sched_context : (m.tcbs entry.tcb).sched_context ≡ some context
    pub greatest : 2 ^ 64 ≤ (m.contexts context).ticks_consumed + 1

  -- The tick is counted, or the count overflows.
  pub inc_tick-cases :
      (profile : Profile) (m : Machine Q)
      → ((c : ℕ → SchedContext) × (inc_tick ops profile m ≡ done (record m { contexts = c })))
        ⊎ (Overflows profile m × (inc_tick ops profile m ≡ panic))
  unfolding inc_tick checked_add
  inc_tick-cases profile m = elim (Option-cases m.exec.current) [
    | inl n ↦ inl (m.contexts, rw n refl)
    | inr (cur, n) ↦ elim (Option-cases (m.tcbs cur.tcb).sched_context) [
      | inl u ↦ inl (m.contexts, rw (n, u) refl)
      | inr (sc, u) ↦ counted profile cur sc n u
    ]
  ]
    where
      count_in : ℕ → ℕ → ℕ → SchedContext
      count_in sc n = update m.contexts sc (record (m.contexts sc) { ticks_consumed = n })

      counted :
          (p : Profile) (cur : Entry) (sc : ℕ)
          → m.exec.current ≡ some cur
          → (m.tcbs cur.tcb).sched_context ≡ some sc
          → ((c : ℕ → SchedContext) × (inc_tick ops p m ≡ done (record m { contexts = c })))
            ⊎ (Overflows p m × (inc_tick ops p m ≡ panic))
      counted release cur sc n u =
          inl (count_in sc (((m.contexts sc).ticks_consumed + 1) % 2 ^ 64), rw (n, u) refl)
      counted debug cur sc n u = elim (dec_lt ((m.contexts sc).ticks_consumed + 1) (2 ^ 64)) [
        | yes lt ↦ inl (
          count_in sc ((m.contexts sc).ticks_consumed + 1),
          rw (n, u, lt→ltb ((m.contexts sc).ticks_consumed + 1) (2 ^ 64) lt) refl,
        )
        | no ge ↦ inr (
          record {
            build = refl;
            entry = cur;
            current = n;
            context = sc;
            sched_context = u;
            greatest = omega arith;
          },
          ground arith,
        )
      ]
