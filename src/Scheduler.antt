-- ===== src/Scheduler.antt =====
-- kernel/src/scheduler/executor.rs: the earliest-deadline-first executor of one core.
-- `BinaryHeap` of the crate heapless is a parameter: `HeapOps` are the operations that the code
-- calls, and `Scheduler.Heap` states what it relies on. A method that diverges (`-> !`) says in
-- `Exit` how it leaves: into a thread, or into the halt loop.
pub mod Count
pub mod Heap
pub mod Laws
pub mod Wake
use chick.Common.{ℕ, ◌+◌, ◌%◌, ◌^◌, Bool, true, false, not, Option, none, some, ltb, if◌then◌else◌}
use chick.Common.Store.{update}
use chick.Common.Checked.{checked_add}
use chick.Common.Outcome.{Outcome, done, err, panic, Profile, ◌>>=◌}
use chick.Thread.{
  Tcb, Tcbs, SchedContext, ThreadState, inactive, running, blocked_on_receive, blocked_on_send,
  blocked_on_reply, blocked_on_notification, modify,
}

abbrev pub max_tcb_per_core : ℕ
max_tcb_per_core = 64

-- `u64::MAX`.
abbrev pub no_deadline : ℕ
no_deadline = 0xffff_ffff_ffff_ffff

pub record Entry : Type 0 where
  pub deadline : ℕ
  pub tcb : ℕ

pub data SchedError : Type 0 where
  queue_full invalid_state not_found : SchedError

-- `BinaryHeap<Entry, Min, MAX_TCB_PER_CORE>`, with `Q` for its values. `push` is `none` when the
-- heap is full, and the heap is then unchanged.
pub record HeapOps (Q : Type 0) : Type 0 where
  pub new : Q
  pub push : Q → Entry → Option Q
  pub pop : Q → Option (Entry × Q)
  pub peek : Q → Option Entry

pub record Executor (Q : Type 0) : Type 0 where
  pub ready : Q
  pub current : Option Entry
  pub idle : Option ℕ

-- The executor beside the threads and scheduling contexts that it points to.
pub record Machine (Q : Type 0) : Type 0 where
  pub tcbs : Tcbs
  pub contexts : ℕ → SchedContext
  pub exec : Executor Q

pub data Exit (Q : Type 0) : Type 0 where
  returned : Machine Q → Exit Q
  restored : Machine Q → ℕ → Exit Q
  halted : Machine Q → Exit Q
  panicked : Exit Q

unfoldable pub is_running : ThreadState → Bool
is_running running = true
is_running _ = false

unfoldable pub is_inactive : ThreadState → Bool
is_inactive inactive = true
is_inactive _ = false

-- The states that `wake` and `block_current` accept.
unfoldable pub is_blocked : ThreadState → Bool
is_blocked blocked_on_receive = true
is_blocked blocked_on_send = true
is_blocked blocked_on_reply = true
is_blocked blocked_on_notification = true
is_blocked _ = false

abbrev pub set_state : ThreadState → Tcbs → ℕ → Tcbs
set_state s mem t = modify mem t (λ c. record c { state = s })

module _ {Q : Type 0} (ops : HeapOps Q) where
  abbrev pub with_exec : Machine Q → Executor Q → Machine Q
  with_exec m e = record m { exec = e }

  -- `Executor::new`.
  abbrev pub new : Executor Q
  new = record { ready = ops.new; current = none; idle = none }

  unfoldable pub set_idle : ℕ → Machine Q → Machine Q
  set_idle t m = record m {
    tcbs = set_state inactive m.tcbs t;
    exec = record (m.exec) { idle = some t };
  }

  unfoldable pub deadline_of : ℕ → Machine Q → ℕ
  deadline_of t m = elim (m.tcbs t).sched_context [
    | none ↦ no_deadline
    | some sc ↦ (m.contexts sc).deadline
  ]

  unfoldable pub enqueue : ℕ → Machine Q → Machine Q × Outcome SchedError (Unit {0})
  unfolding is_inactive deadline_of
  enqueue t m =
      if not (is_inactive (m.tcbs t).state)
      then (m, err invalid_state)
      else elim (ops.push m.exec.ready (record { deadline = deadline_of t m; tcb = t })) [
        | none ↦ (m, err queue_full)
        | some q ↦ (with_exec m (record (m.exec) { ready = q }), done tt)
      ]

  unfoldable pub should_preempt : Machine Q → Bool
  should_preempt m = elim (ops.peek m.exec.ready) [
    | none ↦ false
    | some next ↦ elim m.exec.current [ none ↦ true | some cur ↦ ltb next.deadline cur.deadline ]
  ]

  -- The end of `context_switch`: run `next`.
  unfoldable pub switch_to : Entry → Machine Q → Exit Q
  switch_to next m =
      restored
        (record m {
          tcbs = set_state running m.tcbs next.tcb;
          exec = record (m.exec) { current = some next };
        })
        next.tcb

  unfoldable pub context_switch : Entry → Machine Q → Exit Q
  unfolding switch_to is_running
  context_switch next m = elim m.exec.current [
    | none ↦ switch_to next m
    | some cur ↦
        if is_running (m.tcbs cur.tcb).state
        then elim (ops.push m.exec.ready cur) [
          | none ↦ panicked
          | some q ↦ switch_to next (record m {
            tcbs = set_state inactive m.tcbs cur.tcb;
            exec = record (m.exec) { ready = q; current = none };
          })
        ]
        else switch_to next (with_exec m (record (m.exec) { current = none }))
  ]

  -- `ticks_consumed` is a usize.
  unfoldable pub inc_tick : Profile → Machine Q → Outcome SchedError (Machine Q)
  unfolding checked_add
  inc_tick profile m = elim m.exec.current [
    | none ↦ done m
    | some cur ↦ elim (m.tcbs cur.tcb).sched_context [
      | none ↦ done m
      | some sc ↦
          (checked_add profile 64 (m.contexts sc).ticks_consumed 1 >>= λ ticks. done (record m {
            contexts = update m.contexts sc (record (m.contexts sc) { ticks_consumed = ticks });
          }))
    ]
  ]

  -- `preempt` once the tick is counted.
  unfoldable pub preempt_counted : Machine Q → Exit Q
  unfolding should_preempt context_switch
  preempt_counted m = if not (should_preempt m) then returned m else elim (ops.pop m.exec.ready) [
    | none ↦ panicked
    | some (next, q) ↦ context_switch next (with_exec m (record (m.exec) { ready = q }))
  ]

  -- `inc_tick` gives no error.
  unfoldable pub preempt : Profile → Machine Q → Exit Q
  unfolding inc_tick preempt_counted
  preempt profile m = elim (inc_tick profile m) [
    | done m1 ↦ preempt_counted m1
    | err e ↦ panicked
    | panic ↦ panicked
  ]

  unfoldable pub schedule : Machine Q → Exit Q
  unfolding context_switch
  schedule m = elim (ops.pop m.exec.ready) [
    | some (next, q) ↦ context_switch next (with_exec m (record (m.exec) { ready = q }))
    | none ↦ elim m.exec.idle [
      | some idle ↦ context_switch (record { deadline = no_deadline; tcb = idle }) m
      | none ↦ halted m
    ]
  ]

  unfoldable pub yield_current : Machine Q → Exit Q
  unfolding schedule
  yield_current m = elim m.exec.current [
    | none ↦ schedule m
    | some cur ↦ elim (ops.push m.exec.ready cur) [
      | none ↦ panicked
      | some q ↦ schedule (record m {
        tcbs = set_state inactive m.tcbs cur.tcb;
        exec = record (m.exec) { ready = q; current = none };
      })
    ]
  ]

  unfoldable pub block_current : ThreadState → Machine Q → Exit Q
  unfolding is_blocked schedule
  block_current state m = if not (is_blocked state) then panicked else elim m.exec.current [
    | none ↦ schedule m
    | some cur ↦ schedule (record m {
      tcbs = set_state state m.tcbs cur.tcb;
      exec = record (m.exec) { current = none };
    })
  ]

  unfoldable pub wake : ℕ → Machine Q → Machine Q × Outcome SchedError (Unit {0})
  unfolding is_blocked enqueue
  wake t m =
      if not (is_blocked (m.tcbs t).state)
      then (m, err invalid_state)
      else enqueue t (record m { tcbs = set_state inactive m.tcbs t })

  unfoldable pub run : Machine Q → Exit Q
  unfolding schedule
  run m = schedule m
