-- ===== src/Scheduler/Laws.antt =====
-- The executor runs the thread with the earliest deadline, loses none and does not overflow.
use chick.Common.{
  ℕ, ◌+◌, ◌≤◌, ◌<◌, ◌≡◌, refl, ◌⊎◌, inl, inr, Option, none, some, if◌then◌else◌, Bool-cases,
  Option-cases, arith,
}
use native.Mathlib.Decide.{dec_lt}
use chick.Thread.{Tcbs, running, inactive}
use chick.Scheduler.{
  Entry, HeapOps, Machine, restored, halted, max_tcb_per_core, is_running, set_state,
  context_switch, schedule, with_exec, no_deadline,
}
use chick.Scheduler.Heap.{IsHeap, same}

module _ {Q : Type 0} (ops : HeapOps Q) (heap : IsHeap ops) where
  open heap use {size, count, push_room, pop_empty, pop_least, peek-pop}

  -- How often `context_switch` puts the entry back into the heap: once if it is the current
  -- thread's and that thread is still running.
  abbrev pub put_back : Machine Q → Entry → ℕ
  put_back m x = elim m.exec.current [
    | none ↦ 0
    | some cur ↦ if is_running (m.tcbs cur.tcb).state then same x cur else 0
  ]

  -- `m'` runs the entry `e`, which was taken from the heap of `m`.
  pub record Switched (m : Machine Q) (ready : Q) (e : Entry) (m' : Machine Q) : Type 0 where
    pub runs : m'.exec.current ≡ some e
    pub state : (m'.tcbs e.tcb).state ≡ running
    pub fits : size m'.exec.ready ≤ max_tcb_per_core
    pub keeps : (x : Entry) → count x m'.exec.ready ≡ count x ready + put_back m x

  after : Entry → Machine Q → Tcbs → Q → Machine Q
  after next m tcbs q = record m {
    tcbs = set_state running tcbs next.tcb;
    exec = record (m.exec) { ready = q; current = some next };
  }

  -- With room for one entry `context_switch` goes into the thread it is given.
  context_switch-Switched :
      (next : Entry) (m : Machine Q)
      → size m.exec.ready < max_tcb_per_core
      → (m' : Machine Q) × (context_switch ops next m ≡ restored m' next.tcb)
        × Switched m m.exec.ready next m'
  unfolding context_switch after
  context_switch-Switched next m room = elim (Option-cases m.exec.current) [
    | inl e ↦ (
      after next m m.tcbs m.exec.ready,
      ground arith,
      record { runs = refl; state = ground arith; fits = omega arith; keeps = λ x. ground arith },
    )
    | inr (cur, e) ↦ elim (Bool-cases (is_running (m.tcbs cur.tcb).state)) [
      | inl r ↦
          let (q, p, s, c) = push_room m.exec.ready cur room in
          (
            after next m (set_state inactive m.tcbs cur.tcb) q,
            ground (arith, p),
            record {
              runs = refl;
              state = ground arith;
              fits = omega (arith, s);
              keeps = λ x. ground (arith, c x);
            },
          )
      | inr r ↦ (
        after next m m.tcbs m.exec.ready,
        ground arith,
        record { runs = refl; state = ground arith; fits = omega arith; keeps = λ x. ground arith },
      )
    ]
  ]

  -- The least entry was taken from the heap of `m`, and the machine went into its thread.
  pub record Earliest (m : Machine Q) (m' : Machine Q) (e : Entry) : Type 0 where
    pub runs : m'.exec.current ≡ some e
    pub state : (m'.tcbs e.tcb).state ≡ running
    pub fits : size m'.exec.ready ≤ max_tcb_per_core
    pub earliest : (x : Entry) → 0 < count x m.exec.ready → e.deadline ≤ x.deadline
    pub keeps : (x : Entry) → count x m'.exec.ready + same x e ≡ count x m.exec.ready + put_back m x

  -- Taking the least entry and switching to it never overflows the heap.
  pop-Earliest :
      (m : Machine Q)
      → size m.exec.ready ≤ max_tcb_per_core
      → 0 < size m.exec.ready
      → (e : Entry) × (q : Q) × (m' : Machine Q) × (ops.pop m.exec.ready ≡ some (e, q))
        × (context_switch ops e (with_exec ops m (record (m.exec) { ready = q }))
            ≡ restored m' e.tcb)
        × Earliest m m' e
  pop-Earliest m fits some_ready =
      let (e, q, p, s, c, least) = pop_least m.exec.ready some_ready in
      let (m', r, w) =
        context_switch-Switched e (with_exec ops m (record (m.exec) { ready = q }))
          (omega (arith, s)) in
      (
        e,
        q,
        m',
        p,
        r,
        record {
          runs = w.runs;
          state = w.state;
          fits = w.fits;
          earliest = least;
          keeps = λ x. omega (arith, c x, w.keeps x);
        },
      )

  -- The scheduler never panics: it goes into the ready thread with the earliest deadline, or the
  -- idle thread if none is ready, or halts if there is no idle thread either.
  pub schedule-Earliest :
      (m : Machine Q)
      → size m.exec.ready ≤ max_tcb_per_core
      → ((e : Entry) × (m' : Machine Q) × (schedule ops m ≡ restored m' e.tcb) × Earliest m m' e)
        ⊎ ((t : ℕ) × (m' : Machine Q) × (size m.exec.ready ≡ 0)
            × (m.exec.idle ≡ some t)
            × (schedule ops m ≡ restored m' t)
            × ((m'.tcbs t).state ≡ running))
        ⊎ ((size m.exec.ready ≡ 0) × (m.exec.idle ≡ none) × (schedule ops m ≡ halted m))
  unfolding schedule
  schedule-Earliest m fits = elim (dec_lt 0 (size m.exec.ready)) [
    | yes some_ready ↦
        let (e, q, m', p, r, w) = pop-Earliest m fits some_ready in
        inl (e, m', rw (p, schedule) r, w)
    | no none_ready ↦
        let p = pop_empty m.exec.ready (omega arith) in
        elim (Option-cases m.exec.idle) [
          | inl i ↦ inr (inr (omega arith, i, ground (arith, p)))
          | inr (t, i) ↦
              let (m', r, w) =
                context_switch-Switched (record { deadline = no_deadline; tcb = t }) m
                  (omega arith) in
              inr (inl (t, m', omega arith, i, ground (arith, p, r), w.state))
        ]
  ]

  -- What the test of `preempt` says of the heap.
  abbrev pub Sooner : Entry → Option Entry → Type 0
  Sooner e none = Unit
  Sooner e (some cur) = e.deadline < cur.deadline
