-- ===== src/Scheduler/Wake.antt =====
-- Threads enter the heap by `enqueue`, `wake` and `yield_current`.
use chick.Common.{ℕ, ◌+◌, ◌≤◌, ◌<◌, ◌≡◌, refl, true, false, some, arith}
use chick.Common.Outcome.{done, err}
use chick.Thread.{Tcbs, inactive, ThreadState}
use chick.Scheduler.{
  Entry, HeapOps, Machine, panicked, queue_full, invalid_state, max_tcb_per_core, is_inactive,
  is_blocked, set_state, deadline_of, enqueue, wake, yield_current, with_exec,
}
use chick.Scheduler.Heap.{IsHeap, same}

module _ {Q : Type 0} (ops : HeapOps Q) where
  -- `wake` refuses a thread that is not blocked, and then changes nothing.
  pub wake-invalid_state :
      (t : ℕ) (m : Machine Q)
      → is_blocked (m.tcbs t).state ≡ false
      → wake ops t m ≡ (m, err invalid_state)
  unfolding wake
  wake-invalid_state t m h = rw (h, wake) refl

  pub inactive-not_blocked :
      (t : ℕ) (mem : Tcbs) → is_blocked (set_state inactive mem t t).state ≡ false
  unfolding is_blocked
  inactive-not_blocked t mem = ground arith

module _ {Q : Type 0} (ops : HeapOps Q) (heap : IsHeap ops) where
  open heap use {size, count, push_room, push_full}

  -- The entry under which a thread is enqueued.
  abbrev pub entry_of : ℕ → Machine Q → Entry
  entry_of t m = record { deadline = deadline_of ops t m; tcb = t }

  -- `m'` is `m` with one more entry in the heap, and the same threads and current entry.
  pub record Enqueued (m : Machine Q) (e : Entry) (m' : Machine Q) : Type 0 where
    pub tcbs : m'.tcbs ≡ m.tcbs
    pub current : m'.exec.current ≡ m.exec.current
    pub idle : m'.exec.idle ≡ m.exec.idle
    pub adds : (x : Entry) → count x m'.exec.ready ≡ count x m.exec.ready + same x e

  -- `enqueue` takes an inactive thread if there is room.
  pub enqueue-Enqueued :
      (t : ℕ) (m : Machine Q)
      → is_inactive (m.tcbs t).state ≡ true
      → size m.exec.ready < max_tcb_per_core
      → (m' : Machine Q) × (enqueue ops t m ≡ (m', done tt)) × Enqueued m (entry_of t m) m'
  unfolding enqueue
  enqueue-Enqueued t m h room =
      let (q, p, s, c) = push_room m.exec.ready (entry_of t m) room in
      (
        with_exec ops m (record (m.exec) { ready = q }),
        rw (h, p, enqueue) refl,
        record { tcbs = refl; current = refl; idle = refl; adds = c },
      )

  -- `enqueue` leaves the thread inactive, so that a second call enqueues it once more.
  pub enqueue-twice :
      (t : ℕ) (m : Machine Q)
      → is_inactive (m.tcbs t).state ≡ true
      → size m.exec.ready + 1 < max_tcb_per_core
      → (m1 m2 : Machine Q) × (enqueue ops t m ≡ (m1, done tt))
        × (enqueue ops t m1 ≡ (m2, done tt))
        × (count (entry_of t m) m2.exec.ready ≡ count (entry_of t m) m.exec.ready + 2)
  unfolding enqueue deadline_of
  enqueue-twice t m h room =
      let e = entry_of t m in
      let (q1, p1, s1, c1) = push_room m.exec.ready e (omega arith) in
      let (q2, p2, s2, c2) = push_room q1 e (omega arith) in
      (
        with_exec ops m (record (m.exec) { ready = q1 }),
        with_exec ops m (record (m.exec) { ready = q2 }),
        rw (h, p1, enqueue) refl,
        rw (h, p2, enqueue) refl,
        ground (arith, c1 e, c2 e),
      )

  pub deadline_of-set_state :
      (s : ThreadState) (t u : ℕ) (m : Machine Q)
      → deadline_of ops t (record m { tcbs = set_state s m.tcbs u }) ≡ deadline_of ops t m
  unfolding deadline_of
  deadline_of-set_state s t u m = ground arith

  -- `wake` makes a blocked thread inactive and enqueues it under its deadline if there is room.
  pub wake-Enqueued :
      (t : ℕ) (m : Machine Q)
      → is_blocked (m.tcbs t).state ≡ true
      → size m.exec.ready < max_tcb_per_core
      → (m' : Machine Q) × (wake ops t m ≡ (m', done tt))
        × Enqueued (record m { tcbs = set_state inactive m.tcbs t }) (entry_of t m) m'
  unfolding wake
  wake-Enqueued t m h room =
      let m1 : Machine Q = record m { tcbs = set_state inactive m.tcbs t } in
      let (m', r, w) = enqueue-Enqueued t m1 (ground arith) room in
      (m', rw (h, r, wake) refl, rw (deadline_of-set_state inactive t t m) at w)

  pub wake-full :
      (t : ℕ) (m : Machine Q)
      → is_blocked (m.tcbs t).state ≡ true
      → max_tcb_per_core ≤ size m.exec.ready
      → wake ops t m ≡ (record m { tcbs = set_state inactive m.tcbs t }, err queue_full)
  unfolding wake
  wake-full t m h full =
      let m1 : Machine Q = record m { tcbs = set_state inactive m.tcbs t } in
      let p = push_full m1.exec.ready (entry_of t m1) full in rw h (ground (arith, p))

  -- When the heap is full, `wake` reports it after the thread's state was overwritten: the thread
  -- is left inactive and in no queue, and a second `wake` refuses it.
  pub wake-queue_full :
      (t : ℕ) (m : Machine Q)
      → is_blocked (m.tcbs t).state ≡ true
      → max_tcb_per_core ≤ size m.exec.ready
      → (m' : Machine Q) × (wake ops t m ≡ (m', err queue_full))
        × (wake ops t m' ≡ (m', err invalid_state))
  wake-queue_full t m h full =
      let m1 : Machine Q = record m { tcbs = set_state inactive m.tcbs t } in
      (m1, wake-full t m h full, wake-invalid_state ops t m1 (inactive-not_blocked ops t m.tcbs))

  -- `yield_current` panics when the heap is full, since it pushes before it pops.
  pub yield_current-panicked :
      (m : Machine Q) (cur : Entry)
      → m.exec.current ≡ some cur
      → max_tcb_per_core ≤ size m.exec.ready
      → yield_current ops m ≡ panicked
  unfolding yield_current
  yield_current-panicked m cur e full = ground (arith, push_full m.exec.ready cur)
