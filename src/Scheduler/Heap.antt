-- ===== src/Scheduler/Heap.antt =====
-- What the executor relies on of heapless's `BinaryHeap<Entry, Min, 64>`: a heap is a bounded
-- multiset of entries, and `pop` and `peek` give one with the least deadline.
pub mod Sample
use chick.Common.{ℕ, suc, ◌+◌, ◌≤◌, ◌<◌, ◌≡◌, Option, none, some, ◌==◌, ◌&&◌, if◌then◌else◌}
use chick.Scheduler.{Entry, HeapOps, max_tcb_per_core}

-- One if the entries are the same, else zero.
abbrev pub same : Entry → Entry → ℕ
same a b = if a.deadline == b.deadline && a.tcb == b.tcb then 1 else 0

abbrev pub top : {Q : Type 0} → Option (Entry × Q) → Option Entry
top none = none
top (some (e, q)) = some e

pub record IsHeap {Q : Type 0} (ops : HeapOps Q) : Type 0 where
  pub size : Q → ℕ
  pub count : Entry → Q → ℕ
  pub count-le-size : (x : Entry) (q : Q) → count x q ≤ size q
  pub size-new : size ops.new ≡ 0
  pub push_room :
      (q : Q) (e : Entry)
      → size q < max_tcb_per_core
      → (q' : Q) × (ops.push q e ≡ some q')
        × (size q' ≡ size q + 1)
        × ((x : Entry) → count x q' ≡ count x q + same x e)
  pub push_full : (q : Q) (e : Entry) → max_tcb_per_core ≤ size q → ops.push q e ≡ none
  pub pop_empty : (q : Q) → size q ≡ 0 → ops.pop q ≡ none
  pub pop_least :
      (q : Q)
      → 0 < size q
      → (e : Entry) × (q' : Q) × (ops.pop q ≡ some (e, q'))
        × (size q ≡ size q' + 1)
        × ((x : Entry) → count x q ≡ count x q' + same x e)
        × ((x : Entry) → 0 < count x q → e.deadline ≤ x.deadline)
  pub peek-pop : (q : Q) → ops.peek q ≡ top (ops.pop q)
