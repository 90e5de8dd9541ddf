-- ===== src/Thread/Queue/Laws.antt =====
-- The queue is a first-in first-out list of distinct threads.
use chick.Common.{
  ℕ, ◌≡◌, ◌≢◌, refl, true, false, Option, none, some, List, [], ◌∷◌, ◌++◌, is_none, if◌then◌else◌,
  arith,
}
use chick.Common.Chain.Edit.{Seg-snoc, Seg-unlink}
use chick.Common.Chain.{Seg, IsDistinct, has, points}
use chick.Common.Chain
use chick.Thread.{Tcbs}
use chick.Thread.Queue.{TcbQueue, empty, is_empty, append, dequeue_head, remove}

-- The queue holds exactly the threads of the list, in order, and links them both ways.
pub record IsQueue (q : TcbQueue) (mem : Tcbs) (xs : List ℕ) : Type 0 where
  pub distinct : IsDistinct xs
  pub linked : Seg (λ a. (mem a).ep_next) (λ a. (mem a).ep_prev) none q.head q.tail none xs

-- A new queue is empty.
pub empty-IsQueue : (mem : Tcbs) → IsQueue empty mem []
empty-IsQueue mem = record { distinct = tt; linked = (refl, refl) }

pub is_empty-IsQueue :
    (q : TcbQueue) (mem : Tcbs) (xs : List ℕ) → IsQueue q mem xs → is_empty q ≡ Chain.is_empty xs
unfolding is_empty
is_empty-IsQueue q mem [] i = rw i.linked.0
is_empty-IsQueue q mem (x ∷ xs) i = rw i.linked.0

append-IsDistinct :
    (xs : List ℕ) (t : ℕ) → IsDistinct xs → has t xs ≡ false → IsDistinct (xs ++ t ∷ [])
append-IsDistinct [] t d out = (refl, tt)
append-IsDistinct (x ∷ xs) t d out =
    (ground (arith, Chain.has-append x xs (t ∷ [])), append-IsDistinct xs t d.1 (ground arith))

abbrev nexts : Tcbs → ℕ → Option ℕ
nexts mem a = (mem a).ep_next

abbrev prevs : Tcbs → ℕ → Option ℕ
prevs mem a = (mem a).ep_prev

-- What `append` does to the pointers, given where the queue ended.
record Appended (tcb : ℕ) (q : TcbQueue) (mem : Tcbs) (xs : List ℕ) : Type 0 where
  at_head : (append tcb q mem).0.head ≡ (if Chain.is_empty xs then some tcb else q.head)
  at_tail : (append tcb q mem).0.tail ≡ some tcb
  next_self : nexts (append tcb q mem).1 tcb ≡ none
  prev_self : prevs (append tcb q mem).1 tcb ≡ q.tail
  next_other :
      (a : ℕ)
      → has a xs ≡ true
      → nexts (append tcb q mem).1 a ≡ (if points q.tail a then some tcb else nexts mem a)
  prev_other : (a : ℕ) → has a xs ≡ true → prevs (append tcb q mem).1 a ≡ prevs mem a

append-Appended :
    (tcb : ℕ) (q : TcbQueue) (mem : Tcbs) (xs : List ℕ)
    → IsQueue q mem xs
    → has tcb xs ≡ false
    → Appended tcb q mem xs
unfolding append
append-Appended tcb q mem [] i out = record {
  at_head = ground (arith, i.linked);
  at_tail = ground (arith, i.linked);
  next_self = ground (arith, i.linked);
  prev_self = ground (arith, i.linked);
  next_other = λ a j. cc j;
  prev_other = λ a j. cc j;
}
append-Appended tcb q mem (x ∷ xs) i out =
    let (z, e, j) = Chain.last_mem (nexts mem) (prevs mem) none q.head q.tail none x xs i.linked in
    let ne : z ≢ tcb = ground arith in
    record {
      at_head = ground (arith, e);
      at_tail = ground (arith, e);
      next_self = ground (arith, e);
      prev_self = ground (arith, e);
      next_other = λ a k. ground (arith, e);
      prev_other = λ a k. ground (arith, e);
    }

-- `append` puts a thread that is not in the queue at its end.
pub append-IsQueue :
    (tcb : ℕ) (q : TcbQueue) (mem : Tcbs) (xs : List ℕ)
    → IsQueue q mem xs
    → has tcb xs ≡ false
    → IsQueue (append tcb q mem).0 (append tcb q mem).1 (xs ++ tcb ∷ [])
append-IsQueue tcb q mem xs i out = record {
  distinct = append-IsDistinct xs tcb i.distinct out;
  linked =
      rw (p.at_head, p.at_tail)
        (Seg-snoc (nexts mem) (prevs mem) (nexts (append tcb q mem).1) (prevs (append tcb q mem).1)
          none q.head q.tail xs tcb i.distinct p.next_self p.prev_self p.next_other p.prev_other
          i.linked);
}
  where
    p : Appended tcb q mem xs
    p = append-Appended tcb q mem xs i out

-- What `dequeue_head` does to the pointers.
record Dequeued (q : TcbQueue) (mem : Tcbs) (x : ℕ) (xs : List ℕ) : Type 0 where
  found : (dequeue_head q mem).0 ≡ some x
  at_head : (dequeue_head q mem).1.head ≡ nexts mem x
  at_tail : (dequeue_head q mem).1.tail ≡ (if Chain.is_empty xs then none else q.tail)
  next_self : nexts (dequeue_head q mem).2 x ≡ none
  prev_self : prevs (dequeue_head q mem).2 x ≡ none
  next_other : (a : ℕ) → has a xs ≡ true → nexts (dequeue_head q mem).2 a ≡ nexts mem a
  prev_other :
      (a : ℕ)
      → has a xs ≡ true
      → prevs (dequeue_head q mem).2 a ≡ (if points (nexts mem x) a then none else prevs mem a)

dequeue_head-Dequeued :
    (q : TcbQueue) (mem : Tcbs) (x : ℕ) (xs : List ℕ) → IsQueue q mem (x ∷ xs) → Dequeued q mem x xs
unfolding dequeue_head
dequeue_head-Dequeued q mem x [] i = record {
  found = ground (arith, i.linked);
  at_head = ground (arith, i.linked);
  at_tail = ground (arith, i.linked);
  next_self = ground (arith, i.linked);
  prev_self = ground (arith, i.linked);
  next_other = λ a j. cc j;
  prev_other = λ a j. cc j;
}
dequeue_head-Dequeued q mem x (y ∷ xs) i = record {
  found = ground (arith, i.linked);
  at_head = ground (arith, i.linked);
  at_tail = ground (arith, i.linked);
  next_self = ground (arith, i.linked);
  prev_self = ground (arith, i.linked);
  next_other = λ a j. ground (arith, i.linked);
  prev_other = λ a j. ground (arith, i.linked);
}

-- `dequeue_head` takes the first thread out of the queue and unlinks it.
pub dequeue_head-IsQueue :
    (q : TcbQueue) (mem : Tcbs) (x : ℕ) (xs : List ℕ)
    → IsQueue q mem (x ∷ xs)
    → let (r, q', mem') = dequeue_head q mem in
      (r ≡ some x) × IsQueue q' mem' xs × (nexts mem' x ≡ none) × (prevs mem' x ≡ none)
dequeue_head-IsQueue q mem x xs i = (
  p.found,
  record {
    distinct = i.distinct.1;
    linked =
        rw (p.at_head, p.at_tail)
          (Chain.Seg-repoint (nexts mem) (prevs mem) (nexts (dequeue_head q mem).2)
            (prevs (dequeue_head q mem).2) (some x) none (nexts mem x) q.tail none xs i.distinct.1
            p.next_other p.prev_other i.linked.2);
  },
  p.next_self,
  p.prev_self,
)
  where
    p : Dequeued q mem x xs
    p = dequeue_head-Dequeued q mem x xs i

pub dequeue_head-empty :
    (q : TcbQueue) (mem : Tcbs) → IsQueue q mem [] → dequeue_head q mem ≡ (none, q, mem)
unfolding dequeue_head
dequeue_head-empty q mem i = rw i.linked.0

-- What `remove` does to the pointers.
record Removed (tcb : ℕ) (q : TcbQueue) (mem : Tcbs) (ys zs : List ℕ) : Type 0 where
  at_head : (remove tcb q mem).0.head ≡ (if Chain.is_empty ys then nexts mem tcb else q.head)
  at_tail : (remove tcb q mem).0.tail ≡ (if Chain.is_empty zs then prevs mem tcb else q.tail)
  next_self : nexts (remove tcb q mem).1 tcb ≡ none
  prev_self : prevs (remove tcb q mem).1 tcb ≡ none
  next_other :
      (a : ℕ)
      → a ≢ tcb
      → nexts (remove tcb q mem).1 a
        ≡ (if points (prevs mem tcb) a then nexts mem tcb else nexts mem a)
  prev_other :
      (a : ℕ)
      → a ≢ tcb
      → prevs (remove tcb q mem).1 a
        ≡ (if points (nexts mem tcb) a then prevs mem tcb else prevs mem a)

-- The pointers of a node in the middle are empty exactly at the ends.
ends :
    (tcb : ℕ) (q : TcbQueue) (mem : Tcbs) (ys zs : List ℕ)
    → IsQueue q mem (ys ++ tcb ∷ zs)
    → (is_none (prevs mem tcb) ≡ Chain.is_empty ys) × (is_none (nexts mem tcb) ≡ Chain.is_empty zs)
ends tcb q mem ys zs i = (
  Chain.prev_empty (nexts mem) (prevs mem) q.head q.tail none ys tcb zs i.linked,
  Chain.next_empty (nexts mem) (prevs mem) none q.head q.tail ys tcb zs i.linked,
)

remove-Removed :
    (tcb : ℕ) (q : TcbQueue) (mem : Tcbs) (ys zs : List ℕ)
    → IsQueue q mem (ys ++ tcb ∷ zs)
    → Removed tcb q mem ys zs
unfolding remove
remove-Removed tcb q mem ys zs i = record {
  at_head = ground (arith, ends tcb q mem ys zs i);
  at_tail = ground (arith, ends tcb q mem ys zs i);
  next_self = ground arith;
  prev_self = ground arith;
  next_other = λ a j. ground arith;
  prev_other = λ a j. ground arith;
}

-- `remove` takes a thread out of the middle of the queue, unlinks it and keeps the order of the
-- others.
pub remove-IsQueue :
    (tcb : ℕ) (q : TcbQueue) (mem : Tcbs) (ys zs : List ℕ)
    → IsQueue q mem (ys ++ tcb ∷ zs)
    → let (q', mem') = remove tcb q mem in
      IsQueue q' mem' (ys ++ zs) × (nexts mem' tcb ≡ none) × (prevs mem' tcb ≡ none)
remove-IsQueue tcb q mem ys zs i = (
  record {
    distinct = d.1;
    linked =
        rw (p.at_head, p.at_tail)
          (Seg-unlink (nexts mem) (prevs mem) (nexts (remove tcb q mem).1)
            (prevs (remove tcb q mem).1) none q.head q.tail ys tcb zs i.distinct tt
            (λ a j. p.next_other a (Chain.ne_of_has a tcb (ys ++ zs) j d.0))
            (λ a j. p.prev_other a (Chain.ne_of_has a tcb (ys ++ zs) j d.0)) i.linked);
  },
  p.next_self,
  p.prev_self,
)
  where
    p : Removed tcb q mem ys zs
    p = remove-Removed tcb q mem ys zs i

    d : (has tcb (ys ++ zs) ≡ false) × IsDistinct (ys ++ zs)
    d = Chain.IsDistinct-middle ys tcb zs i.distinct
