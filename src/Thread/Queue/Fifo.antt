-- ===== src/Thread/Queue/Fifo.antt =====
-- What `TcbQueue` of kernel/src/objects/tcb.rs promises: a queue without repetition, first in, first
-- out, of which any thread can be taken out.
use chick.Common.{
  ℕ, ◌≡◌, refl, ap, Bool, true, not, ◌&&◌, Option, none, some, List, [], ◌∷◌, ◌++◌, ◌==◌,
  if◌then◌else◌, Bool-cases, inl, inr, arith,
}
use chick.Common.Chain.{has}
use chick.Thread.{Tcbs}
use chick.Thread.Queue.{TcbQueue, append, dequeue_head, remove}
use chick.Thread.Queue.Laws.{
  IsQueue, append-IsQueue, dequeue_head-IsQueue, dequeue_head-empty, remove-IsQueue,
}

-- A call of one of the three methods.
pub data Call : Type 0 where
  appends : (tcb : ℕ) → Call
  dequeues : Call
  removes : (tcb : ℕ) → Call

abbrev pub erase : ℕ → List ℕ → List ℕ
erase t [] = []
erase t (x ∷ xs) = if t == x then xs else x ∷ erase t xs

-- What the caller has to ensure: an appended thread is in no queue, a removed one in this queue.
abbrev pub is_allowed : Call → List ℕ → Bool
is_allowed (appends t) xs = not (has t xs)
is_allowed dequeues xs = true
is_allowed (removes t) xs = has t xs

-- A call on the list of the threads, with its result.
abbrev pub promised : Call → List ℕ → Option ℕ × List ℕ
promised (appends t) xs = (none, xs ++ t ∷ [])
promised dequeues [] = (none, [])
promised dequeues (x ∷ xs) = (some x, xs)
promised (removes t) xs = (none, erase t xs)

-- The same call of the code.
unfoldable pub call : Call → TcbQueue → Tcbs → Option ℕ × TcbQueue × Tcbs
unfolding append dequeue_head remove
call (appends t) q mem = let (q1, mem1) = append t q mem in (none, q1, mem1)
call dequeues q mem = dequeue_head q mem
call (removes t) q mem = let (q1, mem1) = remove t q mem in (none, q1, mem1)

abbrev pub all_allowed : List Call → List ℕ → Bool
all_allowed [] xs = true
all_allowed (c ∷ cs) xs = is_allowed c xs && all_allowed cs (promised c xs).1

-- The results of calls one after the other, and what they leave.
abbrev pub promised_all : List Call → List ℕ → List (Option ℕ) × List ℕ
promised_all [] xs = ([], xs)
promised_all (c ∷ cs) xs =
    let (r, ys) = promised c xs in let (rs, zs) = promised_all cs ys in (r ∷ rs, zs)

unfoldable pub call_all : List Call → TcbQueue → Tcbs → List (Option ℕ) × TcbQueue × Tcbs
unfolding call
call_all [] q mem = ([], q, mem)
call_all (c ∷ cs) q mem =
    let (r, q1, mem1) = call c q mem in
    let (rs, q2, mem2) = call_all cs q1 mem1 in (r ∷ rs, q2, mem2)

has-split :
    (t : ℕ) (xs : List ℕ)
    → has t xs ≡ true
    → (ys zs : List ℕ) × (xs ≡ ys ++ t ∷ zs) × (erase t xs ≡ ys ++ zs)
has-split t [] h = absurd (cc)
has-split t (x ∷ xs) h = elim (Bool-cases (t == x)) [
  | inl e ↦ ([], xs, ground arith, ground arith)
  | inr e ↦
      let (ys, zs, split, erased) = has-split t xs (ground arith) in
      (x ∷ ys, zs, ap (λ (l : List ℕ). x ∷ l) split, rw e (ap (λ (l : List ℕ). x ∷ l) erased))
]

call-promised :
    (c : Call) (q : TcbQueue) (mem : Tcbs) (xs : List ℕ)
    → IsQueue q mem xs
    → is_allowed c xs ≡ true
    → let (r, q1, mem1) = call c q mem in
      (r ≡ (promised c xs).0) × IsQueue q1 mem1 (promised c xs).1
unfolding call
call-promised (appends t) q mem xs i h = (refl, append-IsQueue t q mem xs i (ground arith))
call-promised dequeues q mem [] i h =
    let e = dequeue_head-empty q mem i in (ap (λ (r : Option ℕ × TcbQueue × Tcbs). r.0) e, rw e i)
call-promised dequeues q mem (x ∷ xs) i h =
    let (found, i', next, prev) = dequeue_head-IsQueue q mem x xs i in (found, i')
call-promised (removes t) q mem xs i h =
    let (ys, zs, split, erased) = has-split t xs h in
    let (i', next, prev) = remove-IsQueue t q mem ys zs (rw⁻¹ split i) in (refl, rw erased i')

-- For calls that their callers may make, one after the other, from a queue of any threads, the code
-- gives the results of the list, and what it leaves is the queue of the threads that are left there.
pub call_all-promised :
    (cs : List Call) (q : TcbQueue) (mem : Tcbs) (xs : List ℕ)
    → IsQueue q mem xs
    → all_allowed cs xs ≡ true
    → let (rs, q1, mem1) = call_all cs q mem in
      (rs ≡ (promised_all cs xs).0) × IsQueue q1 mem1 (promised_all cs xs).1
unfolding call_all
call_all-promised [] q mem xs i h = (refl, i)
call_all-promised (c ∷ cs) q mem xs i h =
    let (first, i1) = call-promised c q mem xs i (ground arith) in
    let (rest, i2) =
      call_all-promised cs (call c q mem).1 (call c q mem).2 (promised c xs).1 i1 (ground arith) in
    (cc, i2)
