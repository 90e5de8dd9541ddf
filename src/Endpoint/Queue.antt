-- ===== src/Endpoint/Queue.antt =====
-- The invariant of an endpoint: its queue holds the threads that wait on it, in order.
use chick.Common.{
  ℕ, ◌⊎◌, inl, inr, ◌≡◌, refl, ◌∙◌, ap, Bool, true, false, none, some, List, [], ◌∷◌, ◌++◌, arith,
}
use mathlib.Core.Path.{subst}
use chick.Common.Chain.{Seg, IsDistinct, has}
use chick.Common.Chain
use chick.Thread.{Tcb, Tcbs, ThreadState, inactive, blocked_on_send, blocked_on_receive}
use chick.Thread.Queue.{TcbQueue, append, dequeue_head, remove}
use chick.Thread.Queue.Laws.{IsQueue}
use chick.Endpoint.{EndpointState, idle, send, recv, EndpointObj}

-- A thread apart from its links.
abbrev pub unlinked : Tcb → Tcb
unlinked c = record c { ep_next = none; ep_prev = none }

-- The operations on queues change links only.
pub append-unlinked :
    (t : ℕ) (q : TcbQueue) (mem : Tcbs) (a : ℕ) → unlinked ((append t q mem).1 a) ≡ unlinked (mem a)
unfolding append
append-unlinked t q mem a = ground arith

pub dequeue_head-unlinked :
    (q : TcbQueue) (mem : Tcbs) (a : ℕ) → unlinked ((dequeue_head q mem).2 a) ≡ unlinked (mem a)
unfolding dequeue_head
dequeue_head-unlinked q mem a = ground arith

pub remove-unlinked :
    (t : ℕ) (q : TcbQueue) (mem : Tcbs) (a : ℕ) → unlinked ((remove t q mem).1 a) ≡ unlinked (mem a)
unfolding remove
remove-unlinked t q mem a = ground arith

-- A change that keeps the links of the threads in a queue keeps the queue.
pub IsQueue-ext :
    (q : TcbQueue) (mem mem' : Tcbs) (xs : List ℕ)
    → ((a : ℕ) → has a xs ≡ true → (mem' a).ep_next ≡ (mem a).ep_next)
    → ((a : ℕ) → has a xs ≡ true → (mem' a).ep_prev ≡ (mem a).ep_prev)
    → IsQueue q mem xs
    → IsQueue q mem' xs
IsQueue-ext q mem mem' xs en ep i = record {
  distinct = i.distinct;
  linked =
      Chain.Seg-ext (λ a. (mem a).ep_next) (λ a. (mem a).ep_prev) (λ a. (mem' a).ep_next)
        (λ a. (mem' a).ep_prev) none q.head q.tail none xs en ep i.linked;
}

abbrev pub is_idle : EndpointState → Bool
is_idle idle = true
is_idle send = false
is_idle recv = false

-- The state of the threads that wait on an endpoint.
abbrev pub waiting : EndpointState → ThreadState
waiting idle = inactive
waiting send = blocked_on_send
waiting recv = blocked_on_receive

-- All the threads have the state, and wait on the endpoint at the address.
abbrev pub AllBlocked : Tcbs → ℕ → ThreadState → List ℕ → Type 0
AllBlocked mem at s [] = Unit {0}
AllBlocked mem at s (x ∷ xs) =
    ((mem x).state ≡ s) × ((mem x).blocking_object ≡ some at) × AllBlocked mem at s xs

-- The endpoint at the address queues exactly the threads of the list, in order; it is idle exactly
-- if there are none, and otherwise they are blocked on it, all as senders or all as receivers.
pub record IsEndpoint (mem : Tcbs) (at : ℕ) (ep : EndpointObj) (xs : List ℕ) : Type 0 where
  pub queue : IsQueue ep.queue mem xs
  pub idle_if_none : is_idle ep.state ≡ Chain.is_empty xs
  pub blocked : AllBlocked mem at (waiting ep.state) xs

pub AllBlocked-ext :
    (mem mem' : Tcbs) (at : ℕ) (s : ThreadState) (xs : List ℕ)
    → ((a : ℕ) → has a xs ≡ true → (mem' a).state ≡ (mem a).state)
    → ((a : ℕ) → has a xs ≡ true → (mem' a).blocking_object ≡ (mem a).blocking_object)
    → AllBlocked mem at s xs
    → AllBlocked mem' at s xs
AllBlocked-ext mem mem' at s [] es eb b = tt
AllBlocked-ext mem mem' at s (x ∷ xs) es eb (p, q, r) = (
  es x (ground arith) ∙ p,
  eb x (ground arith) ∙ q,
  AllBlocked-ext mem mem' at s xs (λ a i. es a (ground arith)) (λ a i. eb a (ground arith)) r,
)

pub AllBlocked-snoc :
    (mem : Tcbs) (at : ℕ) (s : ThreadState) (xs : List ℕ) (t : ℕ)
    → AllBlocked mem at s xs
    → (mem t).state ≡ s
    → (mem t).blocking_object ≡ some at
    → AllBlocked mem at s (xs ++ t ∷ [])
AllBlocked-snoc mem at s [] t b p q = (p, q, tt)
AllBlocked-snoc mem at s (x ∷ xs) t (u, v, b) p q = (u, v, AllBlocked-snoc mem at s xs t b p q)

-- A change that keeps links, states and blocking objects of the waiting threads keeps the
-- endpoint.
pub IsEndpoint-ext :
    (mem mem' : Tcbs) (at : ℕ) (ep : EndpointObj) (xs : List ℕ)
    → ((a : ℕ) → has a xs ≡ true → mem' a ≡ mem a)
    → IsEndpoint mem at ep xs
    → IsEndpoint mem' at ep xs
IsEndpoint-ext mem mem' at ep xs same i = record {
  queue =
      IsQueue-ext ep.queue mem mem' xs (λ a h. ap (λ (c : Tcb). c.ep_next) (same a h))
        (λ a h. ap (λ (c : Tcb). c.ep_prev) (same a h)) i.queue;
  idle_if_none = i.idle_if_none;
  blocked =
      AllBlocked-ext mem mem' at (waiting ep.state) xs (λ a h. ap (λ (c : Tcb). c.state) (same a h))
        (λ a h. ap (λ (c : Tcb). c.blocking_object) (same a h)) i.blocked;
}

-- The threads wait in the state, whether there are any or not.
pub all_waiting :
    (mem : Tcbs) (at : ℕ) (s s' : EndpointState) (xs : List ℕ)
    → is_idle s ≡ Chain.is_empty xs
    → (is_idle s ≡ false → s ≡ s')
    → AllBlocked mem at (waiting s) xs
    → AllBlocked mem at (waiting s') xs
all_waiting mem at s s' [] e f b = tt
all_waiting mem at s s' (x ∷ xs) e f b =
    subst (λ (t : EndpointState). AllBlocked mem at (waiting t) (x ∷ xs)) (f e) b

-- The states and blocking objects after the links have changed.
pub AllBlocked-unlinked :
    (mem mem' : Tcbs) (at : ℕ) (s : ThreadState) (xs : List ℕ)
    → ((a : ℕ) → unlinked (mem' a) ≡ unlinked (mem a))
    → AllBlocked mem at s xs
    → AllBlocked mem' at s xs
AllBlocked-unlinked mem mem' at s xs same b =
    AllBlocked-ext mem mem' at s xs (λ a h. ap (λ (c : Tcb). c.state) (same a))
      (λ a h. ap (λ (c : Tcb). c.blocking_object) (same a)) b

pub state-cases : (s : EndpointState) → (s ≡ idle) ⊎ (s ≡ send) ⊎ (s ≡ recv)
state-cases idle = inl refl
state-cases send = inr (inl refl)
state-cases recv = inr (inr refl)
