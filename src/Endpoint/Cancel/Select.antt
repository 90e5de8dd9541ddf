-- ===== src/Endpoint/Cancel/Select.antt =====
-- The threads of a list that a test admits, and the walk along their links.
use chick.Common.{
  ℕ, ◌≡◌, ◌≢◌, refl, ◌∙◌, Bool, true, false, Option, some, none, List, [], ◌∷◌, ◌==◌, if◌then◌else◌,
  arith, Bool-cases, inl, inr,
}
use chick.Common.Chain.{has, IsDistinct, Seg}
use chick.Common.Chain
use chick.Thread.{Tcbs, ThreadState}
use chick.Thread.Queue.{TcbQueue, append}
use chick.Thread.Queue.Laws.{IsQueue}
use chick.Endpoint.Queue.{AllBlocked}

-- The threads of the list that the test admits, in order.
abbrev pub select : (ℕ → Bool) → List ℕ → List ℕ
select f [] = []
select f (x ∷ xs) = if f x then x ∷ select f xs else select f xs

-- Whether a thread sends with the badge.
abbrev pub has_badge : ℕ → Tcbs → ℕ → Bool
has_badge badge mem a = (mem a).ipc_state.badge == badge

-- The `next` pointers lead from the pointer through the threads of the list.
abbrev pub Ahead : Tcbs → Option ℕ → List ℕ → Type 0
Ahead mem p [] = p ≡ none
Ahead mem p (x ∷ xs) = (p ≡ some x) × Ahead mem (mem x).ep_next xs

pub Seg-Ahead :
    (mem : Tcbs) (p h l : Option ℕ) (xs : List ℕ)
    → Seg (λ a. (mem a).ep_next) (λ a. (mem a).ep_prev) p h l none xs
    → Ahead mem h xs
Seg-Ahead mem p h l [] s = s.0
Seg-Ahead mem p h l (x ∷ xs) s = (s.0, Seg-Ahead mem (some x) (mem x).ep_next l xs s.2)

pub Ahead-ext :
    (mem mem' : Tcbs) (p : Option ℕ) (xs : List ℕ)
    → ((a : ℕ) → has a xs ≡ true → (mem' a).ep_next ≡ (mem a).ep_next)
    → Ahead mem p xs
    → Ahead mem' p xs
Ahead-ext mem mem' p [] same w = w
Ahead-ext mem mem' p (x ∷ xs) same (e, w) = (
  e,
  rw (same x (ground arith))
      (Ahead-ext mem mem' (mem x).ep_next xs (λ a i. same a (ground arith)) w),
)

-- `append` changes no thread other than the one appended and those in the queue.
pub append-outside :
    (t : ℕ) (q : TcbQueue) (mem : Tcbs) (ys : List ℕ) (a : ℕ)
    → IsQueue q mem ys
    → has a ys ≡ false
    → t ≢ a
    → (append t q mem).1 a ≡ mem a
unfolding append
append-outside t q mem [] a i out ne = ground (arith, i.linked)
append-outside t q mem (y ∷ ys) a i out ne =
    let (z, e, j) =
      Chain.last_mem (λ b. (mem b).ep_next) (λ b. (mem b).ep_prev) none q.head q.tail none y ys
        i.linked in
    let ne' : z ≢ a = ground arith in ground (arith, e)

pub select-has :
    (f : ℕ → Bool) (xs : List ℕ) (a : ℕ) → has a xs ≡ false → has a (select f xs) ≡ false
select-has f [] a h = h
select-has f (x ∷ xs) a h = elim (Bool-cases (f x)) [
  | inl e ↦ rw e (ground (arith, select-has f xs a))
  | inr e ↦ rw e (select-has f xs a (ground arith))
]

-- A thread that the test does not admit is not among those that it admits.
pub select-refused :
    (f : ℕ → Bool) (xs : List ℕ) (a : ℕ) → f a ≡ false → has a (select f xs) ≡ false
select-refused f [] a h = refl
select-refused f (x ∷ xs) a h = elim (Bool-cases (f x)) [
  | inl e ↦ rw e (
      let ne : x ≢ a = (λ q. absurd (ground (arith, e, h, q))) in
      ground (arith, select-refused f xs a))
  | inr e ↦ rw e (select-refused f xs a h)
]

pub AllBlocked-select :
    (mem mem' : Tcbs) (at : ℕ) (s : ThreadState) (g : ℕ → Bool) (xs : List ℕ)
    → ((a : ℕ)
        → g a ≡ true
        → ((mem' a).state ≡ (mem a).state) × ((mem' a).blocking_object ≡ (mem a).blocking_object))
    → AllBlocked mem at s xs
    → AllBlocked mem' at s (select g xs)
AllBlocked-select mem mem' at s g [] same b = tt
AllBlocked-select mem mem' at s g (x ∷ xs) same (p, q, b) = elim (Bool-cases (g x)) [
  | inl e ↦ rw e ((same x e).0 ∙ p, (same x e).1 ∙ q, AllBlocked-select mem mem' at s g xs same b)
  | inr e ↦ rw e (AllBlocked-select mem mem' at s g xs same b)
]
