-- ===== src/Scheduler/Heap/Sample.antt =====
-- A heap that meets `IsHeap`: a list, of which `pop` takes an entry with the least deadline.
use chick.Common.{
  ℕ, ◌+◌, ◌≤◌, ◌<◌, ◌≡◌, refl, Option, none, some, List, [], ◌∷◌, ltb, length, if◌then◌else◌, arith,
  Bool-cases, inl, inr,
}
use chick.Scheduler.{Entry, HeapOps, max_tcb_per_core}
use chick.Scheduler.Heap.{same, top, IsHeap}

-- An entry with the least deadline among `e` and the list, and the others.
take_least : Entry → List Entry → Entry × List Entry
take_least e [] = (e, [])
take_least e (x ∷ xs) =
    let (least, rest) = take_least (if ltb x.deadline e.deadline then x else e) xs in
    (least, (if ltb x.deadline e.deadline then e else x) ∷ rest)

pop : List Entry → Option (Entry × List Entry)
pop [] = none
pop (x ∷ xs) = some (take_least x xs)

abbrev pub list_heap : HeapOps (List Entry)
unfolding pop take_least
list_heap = record {
  new = [];
  push = λ q e. if ltb (length q) max_tcb_per_core then some (e ∷ q) else none;
  pop = pop;
  peek = λ q. top (pop q);
}

abbrev pub count : Entry → List Entry → ℕ
count x [] = 0
count x (y ∷ ys) = count x ys + same x y

take_least-count :
    (e : Entry) (xs : List Entry) (x : Entry)
    → count x xs + same x e ≡ count x (take_least e xs).1 + same x (take_least e xs).0
unfolding take_least
take_least-count e [] x = refl
take_least-count e (y ∷ ys) x =
    ground (arith, take_least-count (if ltb y.deadline e.deadline then y else e) ys x)

take_least-length : (e : Entry) (xs : List Entry) → length (take_least e xs).1 ≡ length xs
unfolding take_least
take_least-length e [] = refl
take_least-length e (y ∷ ys) =
    ground (arith, take_least-length (if ltb y.deadline e.deadline then y else e) ys)

take_least-le :
    (e : Entry) (xs : List Entry) (x : Entry)
    → 0 < count x xs + same x e
    → (take_least e xs).0.deadline ≤ x.deadline
unfolding take_least
take_least-le e [] x h = ground arith
take_least-le e (y ∷ ys) x h = elim (Bool-cases (ltb y.deadline e.deadline)) [
  | inl lt ↦ rw lt (ground (arith, take_least-le y ys x, take_least-le y ys y))
  | inr ge ↦ rw ge (ground (arith, take_least-le e ys x, take_least-le e ys e))
]

count-le-length : (x : Entry) (q : List Entry) → count x q ≤ length q
count-le-length x [] = omega arith
count-le-length x (y ∷ ys) = ground (arith, count-le-length x ys)

pub list_heap-IsHeap : IsHeap list_heap
unfolding pop take_least
list_heap-IsHeap = record {
  size = length;
  count = count;
  count-le-size = count-le-length;
  size-new = refl;
  push_room = λ q e h. (e ∷ q, ground arith, omega arith, λ x. refl);
  push_full = λ q e h. ground arith;
  pop_empty = empty;
  pop_least = least;
  peek-pop = λ q. refl;
}
  where
    empty : (q : List Entry) → length q ≡ 0 → pop q ≡ none
    empty [] h = refl
    empty (x ∷ xs) h = absurd (omega arith)

    least :
        (q : List Entry)
        → 0 < length q
        → (e : Entry) × (q' : List Entry) × (pop q ≡ some (e, q'))
          × (length q ≡ length q' + 1)
          × ((x : Entry) → count x q ≡ count x q' + same x e)
          × ((x : Entry) → 0 < count x q → e.deadline ≤ x.deadline)
    least [] h = absurd (omega arith)
    least (y ∷ ys) h = (
      (take_least y ys).0,
      (take_least y ys).1,
      refl,
      omega (arith, take_least-length y ys),
      take_least-count y ys,
      take_least-le y ys,
    )

-- The size is the length of the list.
pub size_list_heap : (q : List Entry) → list_heap-IsHeap.size q ≡ length q
unfolding list_heap-IsHeap
size_list_heap q = refl
