-- ===== src/Cnode/Spec/Chain.antt =====
-- The chain of the model is the chain that the source specifies.
use chick.Common.{
  ℕ, zero, suc, ◌-◌, ◌<◌, ◌≡◌, ◌↔◌, refl, sym, ap, ◌∙◌, true, Option, none, some, List, [], ◌∷◌,
  length, get_elem?, arith, ◌==◌, Bool-cases, inl, inr,
}
use chick.Common.Chain.{Seg, IsDistinct, has, first}
use chick.Cnode.{Slots}
use chick.Cnode.Mdb.Laws.{IsChain, nexts, prevs}
use chick.Cnode.Spec.{WellFormed, Acyclic, AdjacentLinked}

get-lt : (xs : List ℕ) (i a : ℕ) → get_elem? xs i ≡ some a → i < length xs
get-lt [] i a h = absurd (cc)
get-lt (x ∷ xs) zero a h = ground arith
get-lt (x ∷ xs) (suc i) a h = omega (arith, get-lt xs i a h)

get-has : (xs : List ℕ) (i a : ℕ) → get_elem? xs i ≡ some a → has a xs ≡ true
get-has [] i a h = absurd (cc)
get-has (x ∷ xs) zero a h = ground arith
get-has (x ∷ xs) (suc i) a h = ground (arith, get-has xs i a h)

has-get :
    (xs : List ℕ) (a : ℕ) → has a xs ≡ true → (i : ℕ) × (i < length xs) × (get_elem? xs i ≡ some a)
has-get [] a h = absurd (cc)
has-get (x ∷ xs) a h = elim (Bool-cases (x == a)) [
  | inl e ↦ (0, ground arith, ground arith)
  | inr e ↦ let (i, lt, g) = has-get xs a (ground arith) in (suc i, omega arith, g)
]

get-some : (xs : List ℕ) (i : ℕ) → i < length xs → (a : ℕ) × (get_elem? xs i ≡ some a)
get-some [] i h = absurd (omega arith)
get-some (x ∷ xs) zero h = (x, refl)
get-some (x ∷ xs) (suc i) h = get-some xs i (omega arith)

IsDistinct-Acyclic : (xs : List ℕ) → IsDistinct xs → Acyclic xs
IsDistinct-Acyclic [] d i j lt small = absurd (omega arith)
IsDistinct-Acyclic (x ∷ xs) d zero zero lt small = absurd (omega arith)
IsDistinct-Acyclic (x ∷ xs) d (suc i) zero lt small = absurd (omega arith)
IsDistinct-Acyclic (x ∷ xs) d zero (suc j) lt small = λ e. let q = get-has xs j x (sym e) in cc
IsDistinct-Acyclic (x ∷ xs) d (suc i) (suc j) lt small =
    IsDistinct-Acyclic xs d.1 i j (omega arith) (omega arith)

Acyclic-IsDistinct : (xs : List ℕ) → Acyclic xs → IsDistinct xs
Acyclic-IsDistinct [] c = tt
Acyclic-IsDistinct (x ∷ xs) c = (
  elim (Bool-cases (has x xs)) [
    | inl h ↦
        let (j, lt, g) = has-get xs x h in absurd (c 0 (suc j) (omega arith) (omega arith) (sym g))
    | inr h ↦ h
  ],
  Acyclic-IsDistinct xs (λ i j lt small. c (suc i) (suc j) (omega arith) (omega arith)),
)

module _ (mem : Slots) where
  Seg-adjacent :
      (p h l : Option ℕ) (xs : List ℕ) (i : ℕ)
      → Seg (nexts mem) (prevs mem) p h l none xs
      → AdjacentLinked mem xs i
  Seg-adjacent p h l [] i s a b e f = absurd (cc)
  Seg-adjacent p h l (x ∷ []) zero s a b e f = absurd (cc)
  Seg-adjacent p h l (x ∷ (y ∷ ys)) zero s a b e f = (ground arith, ground arith)
  Seg-adjacent p h l (x ∷ xs) (suc i) s a b e f =
      Seg-adjacent (some x) (nexts mem x) l xs i s.2 a b e f

  Seg-last :
      (p h l : Option ℕ) (xs : List ℕ) (i a : ℕ)
      → Seg (nexts mem) (prevs mem) p h l none xs
      → get_elem? xs i ≡ some a
      → length xs ≡ suc i
      → nexts mem a ≡ none
  Seg-last p h l [] i a s e n = absurd (cc)
  Seg-last p h l (x ∷ []) zero a s e n = ground arith
  Seg-last p h l (x ∷ (y ∷ ys)) zero a s e n = absurd (omega arith)
  Seg-last p h l (x ∷ xs) (suc i) a s e n =
      Seg-last (some x) (nexts mem x) l xs i a s.2 e (omega arith)

  build :
      (p : Option ℕ) (xs : List ℕ)
      → ((a : ℕ) → get_elem? xs 0 ≡ some a → prevs mem a ≡ p)
      → ((i : ℕ) → AdjacentLinked mem xs i)
      → ((i a : ℕ) → get_elem? xs i ≡ some a → length xs ≡ suc i → nexts mem a ≡ none)
      → (l : Option ℕ) × Seg (nexts mem) (prevs mem) p (first xs) l none xs
  build p [] start adj last = (p, (refl, refl))
  build p (x ∷ []) start adj last = (some x, (refl, start x refl, (last 0 x refl refl, refl)))
  build p (x ∷ (y ∷ ys)) start adj last =
      let (l, s) =
        build (some x) (y ∷ ys) (λ a e. ground (arith, (adj 0 x a refl e).1))
          (λ i a b e f. adj (suc i) a b e f) (λ i a e n. last (suc i) a e (omega arith)) in
      (l, (refl, start x refl, rw (adj 0 x y refl refl).0 s))

  IsChain-WellFormed : (xs : List ℕ) → IsChain mem xs → WellFormed mem xs
  IsChain-WellFormed xs c = record {
    no_prev = head c.last xs c.linked;
    no_next = tail c.last xs c.linked;
    adjacent = λ i lt. Seg-adjacent none (first xs) c.last xs i c.linked;
  }
    where
      head :
          (l : Option ℕ) (xs : List ℕ)
          → Seg (nexts mem) (prevs mem) none (first xs) l none xs
          → (a : ℕ) → get_elem? xs 0 ≡ some a
          → prevs mem a ≡ none
      head l [] s a e = absurd (cc)
      head l (x ∷ xs) s a e = ground arith

      tail :
          (l : Option ℕ) (xs : List ℕ)
          → Seg (nexts mem) (prevs mem) none (first xs) l none xs
          → (a : ℕ) → get_elem? xs (length xs - 1) ≡ some a
          → nexts mem a ≡ none
      tail l [] s a e = absurd (cc)
      tail l (x ∷ xs) s a e =
          let q : length xs ≡ length (x ∷ xs) - 1 = omega arith in
          Seg-last none (some x) l (x ∷ xs) (length xs) a s
            (ap (λ (t : ℕ). get_elem? (x ∷ xs) t) q ∙ e) refl

  WellFormed-IsChain : (xs : List ℕ) → WellFormed mem xs → Acyclic xs → IsChain mem xs
  WellFormed-IsChain xs w c =
      let (l, s) = build none xs w.no_prev adj last in
      record { distinct = Acyclic-IsDistinct xs c; last = l; linked = s }
    where
      adj : (i : ℕ) → AdjacentLinked mem xs i
      adj i a b e f = w.adjacent i (omega (arith, get-lt xs (suc i) b f)) a b e f

      last : (i a : ℕ) → get_elem? xs i ≡ some a → length xs ≡ suc i → nexts mem a ≡ none
      last i a e n = w.no_next a (rw (let q : length xs - 1 ≡ i = omega arith in q) e)

  -- A list of slots is a chain of the model exactly if it is well formed and acyclic as the source
  -- specifies.
  pub IsChain-iff : (xs : List ℕ) → IsChain mem xs ↔ (WellFormed mem xs × Acyclic xs)
  IsChain-iff xs = (
    λ c. (IsChain-WellFormed xs c, IsDistinct-Acyclic xs c.distinct),
    λ (w, c). WellFormed-IsChain xs w c,
  )
