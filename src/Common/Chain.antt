-- ===== src/Common/Chain.antt =====
-- Doubly linked lists: the nodes at the addresses of a list, linked by a `next` and a `prev`
-- pointer each. The queues of threads and the chain of capabilities are such lists.
pub mod Edit
use Prim.Native.Nat.{ℕ}
use mathlib.Core.Path.{◌≡◌, refl, ◌∙◌}
use mathlib.Core.Logic.{◌≢◌}
use mathlib.Core.Bool.{Bool, true, false, ◌||◌}
use mathlib.Core.Option.{Option, none, some}
use mathlib.Core.List.{List, [], ◌∷◌, ◌++◌}
use native.Mathlib.Omega.{arith}
use chick.Common.Tests.{◌==◌, if◌then◌else◌, ==_iff, is_none}

abbrev pub has : ℕ → List ℕ → Bool
has a [] = false
has a (x ∷ xs) = (a == x) || has a xs

abbrev pub IsDistinct : List ℕ → Type 0
IsDistinct [] = Unit {0}
IsDistinct (x ∷ xs) = (has x xs ≡ false) × IsDistinct xs

-- Whether a pointer is to the address.
abbrev pub points : Option ℕ → ℕ → Bool
points none a = false
points (some b) a = b == a

abbrev pub is_empty : List ℕ → Bool
is_empty [] = true
is_empty (x ∷ xs) = false

-- From `h` the `next` pointers lead through the nodes of the list to `m`, and from `l` the `prev`
-- pointers lead back through them to `p`.
abbrev pub Seg : (nx pv : ℕ → Option ℕ) → (p h l m : Option ℕ) → List ℕ → Type 0
Seg nx pv p h l m [] = (h ≡ m) × (l ≡ p)
Seg nx pv p h l m (x ∷ xs) = (h ≡ some x) × (pv x ≡ p) × Seg nx pv (some x) (nx x) l m xs

-- The pointer is to no node of the list.
abbrev pub Misses : Option ℕ → List ℕ → Type 0
Misses none xs = Unit {0}
Misses (some a) xs = has a xs ≡ false

pub Misses-points :
    (p : Option ℕ) (a : ℕ) (xs : List ℕ) → Misses p xs → has a xs ≡ true → points p a ≡ false
Misses-points none a xs out i = refl
Misses-points (some b) a xs out i = ground (arith, ==_iff b a)

pub has-append : (a : ℕ) (xs ys : List ℕ) → has a (xs ++ ys) ≡ (has a xs || has a ys)
has-append a [] ys = refl
has-append a (x ∷ xs) ys = ground (arith, has-append a xs ys)

module _ (nx pv nx' pv' : ℕ → Option ℕ) where
  -- A list survives changes elsewhere.
  pub Seg-ext :
      (p h l m : Option ℕ) (xs : List ℕ)
      → ((a : ℕ) → has a xs ≡ true → nx' a ≡ nx a)
      → ((a : ℕ) → has a xs ≡ true → pv' a ≡ pv a)
      → Seg nx pv p h l m xs
      → Seg nx' pv' p h l m xs
  Seg-ext p h l m [] en ep s = s
  Seg-ext p h l m (x ∷ xs) en ep s = (
    s.0,
    ep x (ground arith) ∙ s.1,
    rw (en x (ground arith)) (
        Seg-ext (some x) (nx x) l m xs (λ a i. en a (ground arith)) (λ a i. ep a (ground arith))
          s.2),
  )

  -- The list starts behind another node.
  pub Seg-repoint :
      (p p' h l m : Option ℕ) (xs : List ℕ)
      → IsDistinct xs
      → ((a : ℕ) → has a xs ≡ true → nx' a ≡ nx a)
      → ((a : ℕ) → has a xs ≡ true → pv' a ≡ (if points h a then p' else pv a))
      → Seg nx pv p h l m xs
      → Seg nx' pv' p' h (if is_empty xs then p' else l) m xs
  Seg-repoint p p' h l m [] d en ep s = (s.0, refl)
  Seg-repoint p p' h l m (x ∷ xs) d en ep s = (
    s.0,
    ground (arith, ep x),
    rw (en x (ground arith)) (
        Seg-ext (some x) (nx x) l m xs (λ a i. en a (ground arith)) (λ a i. ground (arith, ep a))
          s.2),
  )

module _ (nx pv : ℕ → Option ℕ) where
  -- The `prev` pointer of a node is to a node before it, unless the node is the first.
  pub prev_mem :
      (p h l m : Option ℕ) (y : ℕ) (ys : List ℕ) (t : ℕ) (zs : List ℕ)
      → Seg nx pv p h l m (y ∷ (ys ++ t ∷ zs))
      → (z : ℕ) × (pv t ≡ some z) × (has z (y ∷ ys) ≡ true)
  prev_mem p h l m y [] t zs s = (y, s.2.1, ground arith)
  prev_mem p h l m y (y' ∷ ys) t zs s =
      let (z, e, i) = prev_mem (some y) (nx y) l m y' ys t zs s.2 in (z, e, ground arith)

  -- The last node is one of the nodes.
  pub last_mem :
      (p h l m : Option ℕ) (x : ℕ) (xs : List ℕ)
      → Seg nx pv p h l m (x ∷ xs)
      → (z : ℕ) × (l ≡ some z) × (has z (x ∷ xs) ≡ true)
  last_mem p h l m x [] s = (x, s.2.1, ground arith)
  last_mem p h l m x (x' ∷ xs) s =
      let (z, e, i) = last_mem (some x) (nx x) l m x' xs s.2 in (z, e, ground arith)

  -- The `next` pointer of a node is to no node other than those behind it.
  pub next_points :
      (p h l : Option ℕ) (ys : List ℕ) (t : ℕ) (zs : List ℕ) (y : ℕ)
      → has y zs ≡ false
      → Seg nx pv p h l none (ys ++ t ∷ zs)
      → points (nx t) y ≡ false
  next_points p h l [] t [] y out s = rw s.2.0
  next_points p h l [] t (z ∷ zs) y out s = rw s.2.0 (ground arith)
  next_points p h l (x ∷ ys) t zs y out s = next_points (some x) (nx x) l ys t zs y out s.2

-- The first node of a list, and what holds without a node in the middle.
abbrev pub first : List ℕ → Option ℕ
first [] = none
first (x ∷ xs) = some x

pub next_first :
    (nx pv : ℕ → Option ℕ) (p h l : Option ℕ) (ys : List ℕ) (t : ℕ) (zs : List ℕ)
    → Seg nx pv p h l none (ys ++ t ∷ zs)
    → nx t ≡ first zs
next_first nx pv p h l [] t [] s = s.2.0
next_first nx pv p h l [] t (z ∷ zs) s = s.2.0
next_first nx pv p h l (y ∷ ys) t zs s = next_first nx pv (some y) (nx y) l ys t zs s.2

pub IsDistinct-middle :
    (ys : List ℕ) (t : ℕ) (zs : List ℕ)
    → IsDistinct (ys ++ t ∷ zs)
    → (has t (ys ++ zs) ≡ false) × IsDistinct (ys ++ zs)
IsDistinct-middle [] t zs d = d
IsDistinct-middle (y ∷ ys) t zs d =
    let (out, rest) = IsDistinct-middle ys t zs d.1 in
    (
      ground (arith, has-append y ys (t ∷ zs), ==_iff y t),
      (ground (arith, has-append y ys (t ∷ zs), has-append y ys zs), rest),
    )

pub ne_of_has : (a t : ℕ) (xs : List ℕ) → has a xs ≡ true → has t xs ≡ false → a ≢ t
ne_of_has a t xs i o e = cc

-- At the ends of a list, and only there, the pointers are empty.
pub prev_empty :
    (nx pv : ℕ → Option ℕ) (h l m : Option ℕ) (ys : List ℕ) (t : ℕ) (zs : List ℕ)
    → Seg nx pv none h l m (ys ++ t ∷ zs)
    → is_none (pv t) ≡ is_empty ys
prev_empty nx pv h l m [] t zs s = rw s.1
prev_empty nx pv h l m (y ∷ ys) t zs s =
    let (z, e, i) = prev_mem nx pv none h l m y ys t zs s in rw e

pub next_empty :
    (nx pv : ℕ → Option ℕ) (p h l : Option ℕ) (ys : List ℕ) (t : ℕ) (zs : List ℕ)
    → Seg nx pv p h l none (ys ++ t ∷ zs)
    → is_none (nx t) ≡ is_empty zs
next_empty nx pv p h l ys t [] s = rw (next_first nx pv p h l ys t [] s)
next_empty nx pv p h l ys t (z ∷ zs) s = rw (next_first nx pv p h l ys t (z ∷ zs) s)
