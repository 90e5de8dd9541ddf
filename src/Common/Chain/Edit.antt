-- ===== src/Common/Chain/Edit.antt =====
-- Nodes put into a doubly linked list and taken out of it.
use Prim.Native.Nat.{ℕ}
use mathlib.Core.Path.{◌≡◌, refl, ◌∙◌}
use mathlib.Core.Bool.{true, false}
use mathlib.Core.Option.{Option, none, some}
use mathlib.Core.List.{List, [], ◌∷◌, ◌++◌}
use native.Mathlib.Omega.{arith}
use chick.Common.Tests.{◌==◌, if◌then◌else◌, ==_iff}
use chick.Common.Chain.{
  has, IsDistinct, points, is_empty, Seg, Misses, Misses-points, has-append, Seg-repoint, prev_mem,
  last_mem, next_points,
}

module _ (nx pv nx' pv' : ℕ → Option ℕ) where
  -- A node at the end.
  pub Seg-snoc :
      (p h l : Option ℕ) (xs : List ℕ) (t : ℕ)
      → IsDistinct xs
      → nx' t ≡ none
      → pv' t ≡ l
      → ((a : ℕ) → has a xs ≡ true → nx' a ≡ (if points l a then some t else nx a))
      → ((a : ℕ) → has a xs ≡ true → pv' a ≡ pv a)
      → Seg nx pv p h l none xs
      → Seg nx' pv' p (if is_empty xs then some t else h) (some t) none (xs ++ t ∷ [])
  Seg-snoc p h l [] t d et ep en epv s = (refl, ep ∙ s.1, (et, refl))
  Seg-snoc p h l (x ∷ []) t d et ep en epv s = (
    s.0,
    epv x (ground arith) ∙ s.1,
    (ground (arith, en x, ==_iff x x, s.2.1), ep ∙ s.2.1, (et, refl)),
  )
  Seg-snoc p h l (x ∷ (x' ∷ xs)) t d et ep en epv s =
      let (z, e, i) = last_mem nx pv (some x) (nx x) l none x' xs s.2 in
      let same : nx' x ≡ nx x = ground (arith, en x) in
      (
        s.0,
        epv x (ground arith) ∙ s.1,
        rw same (
            Seg-snoc (some x) (nx x) l (x' ∷ xs) t d.1 et ep (λ a j. en a (ground arith))
              (λ a j. epv a (ground arith)) s.2),
      )

  -- What the node before a node points to, once the node is taken out.
  unlink_next :
      (p h l : Option ℕ) (y : ℕ) (ys : List ℕ) (t : ℕ) (zs : List ℕ)
      → has y (ys ++ t ∷ zs) ≡ false
      → nx' y ≡ (if points (pv t) y then nx t else nx y)
      → Seg nx pv p h l none (y ∷ (ys ++ t ∷ zs))
      → nx' y ≡ (if is_empty ys then nx t else nx y)
  unlink_next p h l y [] t zs d e s = ground (arith, s.2.1, ==_iff y y)
  unlink_next p h l y (y' ∷ ys) t zs d e s =
      let (z, f, i) = prev_mem nx pv (some y) (nx y) l none y' ys t zs s.2 in
      ground (arith, ==_iff z y, has-append y (y' ∷ ys) (t ∷ zs))

  -- A node taken out.
  pub Seg-unlink :
      (p h l : Option ℕ) (ys : List ℕ) (t : ℕ) (zs : List ℕ)
      → IsDistinct (ys ++ t ∷ zs)
      → Misses p (ys ++ t ∷ zs)
      → ((a : ℕ) → has a (ys ++ zs) ≡ true → nx' a ≡ (if points (pv t) a then nx t else nx a))
      → ((a : ℕ) → has a (ys ++ zs) ≡ true → pv' a ≡ (if points (nx t) a then pv t else pv a))
      → Seg nx pv p h l none (ys ++ t ∷ zs)
      → Seg nx' pv' p
          (if is_empty ys then nx t else h)
          (if is_empty zs then pv t else l)
          none
          (ys ++ zs)
  Seg-unlink p h l [] t zs d out en ep s = rw s.1 (
      Seg-repoint nx pv nx' pv' (some t) p (nx t) l none zs d.1
        (λ a i. en a i ∙ rw (s.1, Misses-points p a (t ∷ zs) out (ground arith)) refl)
        (λ a i. ep a i ∙ rw s.1 refl) s.2)
  Seg-unlink p h l (y ∷ ys) t zs d out en ep s = (
    s.0,
    ground
        (arith, ep y, has-append y ys (t ∷ zs), next_points nx pv (some y) (nx y) l ys t zs y, s.1),
    rw (unlink_next p h l y ys t zs d.0 (en y (ground arith)) s) (
        Seg-unlink (some y) (nx y) l ys t zs d.1 d.0 (λ a i. en a (ground arith))
          (λ a i. ep a (ground arith)) s.2),
  )

  -- A node put in behind the node `t`.
  pub Seg-insert :
      (p h l : Option ℕ) (ys : List ℕ) (t : ℕ) (zs : List ℕ) (d : ℕ)
      → IsDistinct (ys ++ t ∷ zs)
      → nx' d ≡ nx t
      → pv' d ≡ some t
      → ((a : ℕ) → has a (ys ++ t ∷ zs) ≡ true → nx' a ≡ (if a == t then some d else nx a))
      → ((a : ℕ) → has a (ys ++ t ∷ zs) ≡ true → pv' a ≡ (if points (nx t) a then some d else pv a))
      → Seg nx pv p h l none (ys ++ t ∷ zs)
      → Seg nx' pv' p h (if is_empty zs then some d else l) none (ys ++ t ∷ (d ∷ zs))
  Seg-insert p h l [] t zs d dist ed ep en epv s = (
    s.0,
    ground (arith, epv t, next_points nx pv p h l [] t zs t, s.1),
    (
      ground (arith, en t, ==_iff t t),
      ep,
      rw ed (
          Seg-repoint nx pv nx' pv' (some t) (some d) (nx t) l none zs dist.1
            (λ a i. ground (arith, en a, ==_iff a t)) (λ a i. epv a (ground arith)) s.2),
    ),
  )
  Seg-insert p h l (y ∷ ys) t zs d dist ed ep en epv s = (
    s.0,
    ground (
      arith,
      epv y,
      has-append y ys (t ∷ zs),
      next_points nx pv (some y) (nx y) l ys t zs y,
      s.1,
    ),
    rw
        (let same : nx' y ≡ nx y = ground (arith, en y, ==_iff y t, has-append y ys (t ∷ zs)) in
          same)
        (Seg-insert (some y) (nx y) l ys t zs d dist.1 ed ep (λ a i. en a (ground arith))
          (λ a i. epv a (ground arith)) s.2),
  )
