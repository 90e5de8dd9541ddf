-- ===== src/Cspace/Loop.antt =====
-- The loop of `resolve_internal`, in debug builds.
use chick.Common.{
  ℕ, zero, suc, ◌-◌, ◌<◌, ◌≡◌, ◌≢◌, ◌⊎◌, inl, inr, refl, ◌∙◌, ap, sym, true, false, Option, some,
  ◌==◌, arith, Bool-cases,
}
use chick.Common.Outcome.{Outcome, done, err, panic, debug, Outcome-cases}
use chick.Error.{SysError}
use chick.Objects.{ObjType, same_type}
use chick.Cnode.{Slots}
use chick.Cspace.{
  ResolveResult, Progress, resolved, descend, proceed, resolve_round, resolve_internal,
}
use chick.Cspace.Laws.{
  level_bits, Matches, child, Resolves, at_end, at_leaf, below, round-Matches, round-done,
}

module _ (cptr : ℕ) (mem : Slots) where
  -- How a round ends at a node that matches, for the slot it counts off.
  data Ends (current n : ℕ) : Progress → Type 0 where
    ends :
        n ≡ level_bits (mem current)
        → Ends current n (resolved (record { slot = child cptr mem current n; bits_remaining = 0 }))
    stops :
        level_bits (mem current) < n
        → (mem (child cptr mem current n)).cap_type ≢ ObjType.cnode
        → Ends current n (
            resolved (record {
              slot = child cptr mem current n;
              bits_remaining = n - level_bits (mem current);
            }))
    descends :
        level_bits (mem current) < n
        → (mem (child cptr mem current n)).cap_type ≡ ObjType.cnode
        → Ends current n (descend (child cptr mem current n) (n - level_bits (mem current)))

  done-injective : {p q : Progress} → ◌≡◌ {A = Outcome SysError Progress} (done p) (done q) → p ≡ q
  done-injective h = cc

  not_cnode : (t : ObjType) → same_type t ObjType.cnode ≡ false → t ≢ ObjType.cnode
  not_cnode t h e = ground arith

  is_cnode : (t : ObjType) → same_type t ObjType.cnode ≡ true → t ≡ ObjType.cnode
  is_cnode t h = ground arith

  proceed-Ends :
      (current n : ℕ)
      → Matches cptr mem current n
      → Ends current n (proceed (child cptr mem current n) n (level_bits (mem current)) mem)
  unfolding proceed
  proceed-Ends current n m = elim (Bool-cases (n == level_bits (mem current))) [
    | inl e ↦ rw e (ends (ground arith))
    | inr ne ↦
        let t = (mem (child cptr mem current n)).cap_type in
        elim (Bool-cases (same_type t ObjType.cnode)) [
          | inl y ↦ rw (ne, y) (descends (ground (arith, m.fits)) (is_cnode t y))
          | inr y ↦ rw (ne, y) (stops (ground (arith, m.fits)) (not_cnode t y))
        ]
  ]

  -- What the loop does after a round.
  after : ℕ → Outcome SysError Progress → Option (Outcome SysError ResolveResult)
  after rounds (done (resolved r)) = some (done r)
  after rounds (done (descend slot n)) = resolve_internal rounds debug slot cptr n mem
  after rounds (err e) = some (err e)
  after rounds panic = some panic

  loop-after :
      (rounds current n : ℕ)
      → resolve_internal (suc rounds) debug current cptr n mem
        ≡ after rounds (resolve_round debug current cptr n mem)
  unfolding resolve_internal after
  loop-after rounds current n = elim (Outcome-cases (resolve_round debug current cptr n mem)) [
    | inl (resolved r, e) ↦ rw (e, resolve_internal) refl
    | inl (descend slot n', e) ↦ rw (e, resolve_internal) refl
    | inr (inl (x, e)) ↦ rw (e, resolve_internal) refl
    | inr (inr e) ↦ rw (e, resolve_internal) refl
  ]

  -- A round that ends without an error, and what it means.
  round-Ends :
      (current n : ℕ) (p : Progress)
      → n < 64
      → resolve_round debug current cptr n mem ≡ done p
      → Matches cptr mem current n × Ends current n p
  round-Ends current n p small h =
      let m = round-done cptr n mem current small p h in
      (
        m,
        rw (done-injective (sym (round-Matches cptr n mem current small m) ∙ h)) at
            (proceed-Ends current n m),
      )

  -- How the loop ends: with a result that is right, with an error, or in a panic.
  abbrev pub Answers : ℕ → ℕ → Option (Outcome SysError ResolveResult) → Type 0
  Answers current n o =
      ((r : ResolveResult) × (o ≡ some (done r)) × Resolves cptr mem current n r)
      ⊎ ((e : SysError) × (o ≡ some (err e)))
      ⊎ (o ≡ some panic)

  step :
      (rounds current n : ℕ) {o : Outcome SysError Progress}
      → resolve_round debug current cptr n mem ≡ o
      → resolve_internal (suc rounds) debug current cptr n mem ≡ after rounds o
  step rounds current n e = loop-after rounds current n ∙ ap (after rounds) e

  below-Answers :
      (rounds current n : ℕ)
      → Matches cptr mem current n
      → level_bits (mem current) < n
      → (mem (child cptr mem current n)).cap_type ≡ ObjType.cnode
      → Answers (child cptr mem current n) (n - level_bits (mem current)) (
          resolve_internal rounds debug
            (child cptr mem current n)
            cptr
            (n - level_bits (mem current))
            mem)
      → Answers current n (
          resolve_internal rounds debug
            (child cptr mem current n)
            cptr
            (n - level_bits (mem current))
            mem)
  below-Answers rounds current n m lt c (inl (r, e, w)) = inl (r, e, below m lt c w)
  below-Answers rounds current n m lt c (inr other) = inr other

  Ends-Answers :
      (rounds current n : ℕ) (p : Progress)
      → ((s k : ℕ) → k < rounds → k < 64 → Answers s k (resolve_internal rounds debug s cptr k mem))
      → n < suc rounds
      → n < 64
      → Matches cptr mem current n
      → Ends current n p
      → Answers current n (after rounds (done p))
  unfolding after
  Ends-Answers rounds current n p rest fuel small m (ends q) = inl (_, refl, at_end m q)
  Ends-Answers rounds current n p rest fuel small m (stops lt c) = inl (_, refl, at_leaf m lt c)
  Ends-Answers rounds current n p rest fuel small m (descends lt c) =
      below-Answers rounds current n m lt c (
        rest (child cptr mem current n) (n - level_bits (mem current)) (omega (arith, m.takes_some))
          (omega arith))

  pub loop-Answers :
      (rounds current n : ℕ)
      → n < rounds
      → n < 64
      → Answers current n (resolve_internal rounds debug current cptr n mem)
  unfolding after
  loop-Answers zero current n fuel small = absurd (omega arith)
  loop-Answers (suc rounds) current n fuel small =
      elim (Outcome-cases (resolve_round debug current cptr n mem)) [
        | inl (p, e) ↦
            let (m, w) = round-Ends current n p small e in
            rw (step rounds current n e)
              (Ends-Answers rounds current n p (loop-Answers rounds) fuel small m w)
        | inr (inl (x, e)) ↦ inr (inl (x, step rounds current n e))
        | inr (inr e) ↦ inr (inr (step rounds current n e))
      ]

  round-proceed :
      (current n : ℕ) (p : Progress)
      → n < 64
      → Matches cptr mem current n
      → proceed (child cptr mem current n) n (level_bits (mem current)) mem ≡ p
      → resolve_round debug current cptr n mem ≡ done p
  round-proceed current n p small m e = round-Matches cptr n mem current small m ∙ ap done e

  -- The loop finds what the address means.
  pub loop_complete :
      (rounds current n : ℕ) (r : ResolveResult)
      → n < rounds
      → n < 64
      → Resolves cptr mem current n r
      → resolve_internal rounds debug current cptr n mem ≡ some (done r)
  unfolding proceed after
  loop_complete zero current n r fuel small w = absurd (omega arith)
  loop_complete (suc rounds) current n r fuel small (at_end m q) = step rounds current n (
      round-proceed current n
        (resolved (record { slot = child cptr mem current n; bits_remaining = 0 })) small m
        (ground (arith, q)))
  loop_complete (suc rounds) current n r fuel small (at_leaf m lt c) = step rounds current n (
      round-proceed current n
        (resolved (record {
          slot = child cptr mem current n;
          bits_remaining = n - level_bits (mem current);
        }))
        small m (ground (arith, lt, c)))
  loop_complete (suc rounds) current n r fuel small (below m lt c w) =
      step rounds current n (
        round-proceed current n (descend (child cptr mem current n) (n - level_bits (mem current)))
          small m (ground (arith, lt, c)))
      ∙ loop_complete rounds (child cptr mem current n) (n - level_bits (mem current)) r
          (omega (arith, m.takes_some)) (omega arith) w
