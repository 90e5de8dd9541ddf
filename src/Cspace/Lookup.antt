-- ===== src/Cspace/Lookup.antt =====
-- The loop of `resolve_internal` decides `Resolves`, and ends in debug builds.
use chick.Common.{ℕ, suc, ◌≤◌, ◌<◌, ◌≡◌, ◌↔◌, ◌⊎◌, inl, inr, ◌∙◌, sym, Option, some, arith}
use chick.Common.Outcome.{Outcome, done, err, panic, debug, ◌>>=◌}
use chick.Error.{SysError}
use chick.Cnode.{Slots}
use chick.Cspace.{ResolveResult, resolve, lookup_with_depth, all_resolved}
use chick.Cspace.Laws.{Resolves}
use chick.Cspace.Loop.{loop-Answers, loop_complete}

module _ (cptr : ℕ) (mem : Slots) where
  -- In a debug build `resolve` ends for every address of less than 64 bits, in a result, an error
  -- or a panic; the result is what the address means.
  pub resolve-Resolves :
      (root n : ℕ)
      → n < 64
      → ((r : ResolveResult) × (resolve debug root cptr n mem ≡ some (done r))
          × Resolves cptr mem root n r)
        ⊎ ((e : SysError) × (resolve debug root cptr n mem ≡ some (err e)))
        ⊎ (resolve debug root cptr n mem ≡ some panic)
  unfolding resolve
  resolve-Resolves root n small = loop-Answers cptr mem (suc n) root n (omega arith) small

  lookup-resolve :
      (root depth : ℕ) (o : Outcome SysError ResolveResult)
      → 0 < depth
      → depth ≤ 32
      → resolve debug root cptr depth mem ≡ some o
      → lookup_with_depth debug root cptr depth mem ≡ some (o >>= all_resolved)
  unfolding lookup_with_depth
  lookup-resolve root depth o low high e = ground (arith, e)

  lookup-range :
      (root depth slot : ℕ)
      → lookup_with_depth debug root cptr depth mem ≡ some (done slot)
      → (0 < depth) × (depth ≤ 32)
  unfolding lookup_with_depth
  lookup-range root depth slot h = ground (arith, h)

  all_resolved-lem :
      (r : ResolveResult) (slot : ℕ)
      → all_resolved r ≡ done slot
      → r ≡ record { slot = slot; bits_remaining = 0 }
  unfolding all_resolved
  all_resolved-lem r slot h = ground (arith, h)

  some-injective :
      {x y : Outcome SysError ℕ} → ◌≡◌ {A = Option (Outcome SysError ℕ)} (some x) (some y) → x ≡ y
  some-injective h = cc

  -- In a debug build `lookup_with_depth` gives a slot exactly when the depth is from 1 to 32 and
  -- the address means that slot with no bit left.
  pub lookup_with_depth-done_iff :
      (root depth slot : ℕ)
      → (lookup_with_depth debug root cptr depth mem ≡ some (done slot)) ↔ (
          (0 < depth)
          × (depth ≤ 32)
          × Resolves cptr mem root depth (record { slot = slot; bits_remaining = 0 }))
  unfolding resolve all_resolved
  lookup_with_depth-done_iff root depth slot = (
    λ h.
        let (low, high) = lookup-range root depth slot h in
        (
          low,
          high,
          elim (resolve-Resolves root depth (omega arith)) [
            | inl (r, e, w) ↦
                let q = some-injective (sym (lookup-resolve root depth (done r) low high e) ∙ h) in
                rw (all_resolved-lem r slot q) at w
            | inr (inl (x, e)) ↦ absurd (
                ground
                  (arith, some-injective (sym (lookup-resolve root depth (err x) low high e) ∙ h)))
            | inr (inr e) ↦ absurd (
                ground
                  (arith, some-injective (sym (lookup-resolve root depth panic low high e) ∙ h)))
          ],
        ),
    λ (low, high, w).
        lookup-resolve root depth (done (record { slot = slot; bits_remaining = 0 })) low high (
          loop_complete cptr mem (suc depth) root depth (record { slot = slot; bits_remaining = 0 })
            (omega arith) (omega arith) w),
  )
