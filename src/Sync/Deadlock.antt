-- ===== src/Sync/Deadlock.antt =====
-- A thread that has aborted in the function of `get_or_init`, or called `get_or_init` for the same
-- cell there, owns the cell for ever, and no call of `get_or_init` returns any more.
use chick.Common.{ℕ, ◌≡◌, refl, sym, ◌∙◌, ap, Bool, true, false, arith, Bool-cases, inl, inr}
use mathlib.Core.Path.{subst}
use chick.Common.Store.{update, update_self, update_ne}
use native.Mathlib.Decide.{ℕ_discrete}
use chick.Sync.{OnceLock, initializing, Pc, Move, System, Step, pick, Steps, here, next}
use chick.Sync.Alone.{Completes}
use chick.Sync.Invariant.{owns, Knows, Inv}
use chick.Sync.Moves.{Steps-Inv}
use chick.Sync.Nested.{initializes, Move-Stays}

-- Where a thread does not come back from the function of `get_or_init`.
abbrev pub deadlocked : {A : Type 0} → Pc A → Bool
deadlocked (Pc.within q) = initializes q
deadlocked Pc.aborted = true
deadlocked _ = false

module _ {A : Type 0} where
  Move-deadlocked :
      (m m' : OnceLock A) (q p : Pc A)
      → Move m q m' p
      → Knows m q
      → m.once ≡ initializing
      → deadlocked q ≡ true
      → deadlocked p ≡ true
  Move-deadlocked m m' q p Move.call_get k w d = absurd (cc)
  Move-deadlocked m m' q p Move.call_init k w d = absurd (cc)
  Move-deadlocked m m' q p Move.call_set k w d = absurd (cc)
  Move-deadlocked m m' q p Move.leave k w d = absurd (cc)
  Move-deadlocked m m' q p (Move.get_hit h) k w d = absurd (cc)
  Move-deadlocked m m' q p (Move.get_miss h) k w d = absurd (cc)
  Move-deadlocked m m' q p Move.get_value k w d = absurd (cc)
  Move-deadlocked m m' q p (Move.init_fast h) k w d = absurd (cc)
  Move-deadlocked m m' q p (Move.init_slow h) k w d = absurd (cc)
  Move-deadlocked m m' q p (Move.init_win h) k w d = absurd (cc)
  Move-deadlocked m m' q p (Move.init_lose h) k w d = absurd (cc)
  Move-deadlocked m m' q p Move.init_value k w d = absurd (cc)
  Move-deadlocked m m' q p Move.init_within k w d = absurd (cc)
  Move-deadlocked m m' q p Move.within_ends k w d = absurd (cc)
  Move-deadlocked m m' q p (Move.nested {q = r} {p = t} n) k w d =
      let (same, i, g) = Move-Stays m m' r t n k w in g d
  Move-deadlocked m m' q p Move.init_abort k w d = absurd (cc)
  Move-deadlocked m m' q p Move.init_panic k w d = absurd (cc)
  Move-deadlocked m m' q p Move.init_store k w d = absurd (cc)
  Move-deadlocked m m' q p Move.init_done k w d = absurd (cc)
  Move-deadlocked m m' q p (Move.init_spin h) k w d = absurd (cc)
  Move-deadlocked m m' q p (Move.init_leave h) k w d = absurd (cc)
  Move-deadlocked m m' q p (Move.init_ready h) k w d = absurd (cc)
  Move-deadlocked m m' q p (Move.init_retry h) k w d = absurd (cc)
  Move-deadlocked m m' q p Move.init_get k w d = absurd (cc)
  Move-deadlocked m m' q p (Move.set_win h) k w d = absurd (cc)
  Move-deadlocked m m' q p (Move.set_lose h) k w d = absurd (cc)
  Move-deadlocked m m' q p Move.set_store k w d = absurd (cc)
  Move-deadlocked m m' q p Move.set_done k w d = absurd (cc)

  deadlocked-owns : (q : Pc A) → deadlocked q ≡ true → owns q ≡ true
  deadlocked-owns (Pc.within q) d = refl
  deadlocked-owns Pc.aborted d = refl
  deadlocked-owns q d = absurd (cc)

  Step-deadlocked :
      {s t : System A}
      → Step s t
      → Inv s.lock s.pc
      → (j : ℕ) → deadlocked (s.pc j) ≡ true
      → deadlocked (t.pc j) ≡ true
  Step-deadlocked {s} (pick i {m} {p} mv) inv j d = elim (ℕ_discrete i j) [
    | yes e ↦
        let at : deadlocked (s.pc i) ≡ true = ap (λ (k : ℕ). deadlocked (s.pc k)) e ∙ d in
        let owned = inv.owned i (deadlocked-owns (s.pc i) at) in
        let after : deadlocked (update s.pc i p i) ≡ true =
          ap (λ (c : Pc A). deadlocked c) (update_self s.pc i p)
          ∙ Move-deadlocked s.lock m (s.pc i) p mv (inv.knows i) owned at in
        ap (λ (k : ℕ). deadlocked (update s.pc i p k)) (sym e) ∙ after
    | no ne ↦ ap (λ (c : Pc A). deadlocked c) (update_ne s.pc i j p ne) ∙ d
  ]

  Steps-deadlocked :
      {s t : System A}
      → Steps s t
      → Inv s.lock s.pc
      → (j : ℕ) → deadlocked (s.pc j) ≡ true
      → deadlocked (t.pc j) ≡ true
  Steps-deadlocked here inv j d = d
  Steps-deadlocked (next r st) inv j d =
      Step-deadlocked st (Steps-Inv r inv) j (Steps-deadlocked r inv j d)

  -- A call that can still return has no such thread beside it.
  pub Completes-live :
      {s : System A}
      → Inv s.lock s.pc
      → (i : ℕ) → Completes s i
      → (j : ℕ) → deadlocked (s.pc j) ≡ false
  Completes-live {s} inv i (t, v, r, e) j = elim (Bool-cases (deadlocked (s.pc j))) [
    | inr no_deadlock ↦ no_deadlock
    | inl d ↦
        let later = Steps-Inv r inv in
        let o = later.owned j (deadlocked-owns (t.pc j) (Steps-deadlocked r inv j d)) in
        let k = subst (λ (c : Pc A). Knows t.lock c) e (later.knows i) in
        absurd (omega (arith, o, k.0))
  ]
