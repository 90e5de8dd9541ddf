-- ===== src/Sync/Safety.antt =====
-- The cell is written once.
use chick.Common.{◌≡◌, ◌≢◌, ◌⊎◌, inl, inr, refl, sym, ◌∙◌, ap, ℕ, true, Option, none, some, arith}
use mathlib.Core.Path.{subst}
use chick.Sync.{
  OnceLock, uninitialized, initialized, Result, Pc, Move, System, Step, pick, Steps, here, next,
  init,
}
use chick.Sync.Invariant.{owns, Knows, Inv, init-Inv}
use chick.Sync.Moves.{Steps-Inv}

module _ {A : Type 0} where
  -- A move changes the cell only if its thread owns it, or if it is not yet initialised.
  Move-changes :
      (m : OnceLock A) (q p : Pc A) (m' : OnceLock A)
      → Move m q m' p
      → (m' ≡ m) ⊎ (owns q ≡ true) ⊎ (m.once ≡ uninitialized)
  Move-changes m q p m' Move.call_get = inl refl
  Move-changes m q p m' Move.call_init = inl refl
  Move-changes m q p m' Move.call_set = inl refl
  Move-changes m q p m' Move.leave = inl refl
  Move-changes m q p m' (Move.get_hit h) = inl refl
  Move-changes m q p m' (Move.get_miss h) = inl refl
  Move-changes m q p m' Move.get_value = inl refl
  Move-changes m q p m' (Move.init_fast h) = inl refl
  Move-changes m q p m' (Move.init_slow h) = inl refl
  Move-changes m q p m' (Move.init_win h) = inr (inr h)
  Move-changes m q p m' (Move.init_lose h) = inl refl
  Move-changes m q p m' Move.init_value = inl refl
  Move-changes m q p m' Move.init_within = inl refl
  Move-changes m q p m' Move.within_ends = inl refl
  Move-changes m q p m' (Move.nested v) = inr (inl refl)
  Move-changes m q p m' Move.init_abort = inl refl
  Move-changes m q p m' Move.init_panic = inr (inl refl)
  Move-changes m q p m' Move.init_store = inr (inl refl)
  Move-changes m q p m' Move.init_done = inr (inl refl)
  Move-changes m q p m' (Move.init_spin h) = inl refl
  Move-changes m q p m' (Move.init_leave h) = inl refl
  Move-changes m q p m' (Move.init_ready h) = inl refl
  Move-changes m q p m' (Move.init_retry h) = inl refl
  Move-changes m q p m' Move.init_get = inl refl
  Move-changes m q p m' (Move.set_win h) = inr (inr h)
  Move-changes m q p m' (Move.set_lose h) = inl refl
  Move-changes m q p m' Move.set_store = inr (inl refl)
  Move-changes m q p m' Move.set_done = inr (inl refl)

  Step-frozen :
      {s t : System A} → Step s t → Inv s.lock s.pc → s.lock.once ≡ initialized → t.lock ≡ s.lock
  Step-frozen {s} (pick i {m} {p} mv) inv h = elim (Move-changes s.lock (s.pc i) p m mv) [
    | inl e ↦ e
    | inr (inl o) ↦ absurd (omega (arith, inv.owned i o))
    | inr (inr z) ↦ absurd (omega arith)
  ]

  pub Steps-trans : {s t u : System A} → Steps s t → Steps t u → Steps s u
  Steps-trans r here = r
  Steps-trans r (next q st) = next (Steps-trans r q) st

  -- Once the cell is initialised, no step of any thread changes it.
  pub Steps-frozen :
      {s t : System A} → Steps init s → Steps s t → s.lock.once ≡ initialized → t.lock ≡ s.lock
  Steps-frozen r here h = refl
  Steps-frozen {s} r (next {u} q st) h =
      let e = Steps-frozen r q h in
      Step-frozen st (Steps-Inv q (Steps-Inv r init-Inv)) (ap (λ (m : OnceLock A). m.once) e ∙ h)
      ∙ e

  -- At most one thread at a time is between the exchange that it won and its last store to the
  -- cell; so at most one function given to `get_or_init` is running.
  pub mutual_exclusion :
      {s : System A}
      → Steps init s
      → (i j : ℕ) → owns (s.pc i) ≡ true
      → owns (s.pc j) ≡ true
      → i ≡ j
  mutual_exclusion r i j p q = (Steps-Inv r init-Inv).unique i j p q

  -- The value that a call returned, if it returned one.
  abbrev pub gives : Result A → Option A
  gives (Result.got o) = o
  gives (Result.value v) = some v
  gives _ = none

  gives-Knows :
      (m : OnceLock A) (r : Result A) (v : A)
      → gives r ≡ some v
      → Knows m (Pc.returned r)
      → (m.once ≡ initialized) × (m.value ≡ some v)
  gives-Knows m (Result.got none) v e k = absurd (cc)
  gives-Knows m (Result.got (some w)) v e k = (k.0, k.1 ∙ e)
  gives-Knows m (Result.value w) v e k = (k.0, k.1 ∙ e)
  gives-Knows m Result.set_ok v e k = absurd (cc)
  gives-Knows m Result.set_err v e k = absurd (cc)
  gives-Knows m Result.unwound v e k = absurd (cc)
  gives-Knows m Result.panicked v e k = absurd (cc)

  returned-lock :
      {s : System A} {r : Result A} {v : A}
      → Steps init s
      → (i : ℕ) → s.pc i ≡ Pc.returned r
      → gives r ≡ some v
      → (s.lock.once ≡ initialized) × (s.lock.value ≡ some v)
  returned-lock {s} {r} {v} q i e g =
      gives-Knows s.lock r v g
        (subst (λ (p : Pc A). Knows s.lock p) e ((Steps-Inv q init-Inv).knows i))

  -- All calls agree: a value that a `get` or a `get_or_init` has returned is the value that any
  -- later one returns, in whatever order the threads run.
  pub returned-agree :
      {s t : System A} {p q : Result A} {v w : A}
      → Steps init s
      → Steps s t
      → (i j : ℕ) → s.pc i ≡ Pc.returned p
      → t.pc j ≡ Pc.returned q
      → gives p ≡ some v
      → gives q ≡ some w
      → w ≡ v
  returned-agree {s} {t} {p} {q} {v} {w} r u i j e f g h =
      let (o, x) = returned-lock r i e g in
      let (o', y) = returned-lock (Steps-trans r u) j f h in
      let z : some w ≡ some v = sym y ∙ ap (λ (m : OnceLock A). m.value) (Steps-frozen r u o) ∙ x in
      ground (arith, z)

  -- No `unwrap` of the cell panics: in every reachable state the cell has a value where a thread
  -- reads it after the test.
  pub returned-panicked :
      {s : System A} → Steps init s → (i : ℕ) → s.pc i ≢ Pc.returned Result.panicked
  returned-panicked {s} r i e =
      subst (λ (c : Pc A). Knows s.lock c) e ((Steps-Inv r init-Inv).knows i)
