-- ===== src/Sync/Progress.antt =====
-- A call of `get_or_init` can return a value unless a thread that owns the cell is stuck.
use chick.Common.{
  ◌≡◌, ◌≢◌, ◌↔◌, inl, inr, refl, ◌∙◌, ap, ℕ, true, false, some, is_none, arith, Bool-cases,
  Option-cases,
}
use mathlib.Core.Path.{subst}
use chick.Common.Store.{update_self, update_ne}
use native.Mathlib.Decide.{ℕ_discrete}
use chick.Sync.{
  OnceLock, uninitialized, initializing, initialized, Result, Pc, Move, System, Steps, init,
}
use chick.Sync.Invariant.{owns, Knows, Inv, init-Inv}
use chick.Sync.Moves.{Steps-Inv}
use chick.Sync.Nested.{initializes}
use chick.Sync.Within.{from_within}
use chick.Sync.Deadlock.{deadlocked, Completes-live}
use chick.Sync.Safety.{Steps-trans}
use chick.Sync.Alone.{
  Completes, Completes-after, moved, one, at_read, at_load, at_check, at_wait, at_exchange,
  own_publish, own_write, own_call, free_load, free_exchange, free_check, free_wait,
}

module _ {A : Type 0} where
  -- The thread does not own the cell, and the cell is initialised, or free.
  ready_case :
      (s : System A) (i : ℕ) (v : A) (q : Pc A)
      → s.pc i ≡ q
      → initializes q ≡ true
      → owns q ≡ false
      → s.lock.once ≡ initialized
      → s.lock.value ≡ some v
      → Completes s i
  ready_case s i v Pc.init_load e c o h full = at_load s i v h full e
  ready_case s i v Pc.init_exchange e c o h full = at_exchange s i v h full e
  ready_case s i v Pc.init_wait e c o h full = at_wait s i v h full e
  ready_case s i v Pc.init_check e c o h full = at_check s i v h full e
  ready_case s i v Pc.init_read e c o h full = at_read s i v e full
  ready_case s i v Pc.init_call e c o h full = absurd (cc)
  ready_case s i v (Pc.init_write w) e c o h full = absurd (cc)
  ready_case s i v (Pc.init_publish w) e c o h full = absurd (cc)
  ready_case s i v (Pc.within r) e c o h full = absurd (cc)
  ready_case s i v Pc.aborted e c o h full = absurd (cc)
  ready_case s i v Pc.idle e c o h full = absurd (cc)
  ready_case s i v Pc.get_load e c o h full = absurd (cc)
  ready_case s i v Pc.get_read e c o h full = absurd (cc)
  ready_case s i v (Pc.set_exchange w) e c o h full = absurd (cc)
  ready_case s i v (Pc.set_write w) e c o h full = absurd (cc)
  ready_case s i v (Pc.set_publish w) e c o h full = absurd (cc)
  ready_case s i v (Pc.returned r) e c o h full = absurd (cc)

  free_case :
      (s : System A) (i : ℕ) (v : A) (q : Pc A)
      → s.pc i ≡ q
      → initializes q ≡ true
      → Inv s.lock s.pc
      → s.lock.once ≡ uninitialized
      → Completes s i
  free_case s i v Pc.init_load e c inv h = free_load s i v h e
  free_case s i v Pc.init_exchange e c inv h = free_exchange s i v h e
  free_case s i v Pc.init_wait e c inv h = free_wait s i v h e
  free_case s i v Pc.init_check e c inv h = free_check s i v h e
  free_case s i v Pc.init_read e c inv h =
      let k = subst (λ (p : Pc A). Knows s.lock p) e (inv.knows i) in absurd (omega arith)
  free_case s i v Pc.init_call e c inv h = own_call s i v e
  free_case s i v (Pc.init_write w) e c inv h = own_write s i w e
  free_case s i v (Pc.init_publish w) e c inv h =
      own_publish s i w (subst (λ (p : Pc A). Knows s.lock p) e (inv.knows i)) e
  free_case s i v (Pc.within r) e c inv h =
      absurd (omega (arith, inv.owned i (ap (λ (p : Pc A). owns p) e)))
  free_case s i v Pc.aborted e c inv h =
      absurd (omega (arith, inv.owned i (ap (λ (p : Pc A). owns p) e)))
  free_case s i v Pc.idle e c inv h = absurd (cc)
  free_case s i v Pc.get_load e c inv h = absurd (cc)
  free_case s i v Pc.get_read e c inv h = absurd (cc)
  free_case s i v (Pc.set_exchange w) e c inv h = absurd (cc)
  free_case s i v (Pc.set_write w) e c inv h = absurd (cc)
  free_case s i v (Pc.set_publish w) e c inv h = absurd (cc)
  free_case s i v (Pc.returned r) e c inv h = absurd (cc)

  owned_case :
      (s : System A) (i : ℕ) (v : A) (q : Pc A)
      → s.pc i ≡ q
      → initializes q ≡ true
      → owns q ≡ true
      → deadlocked q ≡ false
      → Inv s.lock s.pc
      → Completes s i
  owned_case s i v Pc.init_call e c o d inv = own_call s i v e
  owned_case s i v (Pc.init_write w) e c o d inv = own_write s i w e
  owned_case s i v (Pc.init_publish w) e c o d inv =
      own_publish s i w (subst (λ (p : Pc A). Knows s.lock p) e (inv.knows i)) e
  owned_case s i v (Pc.within q) e c o d inv =
      from_within (λ (t : System A). Completes t i) i (λ t q m p. Completes-after t i i q m p)
        (λ t f. own_call t i v f) s q e (subst (λ (p : Pc A). Knows s.lock p) e (inv.knows i)) d
        (inv.owned i (ap (λ (p : Pc A). owns p) e))
  owned_case s i v q e c o d inv = absurd (cc)

  -- Another thread has initialised the cell, and `i` has not moved.
  Initialized : System A → ℕ → Type 0
  Initialized s i =
      (t : System A) × (w : A) × Steps s t
      × (t.lock.once ≡ initialized)
      × (t.lock.value ≡ some w)
      × (t.pc i ≡ s.pc i)

  module _ (i j : ℕ) (ne : j ≢ i) where
    Initialized-after :
        (s : System A) (q : Pc A) (m : OnceLock A) (p : Pc A)
        → s.pc j ≡ q
        → Move s.lock q m p
        → Initialized (moved s j m p) i
        → Initialized s i
    unfolding Initialized
    Initialized-after s q m p e mv (t, w, r, h, full, kept) =
        (t, w, Steps-trans (one s j q m p e mv) r, h, full, kept ∙ update_ne s.pc j i p ne)

    last-Move :
        (s : System A) (q : Pc A) (w : A) (p : Pc A)
        → s.pc j ≡ q
        → s.lock.value ≡ some w
        → Move s.lock q (record (s.lock) { once = initialized }) p
        → Initialized s i
    unfolding Initialized
    last-Move s q w p e full mv =
        let m : OnceLock A = record (s.lock) { once = initialized } in
        (moved s j m p, w, one s j q m p e mv, refl, full, update_ne s.pc j i p ne)

    init_writes : (s : System A) (w : A) → s.pc j ≡ Pc.init_write w → Initialized s i
    init_writes s w e =
        let m : OnceLock A = record (s.lock) { value = some w } in
        Initialized-after s (Pc.init_write w) m (Pc.init_publish w) e Move.init_store (
          last-Move (moved s j m (Pc.init_publish w)) (Pc.init_publish w) w Pc.init_read
            (update_self s.pc j (Pc.init_publish w)) refl Move.init_done)

    init_calls : (v : A) (s : System A) → s.pc j ≡ Pc.init_call → Initialized s i
    init_calls v s e =
        Initialized-after s Pc.init_call s.lock (Pc.init_write v) e Move.init_value (
          init_writes (moved s j s.lock (Pc.init_write v)) v (update_self s.pc j (Pc.init_write v)))

    owner_finishes :
        (s : System A) (v : A) (q : Pc A)
        → s.pc j ≡ q
        → owns q ≡ true
        → deadlocked q ≡ false
        → s.lock.once ≡ initializing
        → Knows s.lock q
        → Initialized s i
    owner_finishes s v Pc.init_call e o d b k = init_calls v s e
    owner_finishes s v (Pc.within q) e o d b k =
        from_within (λ (t : System A). Initialized t i) j Initialized-after (init_calls v) s q e k d
          b
    owner_finishes s v (Pc.init_write w) e o d b k = init_writes s w e
    owner_finishes s v (Pc.init_publish w) e o d b k =
        last-Move s (Pc.init_publish w) w Pc.init_read e k Move.init_done
    owner_finishes s v (Pc.set_write w) e o d b k =
        let m : OnceLock A = record (s.lock) { value = some w } in
        Initialized-after s (Pc.set_write w) m (Pc.set_publish w) e Move.set_store (
          last-Move (moved s j m (Pc.set_publish w)) (Pc.set_publish w) w
            (Pc.returned Result.set_ok) (update_self s.pc j (Pc.set_publish w)) refl Move.set_done)
    owner_finishes s v (Pc.set_publish w) e o d b k =
        last-Move s (Pc.set_publish w) w (Pc.returned Result.set_ok) e k Move.set_done
    owner_finishes s v q e o d b k = absurd (cc)

  waits_for :
      (s : System A) (i j : ℕ) (v : A)
      → Inv s.lock s.pc
      → initializes (s.pc i) ≡ true
      → owns (s.pc j) ≡ true
      → deadlocked (s.pc j) ≡ false
      → owns (s.pc i) ≡ false
      → Completes s i
  unfolding Initialized
  waits_for s i j v inv c o d free =
      let ne : j ≢ i = λ e. absurd (ground (arith, ap (λ (k : ℕ). owns (s.pc k)) e)) in
      let (t, w, r, h, full, kept) =
        owner_finishes i j ne s v (s.pc j) refl o d (inv.owned j o) (inv.knows j) in
      let (u, x, q, z) = ready_case t i w (s.pc i) kept c free h full in (u, x, Steps-trans r q, z)

  get_or_init-Completes :
      {s : System A}
      → A
      → Inv s.lock s.pc
      → (i : ℕ) → initializes (s.pc i) ≡ true
      → ((j : ℕ) → deadlocked (s.pc j) ≡ false)
      → Completes s i
  get_or_init-Completes {s} v inv i c live = elim (Bool-cases (owns (s.pc i))) [
    | inl o ↦ owned_case s i v (s.pc i) refl c o (live i) inv
    | inr free ↦ elim (ℕ_discrete s.lock.once initialized) [
      | yes h ↦ elim (Option-cases s.lock.value) [
        | inl e ↦
            (let f = inv.filled h in let g : is_none s.lock.value ≡ true = rw e refl in absurd (cc))
        | inr (w, e) ↦ ready_case s i w (s.pc i) refl c free h e
      ]
      | no h ↦ elim (ℕ_discrete s.lock.once uninitialized) [
        | yes z ↦ free_case s i v (s.pc i) refl c inv z
        | no z ↦
            let (j, o) = inv.held (omega (arith, inv.range)) in
            waits_for s i j v inv c o (live j) free
      ]
    ]
  ]

  -- From every reachable state, and for every thread within a call of `get_or_init`: the threads can
  -- go on so that the call returns a value exactly if no thread has aborted in the function given to
  -- `get_or_init`, or has called `get_or_init` for the same cell within it, as the source warns. `v`
  -- stands for what a function returns that is still to be called.
  pub get_or_init-Completes_iff :
      {s : System A}
      → (v : A) → Steps init s
      → (i : ℕ) → initializes (s.pc i) ≡ true
      → Completes s i ↔ ((j : ℕ) → deadlocked (s.pc j) ≡ false)
  get_or_init-Completes_iff {s} v r i c =
      let inv = Steps-Inv r init-Inv in
      (Completes-live inv i, λ live. get_or_init-Completes v inv i c live)
