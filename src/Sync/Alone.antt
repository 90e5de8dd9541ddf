-- ===== src/Sync/Alone.antt =====
-- A thread that runs alone completes its call of `get_or_init`.
use chick.Common.{◌≡◌, refl, sym, ◌∙◌, ℕ, some, arith}
use mathlib.Core.Path.{subst}
use chick.Common.Store.{update, update_self}
use chick.Sync.{
  OnceLock, uninitialized, initializing, initialized, Result, Pc, Move, System, pick, Steps, here,
  next, unwrap,
}
use chick.Sync.Safety.{Steps-trans}

module _ {A : Type 0} where
  -- The threads can go on from `s` so that the call of thread `i` returns a value.
  abbrev pub Completes : System A → ℕ → Type 0
  Completes s i = (t : System A) × (v : A) × Steps s t × (t.pc i ≡ Pc.returned (Result.value v))

  -- The state after a move of a thread.
  abbrev pub moved : System A → ℕ → OnceLock A → Pc A → System A
  moved s i m p = record { lock = m; pc = update s.pc i p }

  pub one :
      (s : System A) (i : ℕ) (q : Pc A) (m : OnceLock A) (p : Pc A)
      → s.pc i ≡ q
      → Move s.lock q m p
      → Steps s (moved s i m p)
  one s i q m p e mv = next here (pick i (subst (λ (x : Pc A). Move s.lock x m p) (sym e) mv))

  -- A move first.
  pub Completes-after :
      (s : System A) (i j : ℕ) (q : Pc A) (m : OnceLock A) (p : Pc A)
      → s.pc j ≡ q
      → Move s.lock q m p
      → Completes (moved s j m p) i
      → Completes s i
  Completes-after s i j q m p e mv (t, v, r, w) = (t, v, Steps-trans (one s j q m p e mv) r, w)

  -- The reads at the end of a call.
  pub at_read :
      (s : System A) (i : ℕ) (v : A) → s.pc i ≡ Pc.init_read → s.lock.value ≡ some v → Completes s i
  at_read s i v e full =
      let t = moved s i s.lock (Pc.returned (unwrap s.lock.value)) in
      (
        t,
        v,
        one s i Pc.init_read s.lock (Pc.returned (unwrap s.lock.value)) e Move.init_get,
        update_self s.pc i (Pc.returned (unwrap s.lock.value)) ∙ rw full refl,
      )

  module _ (s : System A) (i : ℕ) (v : A) (h : s.lock.once ≡ initialized)
      (full : s.lock.value ≡ some v) where
    -- The places of a waiting thread, once the cell is initialised.
    read_after : (q : Pc A) → s.pc i ≡ q → Move s.lock q s.lock Pc.init_read → Completes s i
    read_after q e mv =
        Completes-after s i i q s.lock Pc.init_read e mv
          (at_read (moved s i s.lock Pc.init_read) i v (update_self s.pc i Pc.init_read) full)

    pub at_load : s.pc i ≡ Pc.init_load → Completes s i
    at_load e = read_after Pc.init_load e (Move.init_fast h)

    pub at_check : s.pc i ≡ Pc.init_check → Completes s i
    at_check e = read_after Pc.init_check e (Move.init_ready h)

  pub at_wait :
      (s : System A) (i : ℕ) (v : A)
      → s.lock.once ≡ initialized
      → s.lock.value ≡ some v
      → s.pc i ≡ Pc.init_wait
      → Completes s i
  at_wait s i v h full e =
      Completes-after s i i Pc.init_wait s.lock Pc.init_check e (Move.init_leave (λ x. omega arith))
        (at_check (moved s i s.lock Pc.init_check) i v h full (update_self s.pc i Pc.init_check))

  pub at_exchange :
      (s : System A) (i : ℕ) (v : A)
      → s.lock.once ≡ initialized
      → s.lock.value ≡ some v
      → s.pc i ≡ Pc.init_exchange
      → Completes s i
  at_exchange s i v h full e =
      Completes-after s i i Pc.init_exchange s.lock Pc.init_wait e
        (Move.init_lose (λ x. omega arith))
        (at_wait (moved s i s.lock Pc.init_wait) i v h full (update_self s.pc i Pc.init_wait))

  -- A thread that owns the cell finishes its own call.
  pub own_publish :
      (s : System A) (i : ℕ) (v : A)
      → s.lock.value ≡ some v
      → s.pc i ≡ Pc.init_publish v
      → Completes s i
  own_publish s i v full e =
      let m : OnceLock A = record (s.lock) { once = initialized } in
      Completes-after s i i (Pc.init_publish v) m Pc.init_read e Move.init_done
        (at_read (moved s i m Pc.init_read) i v (update_self s.pc i Pc.init_read) full)

  pub own_write : (s : System A) (i : ℕ) (v : A) → s.pc i ≡ Pc.init_write v → Completes s i
  own_write s i v e =
      let m : OnceLock A = record (s.lock) { value = some v } in
      Completes-after s i i (Pc.init_write v) m (Pc.init_publish v) e Move.init_store (
        own_publish (moved s i m (Pc.init_publish v)) i v refl
          (update_self s.pc i (Pc.init_publish v)))

  pub own_call : (s : System A) (i : ℕ) (v : A) → s.pc i ≡ Pc.init_call → Completes s i
  own_call s i v e =
      Completes-after s i i Pc.init_call s.lock (Pc.init_write v) e Move.init_value
        (own_write (moved s i s.lock (Pc.init_write v)) i v (update_self s.pc i (Pc.init_write v)))

  -- The cell is free: the thread takes it.
  pub free_exchange :
      (s : System A) (i : ℕ) (v : A)
      → s.lock.once ≡ uninitialized
      → s.pc i ≡ Pc.init_exchange
      → Completes s i
  free_exchange s i v h e =
      let m : OnceLock A = record (s.lock) { once = initializing } in
      Completes-after s i i Pc.init_exchange m Pc.init_call e (Move.init_win h)
        (own_call (moved s i m Pc.init_call) i v (update_self s.pc i Pc.init_call))

  pub free_load :
      (s : System A) (i : ℕ) (v : A)
      → s.lock.once ≡ uninitialized
      → s.pc i ≡ Pc.init_load
      → Completes s i
  free_load s i v h e =
      Completes-after s i i Pc.init_load s.lock Pc.init_exchange e
        (Move.init_slow (λ x. omega arith))
        (free_exchange (moved s i s.lock Pc.init_exchange) i v h
          (update_self s.pc i Pc.init_exchange))

  pub free_check :
      (s : System A) (i : ℕ) (v : A)
      → s.lock.once ≡ uninitialized
      → s.pc i ≡ Pc.init_check
      → Completes s i
  free_check s i v h e =
      Completes-after s i i Pc.init_check s.lock Pc.init_load e (Move.init_retry (λ x. omega arith))
        (free_load (moved s i s.lock Pc.init_load) i v h (update_self s.pc i Pc.init_load))

  pub free_wait :
      (s : System A) (i : ℕ) (v : A)
      → s.lock.once ≡ uninitialized
      → s.pc i ≡ Pc.init_wait
      → Completes s i
  free_wait s i v h e =
      Completes-after s i i Pc.init_wait s.lock Pc.init_check e (Move.init_leave (λ x. omega arith))
        (free_check (moved s i s.lock Pc.init_check) i v h (update_self s.pc i Pc.init_check))
