-- ===== src/Sync/Within.antt =====
-- A thread in the function of `get_or_init` comes back from a call of `get` or `set` there.
use chick.Common.{ℕ, ◌≡◌, true, false, none, arith}
use chick.Common.Store.{update_self}
use chick.Sync.{OnceLock, initializing, Result, Pc, Move, System}
use chick.Sync.Alone.{moved}
use chick.Sync.Invariant.{inside}
use chick.Sync.Nested.{initializes}

module _ {A : Type 0} where
  -- What holds if it holds after a move of thread `j`, and while that is in the function of
  -- `get_or_init`, holds while a call within the function can return.
  module _ (P : System A → Type 0) (j : ℕ)
      (after : (s : System A) (q : Pc A) (m : OnceLock A) (p : Pc A)
        → s.pc j ≡ q
        → Move s.lock q m p
        → P (moved s j m p)
        → P s)
      (base : (s : System A) → s.pc j ≡ Pc.init_call → P s) where
    from_idle : (s : System A) → s.pc j ≡ Pc.within Pc.idle → P s
    from_idle s e =
        after s (Pc.within Pc.idle) s.lock Pc.init_call e Move.within_ends
          (base (moved s j s.lock Pc.init_call) (update_self s.pc j Pc.init_call))

    from_returned : (s : System A) (r : Result A) → s.pc j ≡ Pc.within (Pc.returned r) → P s
    from_returned s r e =
        after s (Pc.within (Pc.returned r)) s.lock (Pc.within Pc.idle) e (Move.nested Move.leave) (
          from_idle (moved s j s.lock (Pc.within Pc.idle)) (update_self s.pc j (Pc.within Pc.idle)))

    from_last :
        (s : System A) (q : Pc A) (r : Result A)
        → s.pc j ≡ Pc.within q
        → Move s.lock q s.lock (Pc.returned r)
        → P s
    from_last s q r e mv =
        after s (Pc.within q) s.lock (Pc.within (Pc.returned r)) e (Move.nested mv) (
          from_returned (moved s j s.lock (Pc.within (Pc.returned r))) r
            (update_self s.pc j (Pc.within (Pc.returned r))))

    pub from_within :
        (s : System A) (q : Pc A)
        → s.pc j ≡ Pc.within q
        → inside q ≡ true
        → initializes q ≡ false
        → s.lock.once ≡ initializing
        → P s
    from_within s Pc.idle e k n w = from_idle s e
    from_within s (Pc.returned r) e k n w = from_returned s r e
    from_within s Pc.get_load e k n w =
        from_last s Pc.get_load (Result.got none) e (Move.get_miss (λ x. omega arith))
    from_within s (Pc.set_exchange v) e k n w =
        from_last s (Pc.set_exchange v) Result.set_err e (Move.set_lose (λ x. omega arith))
    from_within s q e k n w = absurd (cc)
