-- ===== src/Sync/Nested.antt =====
-- The calls within the function of `get_or_init` do not change the cell, and one of `get_or_init`
-- itself does not return.
use chick.Common.{◌≡◌, refl, Bool, true, false, arith}
use chick.Sync.{OnceLock, initializing, Pc, Move}
use chick.Sync.Invariant.{inside}

-- Within a call of `get_or_init` that has not returned.
abbrev pub initializes : {A : Type 0} → Pc A → Bool
initializes Pc.init_load = true
initializes Pc.init_exchange = true
initializes Pc.init_call = true
initializes (Pc.init_write v) = true
initializes (Pc.init_publish v) = true
initializes Pc.init_wait = true
initializes Pc.init_check = true
initializes Pc.init_read = true
initializes (Pc.within q) = true
initializes Pc.aborted = true
initializes _ = false

module _ {A : Type 0} where
  -- The place stays one of a nested call, and one of `get_or_init` if it is.
  abbrev pub Stays : OnceLock A → OnceLock A → Pc A → Pc A → Type 0
  Stays m m' q p = (m' ≡ m) × (inside p ≡ true) × (initializes q ≡ true → initializes p ≡ true)

  pub Move-Stays :
      (m m' : OnceLock A) (q p : Pc A)
      → Move m q m' p
      → inside q ≡ true
      → m.once ≡ initializing
      → Stays m m' q p
  Move-Stays m m' q p Move.call_get i w = (refl, refl, λ e. absurd (cc))
  Move-Stays m m' q p Move.call_init i w = (refl, refl, λ e. absurd (cc))
  Move-Stays m m' q p Move.call_set i w = (refl, refl, λ e. absurd (cc))
  Move-Stays m m' q p Move.leave i w = (refl, refl, λ e. absurd (cc))
  Move-Stays m m' q p (Move.get_hit h) i w = absurd (omega arith)
  Move-Stays m m' q p (Move.get_miss h) i w = (refl, refl, λ e. absurd (cc))
  Move-Stays m m' q p Move.get_value i w = absurd (cc)
  Move-Stays m m' q p (Move.init_fast h) i w = absurd (omega arith)
  Move-Stays m m' q p (Move.init_slow h) i w = (refl, refl, λ e. refl)
  Move-Stays m m' q p (Move.init_win h) i w = absurd (omega arith)
  Move-Stays m m' q p (Move.init_lose h) i w = (refl, refl, λ e. refl)
  Move-Stays m m' q p Move.init_value i w = absurd (cc)
  Move-Stays m m' q p Move.init_within i w = absurd (cc)
  Move-Stays m m' q p Move.within_ends i w = absurd (cc)
  Move-Stays m m' q p (Move.nested n) i w = absurd (cc)
  Move-Stays m m' q p Move.init_abort i w = absurd (cc)
  Move-Stays m m' q p Move.init_panic i w = absurd (cc)
  Move-Stays m m' q p Move.init_store i w = absurd (cc)
  Move-Stays m m' q p Move.init_done i w = absurd (cc)
  Move-Stays m m' q p (Move.init_spin h) i w = (refl, refl, λ e. refl)
  Move-Stays m m' q p (Move.init_leave h) i w = absurd (h w)
  Move-Stays m m' q p (Move.init_ready h) i w = absurd (cc)
  Move-Stays m m' q p (Move.init_retry h) i w = absurd (cc)
  Move-Stays m m' q p Move.init_get i w = absurd (cc)
  Move-Stays m m' q p (Move.set_win h) i w = absurd (omega arith)
  Move-Stays m m' q p (Move.set_lose h) i w = (refl, refl, λ e. absurd (cc))
  Move-Stays m m' q p Move.set_store i w = absurd (cc)
  Move-Stays m m' q p Move.set_done i w = absurd (cc)
