-- ===== src/Sync/Invariant.antt =====
-- Who owns the cell while it is initialised; true at the start and kept by every step.
use chick.Common.{
  ℕ, ◌≤◌, ◌≡◌, ◌≢◌, Bool, true, false, none, some, is_none, ◌==◌, arith, Bool-cases, inl, inr, ap,
  sym, ◌∙◌,
}
use chick.Common.Store.{update, update_self}
use chick.Sync.{OnceLock, uninitialized, initializing, initialized, Result, Pc, new}

-- The threads that may write to the cell: between the exchange and the last store.
abbrev pub owns : {A : Type 0} → Pc A → Bool
owns Pc.init_call = true
owns (Pc.init_write v) = true
owns (Pc.init_publish v) = true
owns (Pc.set_write v) = true
owns (Pc.set_publish v) = true
owns (Pc.within q) = true
owns Pc.aborted = true
owns _ = false

-- The places that a call within the function of `get_or_init` can come to, while the cell is
-- initialised.
abbrev pub inside : {A : Type 0} → Pc A → Bool
inside Pc.idle = true
inside Pc.get_load = true
inside Pc.init_load = true
inside Pc.init_exchange = true
inside Pc.init_wait = true
inside (Pc.set_exchange v) = true
inside (Pc.returned r) = true
inside _ = false

-- What the place of a thread says about the cell.
abbrev pub Knows : {A : Type 0} → OnceLock A → Pc A → Type 0
Knows m Pc.get_read = m.once ≡ initialized
Knows m Pc.init_read = m.once ≡ initialized
Knows m (Pc.init_publish v) = m.value ≡ some v
Knows m (Pc.set_publish v) = m.value ≡ some v
Knows m (Pc.returned (Result.got (some v))) = (m.once ≡ initialized) × (m.value ≡ some v)
Knows m (Pc.returned (Result.value v)) = (m.once ≡ initialized) × (m.value ≡ some v)
Knows m (Pc.returned Result.panicked) = ⊥
Knows m (Pc.within q) = inside q ≡ true
Knows m _ = Unit {0}

module _ {A : Type 0} where
  pub record Inv (m : OnceLock A) (pc : ℕ → Pc A) : Type 0 where
    pub unique : (i j : ℕ) → owns (pc i) ≡ true → owns (pc j) ≡ true → i ≡ j
    pub owned : (i : ℕ) → owns (pc i) ≡ true → m.once ≡ initializing
    pub held : m.once ≡ initializing → (i : ℕ) × (owns (pc i) ≡ true)
    pub range : m.once ≤ initialized
    pub filled : m.once ≡ initialized → is_none m.value ≡ false
    pub knows : (i : ℕ) → Knows m (pc i)

  pub init-Inv : Inv new (λ i. Pc.idle)
  init-Inv = record {
    unique = λ i j p q. cc;
    owned = λ i p. cc;
    held = λ h. absurd (omega arith);
    range = omega arith;
    filled = λ h. absurd (omega arith);
    knows = λ i. tt;
  }

  at_other :
      (pc : ℕ → Pc A) (i : ℕ) (p : Pc A) (j : ℕ)
      → owns p ≡ false
      → owns (update pc i p j) ≡ true
      → owns (pc j) ≡ true
  at_other pc i p j o h = elim (Bool-cases (i == j)) [
    | inl e ↦ (let q = rw e at h in cc)
    | inr e ↦ rw e at h
  ]

  stays :
      (pc : ℕ → Pc A) (i : ℕ) (p : Pc A) (j : ℕ)
      → owns (pc i) ≡ false
      → owns (pc j) ≡ true
      → owns (update pc i p j) ≡ true
  stays pc i p j o h = elim (Bool-cases (i == j)) [
    | inl e ↦
        (let q : i ≡ j = ground arith in absurd (ground (arith, ap (λ (k : ℕ). owns (pc k)) q)))
    | inr e ↦ rw e h
  ]

  -- What holds of all places holds after a step of one thread.
  at_all :
      (P : Pc A → Type 0) (pc : ℕ → Pc A) (i : ℕ) (p : Pc A)
      → P p
      → ((j : ℕ) → i ≢ j → P (pc j))
      → (j : ℕ) → P (update pc i p j)
  at_all P pc i p own others j = elim (Bool-cases (i == j)) [
    | inl e ↦ rw e own
    | inr e ↦ rw e (others j (ground arith))
  ]

  -- A move that leaves the cell alone, of a thread that owns it neither before nor after.
  pub local_move :
      (m : OnceLock A) (pc : ℕ → Pc A) (i : ℕ) (p : Pc A)
      → owns (pc i) ≡ false
      → owns p ≡ false
      → Knows m p
      → Inv m pc
      → Inv m (update pc i p)
  local_move m pc i p before after k inv = record {
    unique = λ a b x y. inv.unique a b (at_other pc i p a after x) (at_other pc i p b after y);
    owned = λ a x. inv.owned a (at_other pc i p a after x);
    held = λ h. let (j, o) = inv.held h in (j, stays pc i p j before o);
    range = inv.range;
    filled = inv.filled;
    knows = at_all (Knows m) pc i p k (λ j ne. inv.knows j);
  }

  -- A thread that does not own the cell knows nothing of it before it is initialised.
  Knows-other :
      (m m' : OnceLock A) (p : Pc A)
      → owns p ≡ false
      → m.once ≢ initialized
      → Knows m p
      → Knows m' p
  Knows-other m m' Pc.get_read o ne k = absurd (ne k)
  Knows-other m m' Pc.init_read o ne k = absurd (ne k)
  Knows-other m m' (Pc.init_publish v) o ne k = cc
  Knows-other m m' (Pc.set_publish v) o ne k = cc
  Knows-other m m' (Pc.within q) o ne k = cc
  Knows-other m m' Pc.aborted o ne k = tt
  Knows-other m m' (Pc.returned (Result.got (some v))) o ne k = absurd (ne k.0)
  Knows-other m m' (Pc.returned (Result.value v)) o ne k = absurd (ne k.0)
  Knows-other m m' (Pc.returned (Result.got none)) o ne k = tt
  Knows-other m m' (Pc.returned Result.set_ok) o ne k = tt
  Knows-other m m' (Pc.returned Result.set_err) o ne k = tt
  Knows-other m m' (Pc.returned Result.unwound) o ne k = tt
  Knows-other m m' (Pc.returned Result.panicked) o ne k = absurd k
  Knows-other m m' Pc.idle o ne k = tt
  Knows-other m m' Pc.get_load o ne k = tt
  Knows-other m m' Pc.init_load o ne k = tt
  Knows-other m m' Pc.init_exchange o ne k = tt
  Knows-other m m' Pc.init_call o ne k = tt
  Knows-other m m' (Pc.init_write v) o ne k = tt
  Knows-other m m' Pc.init_wait o ne k = tt
  Knows-other m m' Pc.init_check o ne k = tt
  Knows-other m m' (Pc.set_exchange v) o ne k = tt
  Knows-other m m' (Pc.set_write v) o ne k = tt

  -- No other thread than `i` owns the cell, and it is not initialised.
  pub record Alone (m : OnceLock A) (pc : ℕ → Pc A) (i : ℕ) : Type 0 where
    pub alone : (j : ℕ) → i ≢ j → owns (pc j) ≡ false
    pub pending : m.once ≢ initialized

  pub owner-Alone :
      (m : OnceLock A) (pc : ℕ → Pc A) (i : ℕ) → owns (pc i) ≡ true → Inv m pc → Alone m pc i
  owner-Alone m pc i o inv = record {
    alone = λ j ne. elim (Bool-cases (owns (pc j))) [
      | inl y ↦ absurd (ne (inv.unique i j o y))
      | inr n ↦ n
    ];
    pending = λ e. omega (arith, inv.owned i o);
  }

  pub free-Alone :
      (m : OnceLock A) (pc : ℕ → Pc A) (i : ℕ) → m.once ≡ uninitialized → Inv m pc → Alone m pc i
  free-Alone m pc i free inv = record {
    alone = λ j ne. elim (Bool-cases (owns (pc j))) [
      | inl y ↦ absurd (omega (arith, inv.owned j y))
      | inr n ↦ n
    ];
    pending = λ e. omega arith;
  }

  -- The cell is owned by `i` after the move.
  pub owning_move :
      (m m' : OnceLock A) (pc : ℕ → Pc A) (i : ℕ) (p : Pc A)
      → owns p ≡ true
      → m'.once ≡ initializing
      → Knows m' p
      → Alone m pc i
      → Inv m pc
      → Inv m' (update pc i p)
  owning_move m m' pc i p o busy k a inv = record {
    unique = λ x y hx hy. only x hx ∙ sym (only y hy);
    owned = λ x h. busy;
    held = λ h. (i, rw (update_self pc i p) o);
    range = omega arith;
    filled = λ h. absurd (omega arith);
    knows =
        at_all (Knows m') pc i p k
          (λ j ne. Knows-other m m' (pc j) (a.alone j ne) a.pending (inv.knows j));
  }
    where
      only : (x : ℕ) → owns (update pc i p x) ≡ true → x ≡ i
      only x h = elim (Bool-cases (i == x)) [
        | inl e ↦ ground arith
        | inr e ↦ (let q = rw e at h in let n = a.alone x (ground arith) in cc)
      ]

  -- The cell is owned by none after the move.
  pub leaving_move :
      (m m' : OnceLock A) (pc : ℕ → Pc A) (i : ℕ) (p : Pc A)
      → owns p ≡ false
      → m'.once ≢ initializing
      → m'.once ≤ initialized
      → (m'.once ≡ initialized → is_none m'.value ≡ false)
      → Knows m' p
      → Alone m pc i
      → Inv m pc
      → Inv m' (update pc i p)
  leaving_move m m' pc i p o quiet low full k a inv = record {
    unique = λ x y hx hy. absurd (free x hx);
    owned = λ x h. absurd (free x h);
    held = λ h. absurd (quiet h);
    range = low;
    filled = full;
    knows =
        at_all (Knows m') pc i p k
          (λ j ne. Knows-other m m' (pc j) (a.alone j ne) a.pending (inv.knows j));
  }
    where
      free : (x : ℕ) → owns (update pc i p x) ≡ true → ⊥
      free x h = elim (Bool-cases (i == x)) [
        | inl e ↦ (let q = rw e at h in cc)
        | inr e ↦ (let q = rw e at h in let n = a.alone x (ground arith) in cc)
      ]
