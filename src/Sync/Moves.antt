-- ===== src/Sync/Moves.antt =====
-- Every step of every thread keeps the invariant.
use chick.Common.{ℕ, ◌≡◌, refl, true, false, Option, none, some, is_none, arith, ap, sym, ◌∙◌}
use mathlib.Core.Path.{subst}
use chick.Common.Store.{update}
use chick.Sync.{
  OnceLock, initializing, initialized, Result, Pc, Move, System, Step, pick, Steps, here, next,
  unwrap,
}
use chick.Sync.Invariant.{
  owns, Knows, Inv, local_move, Alone, owner-Alone, free-Alone, owning_move, leaving_move,
}
use chick.Sync.Nested.{Move-Stays}

module _ {A : Type 0} where
  module _ (m : OnceLock A) (pc : ℕ → Pc A) (i : ℕ) (inv : Inv m pc) where
    here-Knows : (q : Pc A) → q ≡ pc i → Knows m q
    here-Knows q e = subst (λ (x : Pc A). Knows m x) (sym e) (inv.knows i)

    move_local :
        (q p : Pc A)
        → q ≡ pc i
        → owns q ≡ false
        → owns p ≡ false
        → Knows m p
        → Inv m (update pc i p)
    move_local q p e o o' k = local_move m pc i p (ap (λ (x : Pc A). owns x) (sym e) ∙ o) o' k inv

    move_owned : (q : Pc A) → q ≡ pc i → owns q ≡ true → (m.once ≡ initializing) × Alone m pc i
    move_owned q e o =
        let o' : owns (pc i) ≡ true = ap (λ (x : Pc A). owns x) (sym e) ∙ o in
        (inv.owned i o', owner-Alone m pc i o' inv)

    -- A value that a read of the initialised cell gives.
    read-Knows :
        (o : Option A) → m.value ≡ o → m.once ≡ initialized → Knows m (Pc.returned (unwrap o))
    read-Knows none e k =
        (let f = inv.filled k in let g : is_none m.value ≡ true = rw e refl in absurd (cc))
    read-Knows (some v) e k = (k, e)

    got-Knows :
        (o : Option A) → m.value ≡ o → m.once ≡ initialized → Knows m (Pc.returned (Result.got o))
    got-Knows none e k = tt
    got-Knows (some v) e k = (k, e)

    unwrap-owns : (o : Option A) → owns (Pc.returned (unwrap o)) ≡ false
    unwrap-owns none = refl
    unwrap-owns (some v) = refl

    pub Move-Inv :
        (q p : Pc A) (m' : OnceLock A) → q ≡ pc i → Move m q m' p → Inv m' (update pc i p)
    Move-Inv q p m' e Move.call_get = move_local q p e refl refl tt
    Move-Inv q p m' e Move.call_init = move_local q p e refl refl tt
    Move-Inv q p m' e Move.call_set = move_local q p e refl refl tt
    Move-Inv q p m' e Move.leave = move_local q p e refl refl tt
    Move-Inv q p m' e (Move.get_hit h) = move_local q p e refl refl h
    Move-Inv q p m' e (Move.get_miss h) = move_local q p e refl refl tt
    Move-Inv q p m' e Move.get_value =
        move_local q p e refl refl (got-Knows m.value refl (here-Knows q e))
    Move-Inv q p m' e (Move.init_fast h) = move_local q p e refl refl h
    Move-Inv q p m' e (Move.init_slow h) = move_local q p e refl refl tt
    Move-Inv q p m' e (Move.init_win h) =
        owning_move m m' pc i p refl refl tt (free-Alone m pc i h inv) inv
    Move-Inv q p m' e (Move.init_lose h) = move_local q p e refl refl tt
    Move-Inv q p m' e Move.init_value =
        let (b, a) = move_owned q e refl in owning_move m m' pc i p refl b tt a inv
    Move-Inv q p m' e Move.init_within =
        let (b, a) = move_owned q e refl in owning_move m m' pc i p refl b refl a inv
    Move-Inv q p m' e Move.within_ends =
        let (b, a) = move_owned q e refl in owning_move m m' pc i p refl b tt a inv
    Move-Inv q p m' e (Move.nested {q = r} {p = t} v) =
        let (b, a) = move_owned q e refl in
        let (same, k, g) = Move-Stays m m' r t v (here-Knows q e) b in
        owning_move m m' pc i p refl (ap (λ (l : OnceLock A). l.once) same ∙ b) k a inv
    Move-Inv q p m' e Move.init_abort =
        let (b, a) = move_owned q e refl in owning_move m m' pc i p refl b tt a inv
    Move-Inv q p m' e Move.init_panic =
        let (b, a) = move_owned q e refl in
        leaving_move m m' pc i p refl (λ x. omega arith) (omega arith) (λ x. absurd (omega arith))
          tt a inv
    Move-Inv q p m' e Move.init_store =
        let (b, a) = move_owned q e refl in owning_move m m' pc i p refl b refl a inv
    Move-Inv q p m' e Move.init_done =
        let (b, a) = move_owned q e refl in
        leaving_move m m' pc i p refl (λ x. omega arith) (omega arith)
          (λ x. ap (λ (o : Option A). is_none o) (here-Knows q e)) refl a inv
    Move-Inv q p m' e (Move.init_spin h) = move_local q p e refl refl tt
    Move-Inv q p m' e (Move.init_leave h) = move_local q p e refl refl tt
    Move-Inv q p m' e (Move.init_ready h) = move_local q p e refl refl h
    Move-Inv q p m' e (Move.init_retry h) = move_local q p e refl refl tt
    Move-Inv q p m' e Move.init_get =
        move_local q p e refl (unwrap-owns m.value) (read-Knows m.value refl (here-Knows q e))
    Move-Inv q p m' e (Move.set_win h) =
        owning_move m m' pc i p refl refl tt (free-Alone m pc i h inv) inv
    Move-Inv q p m' e (Move.set_lose h) = move_local q p e refl refl tt
    Move-Inv q p m' e Move.set_store =
        let (b, a) = move_owned q e refl in owning_move m m' pc i p refl b refl a inv
    Move-Inv q p m' e Move.set_done =
        let (b, a) = move_owned q e refl in
        leaving_move m m' pc i p refl (λ x. omega arith) (omega arith)
          (λ x. ap (λ (o : Option A). is_none o) (here-Knows q e)) tt a inv

  pub Step-Inv : {s t : System A} → Step s t → Inv s.lock s.pc → Inv t.lock t.pc
  Step-Inv {s} (pick i {m} {p} mv) inv = Move-Inv s.lock s.pc i inv (s.pc i) p m refl mv

  pub Steps-Inv : {s t : System A} → Steps s t → Inv s.lock s.pc → Inv t.lock t.pc
  Steps-Inv here inv = inv
  Steps-Inv (next r st) inv = Step-Inv st (Steps-Inv r inv)
