-- ===== src/Cnode/Spec/Edits.antt =====
-- kernel/src/objects/cnode.rs: the operations of the MDB keep what the source specifies of a chain.
use chick.Common.{
  ℕ, suc, ◌+◌, ◌≤◌, ◌≡◌, refl, ap, ◌∙◌, Bool, true, false, not, ◌&&◌, Option, none, some, List, [],
  ◌∷◌, ◌++◌, ◌==◌, if◌then◌else◌, Bool-cases, inl, inr, length, arith,
}
use chick.Common.Chain.{has}
use chick.Cnode.{Slots}
use chick.Cnode.Mdb.{mdb_insert_after, mdb_remove, revoke}
use chick.Cnode.Mdb.Laws.{IsChain, mdb_insert_after-IsChain, mdb_remove-IsChain}
use chick.Cnode.Mdb.Revoke.{revoke-IsChain}
use chick.Cnode.Spec.{WellFormed, Acyclic}
use chick.Cnode.Spec.Chain.{IsChain-iff}

-- A call of one of the three operations.
pub data Edit : Type 0 where
  inserts : (src dst : ℕ) → Edit
  removes : (self : ℕ) → Edit
  revokes : (self : ℕ) → Edit

-- The call of the code; `revoke` gets a bound on its rounds.
unfoldable pub edit : ℕ → Edit → Slots → Option Slots
unfolding mdb_insert_after mdb_remove revoke
edit rounds (inserts src dst) mem = some (mdb_insert_after src dst mem)
edit rounds (removes self) mem = some (mdb_remove self mem)
edit rounds (revokes self) mem = revoke rounds self mem

-- A call once the one before has ended.
abbrev pub and_then : Option Slots → (Slots → Option Slots) → Option Slots
and_then none f = none
and_then (some mem) f = f mem

-- Calls one after the other.
unfoldable pub edit_all : ℕ → List Edit → Slots → Option Slots
edit_all rounds [] mem = some mem
edit_all rounds (e ∷ es) mem = and_then (edit rounds e mem) (edit_all rounds es)

abbrev pub behind : ℕ → ℕ → List ℕ → List ℕ
behind src dst [] = []
behind src dst (x ∷ xs) = if src == x then x ∷ (dst ∷ xs) else x ∷ behind src dst xs

abbrev pub without : ℕ → List ℕ → List ℕ
without t [] = []
without t (x ∷ xs) = if t == x then xs else x ∷ without t xs

abbrev pub up_to : ℕ → List ℕ → List ℕ
up_to t [] = []
up_to t (x ∷ xs) = if t == x then x ∷ [] else x ∷ up_to t xs

-- What a call makes of the list of the slots of the chain.
abbrev pub promised : Edit → List ℕ → List ℕ
promised (inserts src dst) xs = behind src dst xs
promised (removes self) xs = without self xs
promised (revokes self) xs = up_to self xs

abbrev pub promised_all : List Edit → List ℕ → List ℕ
promised_all [] xs = xs
promised_all (e ∷ es) xs = promised_all es (promised e xs)

-- What the caller has to ensure: the slot is in the chain, and a slot to insert is not.
abbrev pub is_allowed : Edit → List ℕ → Bool
is_allowed (inserts src dst) xs = has src xs && not (has dst xs)
is_allowed (removes self) xs = has self xs
is_allowed (revokes self) xs = has self xs

abbrev pub all_allowed : List Edit → List ℕ → Bool
all_allowed [] xs = true
all_allowed (e ∷ es) xs = is_allowed e xs && all_allowed es (promised e xs)

record Split (t : ℕ) (xs : List ℕ) : Type 0 where
  before : List ℕ
  rest : List ℕ
  whole : xs ≡ before ++ t ∷ rest
  inserted : (d : ℕ) → behind t d xs ≡ before ++ t ∷ (d ∷ rest)
  removed : without t xs ≡ before ++ rest
  revoked : up_to t xs ≡ before ++ t ∷ []
  fits : length rest ≤ length xs

has-Split : (t : ℕ) (xs : List ℕ) → has t xs ≡ true → Split t xs
has-Split t [] h = absurd (cc)
has-Split t (x ∷ xs) h = elim (Bool-cases (t == x)) [
  | inl e ↦ record {
    before = [];
    rest = xs;
    whole = ground arith;
    inserted = λ d. ground arith;
    removed = ground arith;
    revoked = ground arith;
    fits = omega arith;
  }
  | inr e ↦
      let s = has-Split t xs (ground arith) in
      record {
        before = x ∷ s.before;
        rest = s.rest;
        whole = ap (λ (l : List ℕ). x ∷ l) s.whole;
        inserted = λ d. rw e (ap (λ (l : List ℕ). x ∷ l) (s.inserted d));
        removed = rw e (ap (λ (l : List ℕ). x ∷ l) s.removed);
        revoked = rw e (ap (λ (l : List ℕ). x ∷ l) s.revoked);
        fits = omega (arith, s.fits);
      }
]

length-promised : (e : Edit) (xs : List ℕ) → length (promised e xs) ≤ suc (length xs)
length-promised (inserts src dst) [] = omega arith
length-promised (inserts src dst) (x ∷ xs) =
    let i = length-promised (inserts src dst) xs in ground arith
length-promised (removes t) [] = omega arith
length-promised (removes t) (x ∷ xs) = let i = length-promised (removes t) xs in ground arith
length-promised (revokes t) [] = omega arith
length-promised (revokes t) (x ∷ xs) = let i = length-promised (revokes t) xs in ground arith

edit-IsChain :
    (rounds : ℕ) (e : Edit) (mem : Slots) (xs : List ℕ)
    → IsChain mem xs
    → is_allowed e xs ≡ true
    → length xs ≤ rounds
    → (mem' : Slots) × (edit rounds e mem ≡ some mem') × IsChain mem' (promised e xs)
unfolding edit
edit-IsChain rounds (inserts src dst) mem xs c ok fits =
    let inside : has src xs ≡ true = ground arith in
    let out : has dst xs ≡ false = ground arith in
    let s = has-Split src xs inside in
    (
      mdb_insert_after src dst mem,
      refl,
      rw (s.inserted dst)
          (mdb_insert_after-IsChain mem s.before src s.rest dst (rw s.whole at c)
            (rw s.whole at out)).0,
    )
edit-IsChain rounds (removes t) mem xs c ok fits =
    let s = has-Split t xs ok in
    (
      mdb_remove t mem,
      refl,
      rw s.removed (mdb_remove-IsChain mem s.before t s.rest (rw s.whole at c)).0,
    )
edit-IsChain rounds (revokes t) mem xs c ok fits =
    let s = has-Split t xs ok in
    let (mem', e, l, r, i) =
      revoke-IsChain rounds mem s.before t s.rest (rw s.whole at c) (omega (arith, s.fits)) in
    (mem', e, rw s.revoked l)

edit_all-next :
    (rounds : ℕ) (e : Edit) (es : List Edit) (mem mem1 : Slots)
    → edit rounds e mem ≡ some mem1
    → edit_all rounds (e ∷ es) mem ≡ edit_all rounds es mem1
unfolding edit_all
edit_all-next rounds e es mem mem1 h = ap (λ (o : Option Slots). and_then o (edit_all rounds es)) h

edit_all-IsChain :
    (rounds : ℕ) (es : List Edit) (mem : Slots) (xs : List ℕ)
    → IsChain mem xs
    → all_allowed es xs ≡ true
    → length xs + length es ≤ rounds
    → (mem' : Slots) × (edit_all rounds es mem ≡ some mem') × IsChain mem' (promised_all es xs)
unfolding edit_all
edit_all-IsChain rounds [] mem xs c ok fits = (mem, refl, c)
edit_all-IsChain rounds (e ∷ es) mem xs c ok fits =
    let (mem1, e1, c1) = edit-IsChain rounds e mem xs c (ground arith) (omega arith) in
    let (mem2, e2, c2) =
      edit_all-IsChain rounds es mem1 (promised e xs) c1 (ground arith)
        (omega (arith, length-promised e xs)) in
    (mem2, edit_all-next rounds e es mem mem1 e1 ∙ e2, c2)

-- A chain that is well formed and acyclic, as the source specifies, stays so through any sequence of
-- `mdb_insert_after`, `mdb_remove` and `revoke`: insertion puts the slot right behind the one given,
-- removal takes one slot out, and revocation takes out all that are behind the slot. Each call is
-- for a slot of the chain, and a slot that is inserted is not in it. Every loop of `revoke` ends
-- within as many rounds as there are slots and calls.
pub edit_all-WellFormed :
    (rounds : ℕ) (es : List Edit) (mem : Slots) (xs : List ℕ)
    → WellFormed mem xs
    → Acyclic xs
    → all_allowed es xs ≡ true
    → length xs + length es ≤ rounds
    → (mem' : Slots) × (edit_all rounds es mem ≡ some mem')
      × WellFormed mem' (promised_all es xs)
      × Acyclic (promised_all es xs)
edit_all-WellFormed rounds es mem xs w a ok fits =
    let (mem', e, c) = edit_all-IsChain rounds es mem xs ((IsChain-iff mem xs).1 (w, a)) ok fits in
    let (w', a') = (IsChain-iff mem' (promised_all es xs)).0 c in (mem', e, w', a')
