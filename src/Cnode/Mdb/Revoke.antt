-- ===== src/Cnode/Mdb/Revoke.antt =====
-- `revoke` erases every capability behind a slot and takes it out of the chain.
use chick.Common.{
  ℕ, zero, suc, ◌≡◌, ◌≤◌, refl, ◌∙◌, ap, ◌||◌, Bool, true, false, none, some, List, [], ◌∷◌, ◌++◌,
  ◌==◌, if◌then◌else◌, length, arith,
}
use chick.Common.Chain.{IsDistinct, has, first, next_first}
use chick.Common.Chain
use chick.Common.Store.{update}
use chick.Objects.{CapRaw, default}
use chick.Cnode.{Slots}
use chick.Cnode.Mdb.{mdb_remove, erased, revoke_from, revoke}
use chick.Cnode.Mdb.Laws.{
  IsChain, IsIsolated, SameCap, nexts, prevs, mdb_remove-IsChain, remove-outside,
}

-- A change that keeps all links keeps the chain.
erase-IsChain :
    (mem : Slots) (ptr : ℕ) (xs : List ℕ)
    → IsChain mem xs
    → IsChain (update mem ptr (erased (mem ptr))) xs
erase-IsChain mem ptr xs c = record {
  distinct = c.distinct;
  last = c.last;
  linked =
      Chain.Seg-ext (nexts mem) (prevs mem) (nexts mem') (prevs mem') none (first xs) c.last none xs
        (λ a j. ground arith) (λ a j. ground arith) c.linked;
}
  where
    mem' : Slots
    mem' = update mem ptr (erased (mem ptr))

-- `mem'` has null capabilities in the slots of the list, and those of `mem` elsewhere.
abbrev pub Revoked : Slots → List ℕ → Slots → Type 0
Revoked mem xs mem' = (a : ℕ) → SameCap (mem' a) (if has a xs then default else mem a)

abbrev pub AllIsolated : Slots → List ℕ → Type 0
AllIsolated mem [] = Unit {0}
AllIsolated mem (x ∷ xs) = IsIsolated (mem x) × AllIsolated mem xs

-- One round of the loop.
record Round (mem : Slots) (ps : List ℕ) (ptr : ℕ) (zs : List ℕ) (mem' : Slots) : Type 0 where
  chain : IsChain mem' (ps ++ zs)
  revoked : (a : ℕ) → SameCap (mem' a) (if a == ptr then default else mem a)
  isolated : IsIsolated (mem' ptr)
  outside :
      (a : ℕ)
      → has a (ps ++ ptr ∷ zs) ≡ false
      → (nexts mem' a ≡ nexts mem a) × (prevs mem' a ≡ prevs mem a)

round :
    (mem : Slots) (ps : List ℕ) (ptr : ℕ) (zs : List ℕ)
    → IsChain mem (ps ++ ptr ∷ zs)
    → Round mem ps ptr zs (mdb_remove ptr (update mem ptr (erased (mem ptr))))
round mem ps ptr zs c =
    let mem1 : Slots = update mem ptr (erased (mem ptr)) in
    let c1 = erase-IsChain mem ptr (ps ++ ptr ∷ zs) c in
    let (chain, apart, same) = mdb_remove-IsChain mem1 ps ptr zs c1 in
    record {
      chain = chain;
      revoked = λ a. record {
        arg1 = (same a).arg1 ∙ ground arith;
        arg2 = (same a).arg2 ∙ ground arith;
        paddr = (same a).paddr ∙ ground arith;
        cap_type = (same a).cap_type ∙ ground arith;
        rights = (same a).rights ∙ ground arith;
      };
      isolated = apart;
      outside = λ a out.
          let (n, p) = remove-outside mem1 ps ptr zs a c1 out in
          (n ∙ ground arith, p ∙ ground arith);
    }

record Loop (mem : Slots) (ps zs : List ℕ) (mem' : Slots) : Type 0 where
  chain : IsChain mem' (ps ++ [])
  revoked : Revoked mem zs mem'
  isolated : AllIsolated mem' zs
  outside :
      (a : ℕ)
      → has a (ps ++ zs) ≡ false
      → (nexts mem' a ≡ nexts mem a) × (prevs mem' a ≡ prevs mem a)

SameCap-trans : (a b c : CapRaw) → SameCap a b → SameCap b c → SameCap a c
SameCap-trans a b c s t = record {
  arg1 = s.arg1 ∙ t.arg1;
  arg2 = s.arg2 ∙ t.arg2;
  paddr = s.paddr ∙ t.paddr;
  cap_type = s.cap_type ∙ t.cap_type;
  rights = s.rights ∙ t.rights;
}

SameCap-merge :
    (x y z : CapRaw) (p q : Bool)
    → SameCap x (if q then default else y)
    → SameCap y (if p then default else z)
    → SameCap x (if p || q then default else z)
SameCap-merge x y z true true s t = s
SameCap-merge x y z true false s t = SameCap-trans x y default s t
SameCap-merge x y z false true s t = s
SameCap-merge x y z false false s t = SameCap-trans x y z s t

loop :
    (n : ℕ) (mem : Slots) (ps zs : List ℕ)
    → IsChain mem (ps ++ zs)
    → length zs ≤ n
    → (mem' : Slots) × (revoke_from n (first zs) mem ≡ some mem') × Loop mem ps zs mem'
unfolding revoke_from
loop n mem ps [] c fits = (
  mem,
  refl,
  record {
    chain = c;
    revoked =
        λ a. record { arg1 = refl; arg2 = refl; paddr = refl; cap_type = refl; rights = refl };
    isolated = tt;
    outside = λ a out. (refl, refl);
  },
)
loop zero mem ps (z ∷ zs) c fits = absurd (omega arith)
loop (suc n) mem ps (z ∷ zs) c fits =
    let mem1 : Slots = mdb_remove z (update mem z (erased (mem z))) in
    let r = round mem ps z zs c in
    let next =
      next_first (nexts mem) (prevs mem) none (first (ps ++ z ∷ zs)) c.last ps z zs c.linked in
    let (out, rest) = Chain.IsDistinct-middle ps z zs c.distinct in
    let (mem', e, l) = loop n mem1 ps zs r.chain (omega arith) in
    (
      mem',
      ap (λ o. revoke_from n o mem1) next ∙ e,
      record {
        chain = l.chain;
        revoked = λ a.
            SameCap-merge (mem' a) (mem1 a) (mem a) (a == z) (has a zs) (l.revoked a) (r.revoked a);
        isolated =
            (let (n1, p1) = l.outside z out in (p1 ∙ r.isolated.0, n1 ∙ r.isolated.1), l.isolated);
        outside = λ a o.
            let (n1, p1) =
              l.outside a
                (ground (arith, Chain.has-append a ps zs, Chain.has-append a ps (z ∷ zs))) in
            let (n2, p2) = r.outside a o in (n1 ∙ n2, p1 ∙ p2);
      },
    )

append_nil : (xs : List ℕ) → xs ++ [] ≡ xs
append_nil [] = refl
append_nil (x ∷ xs) = ap (λ ys. x ∷ ys) (append_nil xs)

append_middle : (ys : List ℕ) (t : ℕ) (zs : List ℕ) → (ys ++ t ∷ []) ++ zs ≡ ys ++ t ∷ zs
append_middle [] t zs = refl
append_middle (y ∷ ys) t zs = ap (λ xs. y ∷ xs) (append_middle ys t zs)

-- With as many rounds as there are slots behind the slot in its chain, `revoke` returns. The chain
-- then ends at the slot; every slot behind it holds a null capability without links, and no
-- other capability has changed.
pub revoke-IsChain :
    (rounds : ℕ) (mem : Slots) (ys : List ℕ) (t : ℕ) (zs : List ℕ)
    → IsChain mem (ys ++ t ∷ zs)
    → length zs ≤ rounds
    → (mem' : Slots) × (revoke rounds t mem ≡ some mem')
      × IsChain mem' (ys ++ t ∷ [])
      × Revoked mem zs mem'
      × AllIsolated mem' zs
unfolding revoke
revoke-IsChain rounds mem ys t zs c fits =
    let next =
      next_first (nexts mem) (prevs mem) none (first (ys ++ t ∷ zs)) c.last ys t zs c.linked in
    let (mem', e, l) = loop rounds mem (ys ++ t ∷ []) zs (rw (append_middle ys t zs) c) fits in
    (
      mem',
      ap (λ o. revoke_from rounds o mem) next ∙ e,
      rw (append_nil (ys ++ t ∷ [])) at l.chain,
      l.revoked,
      l.isolated,
    )
