-- ===== src/Cnode/Mdb/Laws.antt =====
-- The MDB is a doubly linked list of distinct slots: insertion and removal of a slot.
use chick.Common.{
  ℕ, ◌≡◌, ◌≢◌, refl, sym, false, Option, none, some, List, [], ◌∷◌, ◌++◌, ◌==◌, if◌then◌else◌,
  arith,
}
use chick.Common.Chain.Edit.{Seg-insert, Seg-unlink}
use chick.Common.Chain.{Seg, IsDistinct, has, points, is_empty, first, next_first}
use chick.Common.Chain
use chick.Objects.{CapRaw}
use chick.Cnode.{Slots}
use chick.Cnode.Mdb.{mdb_insert_after, mdb_remove}

abbrev pub nexts : Slots → ℕ → Option ℕ
nexts mem a = (mem a).mdb_next

abbrev pub prevs : Slots → ℕ → Option ℕ
prevs mem a = (mem a).mdb_prev

-- The chain runs through exactly the slots of the list, in order: the first slot has no `prev`,
-- the last no `next`, and neighbours point to each other.
pub record IsChain (mem : Slots) (xs : List ℕ) : Type 0 where
  pub distinct : IsDistinct xs
  pub last : Option ℕ
  pub linked : Seg (nexts mem) (prevs mem) none (first xs) last none xs

-- The slot has no links.
abbrev pub IsIsolated : CapRaw → Type 0
IsIsolated raw = (raw.mdb_prev ≡ none) × (raw.mdb_next ≡ none)

-- The capabilities apart from their links.
pub record SameCap (a b : CapRaw) : Type 0 where
  pub arg1 : a.arg1 ≡ b.arg1
  pub arg2 : a.arg2 ≡ b.arg2
  pub paddr : a.paddr ≡ b.paddr
  pub cap_type : a.cap_type ≡ b.cap_type
  pub rights : a.rights ≡ b.rights

first-insert :
    (ys : List ℕ) (t d : ℕ) (zs : List ℕ) → first (ys ++ t ∷ zs) ≡ first (ys ++ t ∷ (d ∷ zs))
first-insert [] t d zs = refl
first-insert (y ∷ ys) t d zs = refl

first-remove :
    (ys : List ℕ) (t : ℕ) (zs : List ℕ)
    → (if is_empty ys then first zs else first (ys ++ t ∷ zs)) ≡ first (ys ++ zs)
first-remove [] t zs = refl
first-remove (y ∷ ys) t zs = refl

insert-IsDistinct :
    (ys : List ℕ) (t d : ℕ) (zs : List ℕ)
    → IsDistinct (ys ++ t ∷ zs)
    → has d (ys ++ t ∷ zs) ≡ false
    → IsDistinct (ys ++ t ∷ (d ∷ zs))
insert-IsDistinct [] t d zs dist out = (ground arith, (ground arith, dist.1))
insert-IsDistinct (y ∷ ys) t d zs dist out = (
  ground (arith, Chain.has-append y ys (t ∷ zs), Chain.has-append y ys (t ∷ (d ∷ zs))),
  insert-IsDistinct ys t d zs dist.1 (ground arith),
)

-- What the operations do to the links.
record Inserted (src dst : ℕ) (mem mem' : Slots) : Type 0 where
  next_new : nexts mem' dst ≡ nexts mem src
  prev_new : prevs mem' dst ≡ some src
  next_other : (a : ℕ) → a ≢ dst → nexts mem' a ≡ (if a == src then some dst else nexts mem a)
  prev_other :
      (a : ℕ)
      → a ≢ dst
      → prevs mem' a ≡ (if points (nexts mem src) a then some dst else prevs mem a)
  kept : (a : ℕ) → SameCap (mem' a) (mem a)

insert-Inserted :
    (src dst : ℕ) (mem : Slots)
    → src ≢ dst
    → points (nexts mem src) dst ≡ false
    → points (nexts mem src) src ≡ false
    → Inserted src dst mem (mdb_insert_after src dst mem)
unfolding mdb_insert_after
insert-Inserted src dst mem ne out self = record {
  next_new = ground arith;
  prev_new = ground arith;
  next_other = λ a h. ground arith;
  prev_other = λ a h. ground arith;
  kept = λ a. record {
    arg1 = ground arith;
    arg2 = ground arith;
    paddr = ground arith;
    cap_type = ground arith;
    rights = ground arith;
  };
}

record Removed (self : ℕ) (mem mem' : Slots) : Type 0 where
  isolated : IsIsolated (mem' self)
  next_other :
      (a : ℕ)
      → a ≢ self
      → nexts mem' a ≡ (if points (prevs mem self) a then nexts mem self else nexts mem a)
  prev_other :
      (a : ℕ)
      → a ≢ self
      → prevs mem' a ≡ (if points (nexts mem self) a then prevs mem self else prevs mem a)
  kept : (a : ℕ) → SameCap (mem' a) (mem a)

remove-Removed : (self : ℕ) (mem : Slots) → Removed self mem (mdb_remove self mem)
unfolding mdb_remove
remove-Removed self mem = record {
  isolated = (ground arith, ground arith);
  next_other = λ a h. ground arith;
  prev_other = λ a h. ground arith;
  kept = λ a. record {
    arg1 = ground arith;
    arg2 = ground arith;
    paddr = ground arith;
    cap_type = ground arith;
    rights = ground arith;
  };
}

-- Removing a slot from the middle of the chain leaves the chain of the others in their order; the
-- slot has no links then, and no capability changes otherwise.
pub mdb_remove-IsChain :
    (mem : Slots) (ys : List ℕ) (t : ℕ) (zs : List ℕ)
    → IsChain mem (ys ++ t ∷ zs)
    → let mem' = mdb_remove t mem in
      IsChain mem' (ys ++ zs) × IsIsolated (mem' t) × ((a : ℕ) → SameCap (mem' a) (mem a))
mdb_remove-IsChain mem ys t zs c = (
  record {
    distinct = d.1;
    last = if is_empty zs then prevs mem t else c.last;
    linked =
        rw (sym (first-remove ys t zs), sym after)
          (Seg-unlink (nexts mem) (prevs mem) (nexts mem') (prevs mem') none (first (ys ++ t ∷ zs))
            c.last ys t zs c.distinct tt
            (λ a j. r.next_other a (Chain.ne_of_has a t (ys ++ zs) j d.0))
            (λ a j. r.prev_other a (Chain.ne_of_has a t (ys ++ zs) j d.0)) c.linked);
  },
  r.isolated,
  r.kept,
)
  where
    mem' : Slots
    mem' = mdb_remove t mem

    r : Removed t mem mem'
    r = remove-Removed t mem

    d : (has t (ys ++ zs) ≡ false) × IsDistinct (ys ++ zs)
    d = Chain.IsDistinct-middle ys t zs c.distinct

    after : nexts mem t ≡ first zs
    after = next_first (nexts mem) (prevs mem) none (first (ys ++ t ∷ zs)) c.last ys t zs c.linked

IsDistinct-behind :
    (ys : List ℕ) (t : ℕ) (zs : List ℕ) → IsDistinct (ys ++ t ∷ zs) → has t zs ≡ false
IsDistinct-behind [] t zs d = d.0
IsDistinct-behind (y ∷ ys) t zs d = IsDistinct-behind ys t zs d.1

points-first :
    (ys : List ℕ) (t : ℕ) (zs : List ℕ) (d : ℕ)
    → has d (ys ++ t ∷ zs) ≡ false
    → (points (first zs) d ≡ false) × (t ≢ d)
points-first [] t [] d out = (refl, ground arith)
points-first [] t (z ∷ zs) d out = (ground arith, ground arith)
points-first (y ∷ ys) t zs d out = points-first ys t zs d (ground arith)

-- Inserting a slot that is not in the chain puts it right behind the slot given, and no
-- capability changes otherwise.
pub mdb_insert_after-IsChain :
    (mem : Slots) (ys : List ℕ) (t : ℕ) (zs : List ℕ) (d : ℕ)
    → IsChain mem (ys ++ t ∷ zs)
    → has d (ys ++ t ∷ zs) ≡ false
    → let mem' = mdb_insert_after t d mem in
      IsChain mem' (ys ++ t ∷ (d ∷ zs)) × ((a : ℕ) → SameCap (mem' a) (mem a))
mdb_insert_after-IsChain mem ys t zs d c out = (
  record {
    distinct = insert-IsDistinct ys t d zs c.distinct out;
    last = if is_empty zs then some d else c.last;
    linked = rw (sym (first-insert ys t d zs)) (
        Seg-insert (nexts mem) (prevs mem) (nexts mem') (prevs mem') none (first (ys ++ t ∷ zs))
          c.last ys t zs d c.distinct r.next_new r.prev_new
          (λ a j. r.next_other a (Chain.ne_of_has a d (ys ++ t ∷ zs) j out))
          (λ a j. r.prev_other a (Chain.ne_of_has a d (ys ++ t ∷ zs) j out)) c.linked);
  },
  r.kept,
)
  where
    mem' : Slots
    mem' = mdb_insert_after t d mem

    after : nexts mem t ≡ first zs
    after = next_first (nexts mem) (prevs mem) none (first (ys ++ t ∷ zs)) c.last ys t zs c.linked

    not_self : points (nexts mem t) t ≡ false
    not_self =
        Chain.next_points (nexts mem) (prevs mem) none (first (ys ++ t ∷ zs)) c.last ys t zs t
          (IsDistinct-behind ys t zs c.distinct) c.linked

    r : Inserted t d mem mem'
    r = let (p, ne) = points-first ys t zs d out in insert-Inserted t d mem ne (rw after p) not_self

prev-outside :
    (mem : Slots) (h l : Option ℕ) (ys : List ℕ) (t : ℕ) (zs : List ℕ) (a : ℕ)
    → Seg (nexts mem) (prevs mem) none h l none (ys ++ t ∷ zs)
    → has a (ys ++ t ∷ zs) ≡ false
    → points (prevs mem t) a ≡ false
prev-outside mem h l [] t zs a s out = rw s.1
prev-outside mem h l (y ∷ ys) t zs a s out =
    let (z, e, i) = Chain.prev_mem (nexts mem) (prevs mem) none h l none y ys t zs s in
    let not_before : has a (y ∷ ys) ≡ false = ground (arith, Chain.has-append a ys (t ∷ zs)) in
    rw e (ground (arith, Chain.ne_of_has z a (y ∷ ys) i not_before))

-- Removal keeps the links of the slots outside the chain.
pub remove-outside :
    (mem : Slots) (ys : List ℕ) (t : ℕ) (zs : List ℕ) (a : ℕ)
    → IsChain mem (ys ++ t ∷ zs)
    → has a (ys ++ t ∷ zs) ≡ false
    → (nexts (mdb_remove t mem) a ≡ nexts mem a) × (prevs (mdb_remove t mem) a ≡ prevs mem a)
remove-outside mem ys t zs a c out =
    let r = remove-Removed t mem in
    let (p, ne) = points-first ys t zs a out in
    let after =
      next_first (nexts mem) (prevs mem) none (first (ys ++ t ∷ zs)) c.last ys t zs c.linked in
    let before = prev-outside mem (first (ys ++ t ∷ zs)) c.last ys t zs a c.linked out in
    (ground (arith, r.next_other a, before), ground (arith, r.prev_other a, after, p))
