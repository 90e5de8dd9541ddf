-- ===== src/Examples/Cnode.antt =====
-- Three slots of objects/cnode.rs in a chain, and a small node.
use chick.Common.{ℕ, ◌≡◌, ◌≢◌, ◌<◌, ◌+◌, ◌*◌, refl, some, List, [], ◌∷◌, ◌==◌, if◌then◌else◌, arith}
use chick.Objects.{CapRaw, ObjType, default, default_with_type}
use chick.Common.Outcome.{done}
use chick.Cnode.{Slots, radix_bits, guard_bits, mint, size, slot_size}
use chick.Cnode.Mdb.{mdb_insert_after, mdb_remove, revoke}
use chick.Cnode.Spec.{WellFormed, Acyclic, CnodeCapWellFormed}
use chick.Cnode.Spec.Chain.{IsChain-iff}
use chick.Cnode.Spec.Edits.{Edit, inserts, removes, revokes, edit_all, edit_all-WellFormed}
use chick.Cnode.Spec.Mint.{mint-CnodeCapWellFormed}
use chick.Cnode.Mdb.Laws.{
  IsChain, IsIsolated, SameCap, mdb_insert_after-IsChain, mdb_remove-IsChain,
}
use chick.Cnode.Mdb.Revoke.{Revoked, AllIsolated, revoke-IsChain}

-- The slots 10, 20 and 30, in this order.
abbrev slots : Slots
slots a =
    if a == 10
    then record (default_with_type ObjType.frame) { mdb_next = some 20 }
    else if a == 20
    then record (default_with_type ObjType.frame) { mdb_prev = some 10; mdb_next = some 30 }
    else if a == 30
    then record (default_with_type ObjType.frame) { mdb_prev = some 20 }
    else default

slots-IsChain : IsChain slots (10 ∷ (20 ∷ (30 ∷ [])))
slots-IsChain = record {
  distinct = (refl, (refl, (refl, tt)));
  last = some 30;
  linked = (refl, refl, (refl, refl, (refl, refl, (refl, refl))));
}

mdb_insert_after-IsChain_example :
    let mem' = mdb_insert_after 20 40 slots in
    IsChain mem' (10 ∷ (20 ∷ (40 ∷ (30 ∷ [])))) × ((a : ℕ) → SameCap (mem' a) (slots a))
mdb_insert_after-IsChain_example =
    mdb_insert_after-IsChain slots (10 ∷ []) 20 (30 ∷ []) 40 slots-IsChain refl

mdb_remove-IsChain_example :
    let mem' = mdb_remove 20 slots in
    IsChain mem' (10 ∷ (30 ∷ [])) × IsIsolated (mem' 20) × ((a : ℕ) → SameCap (mem' a) (slots a))
mdb_remove-IsChain_example = mdb_remove-IsChain slots (10 ∷ []) 20 (30 ∷ []) slots-IsChain

revoke-IsChain_example :
    (mem' : Slots) × (revoke 2 10 slots ≡ some mem')
    × IsChain mem' (10 ∷ [])
    × Revoked slots (20 ∷ (30 ∷ [])) mem'
    × AllIsolated mem' (20 ∷ (30 ∷ []))
revoke-IsChain_example = revoke-IsChain 2 slots [] 10 (20 ∷ (30 ∷ [])) slots-IsChain (ground arith)

-- A node of two slots, at 0x8000 and 0x8040.
abbrev node : CapRaw
node = record (default_with_type ObjType.cnode) { paddr = 0x8000; arg1 = 64 }

size_node : size node ≡ 2
unfolding size radix_bits
size_node = refl

node_elsewhere : (i : ℕ) → i < size node → 20 ≢ 0x8000 + i * slot_size
node_elsewhere i h = ground arith

-- Slot 40 is inserted behind 20, 10 is removed, and what is behind 40 is revoked.
abbrev edits : List Edit
edits = inserts 20 40 ∷ (removes 10 ∷ (revokes 40 ∷ []))

edit_all-WellFormed_example :
    (mem' : Slots) × (edit_all 6 edits slots ≡ some mem')
    × WellFormed mem' (20 ∷ (40 ∷ []))
    × Acyclic (20 ∷ (40 ∷ []))
edit_all-WellFormed_example =
    let (w, a) = (IsChain-iff slots (10 ∷ (20 ∷ (30 ∷ [])))).0 slots-IsChain in
    edit_all-WellFormed 6 edits slots (10 ∷ (20 ∷ (30 ∷ []))) w a refl (omega arith)

mint-CnodeCapWellFormed_example :
    (raw : CapRaw) × (mint 0x8000 4 8 5 7 ≡ done raw)
    × CnodeCapWellFormed raw
    × (radix_bits raw ≡ 4)
    × (guard_bits raw ≡ 8)
    × (raw.paddr ≡ 0x8000)
    × (raw.arg2 ≡ 5)
    × (raw.rights ≡ 7)
mint-CnodeCapWellFormed_example =
    mint-CnodeCapWellFormed 0x8000 4 8 5 7 (omega arith) (λ z. absurd (omega arith))
