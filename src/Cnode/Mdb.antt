-- ===== src/Cnode/Mdb.antt =====
-- kernel/src/objects/cnode.rs: the chain of capabilities through the slots, the MDB.
-- A step reads a slot into a local copy, changes the copy and sets the slot from it.
pub mod Laws
pub mod Revoke
use chick.Common.{ℕ, zero, suc, Option, none, some}
use chick.Common.Store.{update, modify_some}
use chick.Objects.{CapRaw, ObjType}
use chick.Cnode.{Slots}

-- Inserts `dst` after `src`.
unfoldable pub mdb_insert_after : ℕ → ℕ → Slots → Slots
mdb_insert_after src dst mem =
    let src_raw = mem src in
    let orig_next = src_raw.mdb_next in
    let mem1 = update mem dst (record (mem dst) { mdb_prev = some src; mdb_next = orig_next }) in
    let mem2 = modify_some orig_next (λ c. record c { mdb_prev = some dst }) mem1 in
    update mem2 src (record src_raw { mdb_next = some dst })

unfoldable pub mdb_remove : ℕ → Slots → Slots
mdb_remove self mem =
    let self_raw = mem self in
    let prev = self_raw.mdb_prev in
    let next = self_raw.mdb_next in
    let mem1 = modify_some prev (λ c. record c { mdb_next = next }) mem in
    let mem2 = modify_some next (λ c. record c { mdb_prev = prev }) mem1 in
    update mem2 self (record self_raw { mdb_prev = none; mdb_next = none })

-- A capability erased: its type, rights, address and arguments.
abbrev pub erased : CapRaw → CapRaw
erased raw = record raw { cap_type = ObjType.null_obj; rights = 0; paddr = 0; arg1 = 0; arg2 = 0 }

-- The loop of `revoke` from a slot, for at most so many rounds.
unfoldable pub revoke_from : ℕ → Option ℕ → Slots → Option Slots
unfolding mdb_remove
revoke_from n none mem = some mem
revoke_from zero (some ptr) mem = none
revoke_from (suc n) (some ptr) mem =
    revoke_from n (mem ptr).mdb_next (mdb_remove ptr (update mem ptr (erased (mem ptr))))

unfoldable pub revoke : ℕ → ℕ → Slots → Option Slots
unfolding revoke_from
revoke rounds self mem = revoke_from rounds (mem self).mdb_next mem
