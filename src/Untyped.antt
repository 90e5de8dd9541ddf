-- ===== src/Untyped.antt =====
-- kernel/src/objects/untyped.rs: memory that is retyped into objects.
-- The slots are given as a list of addresses. `write_bytes` clears the memory of a new object; the
-- ranges cleared are recorded, the last one first.
pub mod Bounds
pub mod Laws
use chick.Common.{
  ℕ, zero, suc, ◌+◌, ◌-◌, ◌*◌, ◌%◌, ◌^◌, ◌≤◌, Bool, true, false, not, ◌||◌, ◌&&◌, Option, none,
  some, List, [], ◌∷◌, ltb, leb, ◌==◌, if◌then◌else◌, bit_and, bit_or, length,
}
use chick.Common.Bits.{shl, shr, mask, lnot}
use chick.Common.Store.{update}
use chick.Common.Outcome.{Outcome, done, err, panic, guard, assert, ok_or, Profile, ◌>>=◌, ◌>>◌}
use chick.Common.Checked.{checked_add}
use chick.Error.{SysError, slot_not_empty, invalid_value, out_of_memory}
use chick.Objects.{CapRaw, ObjType, default_with_type, same_type, obj_type, null_object}
use chick.Objects.CapRights
use chick.Paging.{page_bits_4k}
use chick.Frame
use chick.Frame.{flag, from_bits}
use chick.Cnode
use chick.Cnode.{Slots, cnode_entry_bit_sz, is_null}
use chick.VSpace

abbrev pub min_bit_size : ℕ
min_bit_size = 4

unfoldable pub mint : ℕ → ℕ → Bool → CapRaw
mint paddr bit_sz is_device = record (default_with_type ObjType.untyped) {
  paddr = paddr;
  arg1 = flag is_device;
  arg2 = bit_and bit_sz (mask 6);
  rights = CapRights.control;
}

unfoldable pub bit_size : CapRaw → ℕ
bit_size raw = bit_and raw.arg2 (mask 6)

unfoldable pub size : CapRaw → ℕ
unfolding bit_size
size raw = shl 1 (bit_size raw)

unfoldable pub free_offset : CapRaw → ℕ
free_offset raw = shr raw.arg2 6

unfoldable pub set_free_offset : ℕ → CapRaw → CapRaw
set_free_offset off raw = record raw { arg2 = bit_or (bit_and raw.arg2 (mask 6)) (shl off 6) }

unfoldable pub is_device : CapRaw → Bool
is_device raw = not (raw.arg1 == 0)

-- Subtraction stops at 0, as `saturating_sub` does.
unfoldable pub object_alignment : ObjType → ℕ → ℕ
object_alignment ObjType.frame bits = bits
object_alignment ObjType.vspace bits = page_bits_4k
object_alignment ObjType.cnode bits = cnode_entry_bit_sz + (bits - cnode_entry_bit_sz)
object_alignment ObjType.tcb bits = 10
object_alignment _ bits = bits

unfoldable pub object_size : ObjType → ℕ → Option ℕ
object_size ObjType.frame bits =
    if bits == 12 || (bits == 21 || bits == 30) then some (2 ^ bits) else none
object_size ObjType.vspace bits = some (2 ^ page_bits_4k)
object_size ObjType.cnode bits =
    if leb cnode_entry_bit_sz bits && leb bits 48 then some (2 ^ bits) else none
object_size ObjType.tcb bits = some (2 ^ 10)
object_size ObjType.untyped bits =
    if leb min_bit_size bits && leb bits 48 then some (2 ^ bits) else none
object_size _ bits = none

-- `alignup!`, on words.
unfoldable pub alignup : ℕ → ℕ → ℕ
alignup addr sz = bit_and ((addr + 2 ^ sz - 1) % 2 ^ 64) (lnot (mask sz))

-- The slots, and the memory that was cleared, as addresses and sizes.
pub record Memory : Type 0 where
  pub slots : Slots
  pub cleared : List (ℕ × ℕ)

-- The types that device memory can be retyped to.
unfoldable pub device_type : ObjType → Bool
device_type ObjType.frame = true
device_type ObjType.untyped = true
device_type _ = false

-- `checked_mul` and `checked_add`.
unfoldable pub checked : ℕ → Option ℕ
checked n = if ltb n (2 ^ 64) then some n else none

-- The address space identifier of a new address space.
unfoldable pub new_asid : ℕ → ℕ
new_asid addr = let asid = bit_and (shr addr page_bits_4k) 0xffff in if asid == 0 then 1 else asid

module _ (profile : Profile) where
  -- The capability of a new object, and the memory it clears.
  unfoldable pub new_cap :
      ObjType → ℕ → ℕ → Bool → ℕ → List (ℕ × ℕ) → Outcome SysError (CapRaw × List (ℕ × ℕ))
  unfolding mint new_asid
  new_cap ObjType.untyped bits obj_size device addr cleared = done (mint addr bits device, cleared)
  new_cap ObjType.cnode bits obj_size device addr cleared = do
    let radix_sz = bits - cnode_entry_bit_sz
    cap ← Cnode.mint addr radix_sz (64 - radix_sz) 0 CapRights.control
    done (cap, (addr, obj_size) ∷ cleared)
  new_cap ObjType.frame bits obj_size device addr cleared = do
    s ← ok_or (from_bits bits) invalid_value
    cap ← Frame.mint profile addr s device (bit_or CapRights.read CapRights.write)
    done (cap, cleared)
  new_cap ObjType.vspace bits obj_size device addr cleared = do
    cap ← VSpace.mint profile addr (new_asid addr) CapRights.control
    done (cap, (addr, obj_size) ∷ cleared)
  new_cap _ bits obj_size device addr cleared = err invalid_value

  -- The loop over the slots, with the address of the memory, the offset of the first object and the
  -- index of the next. The product is at most `tot_size`, which is a word.
  unfoldable pub fill :
      ObjType → ℕ → ℕ → Bool → ℕ → ℕ → ℕ → List ℕ → Memory → Outcome SysError Memory
  unfolding new_cap checked_add
  fill t bits obj_size device base free i [] m = done m
  fill t bits obj_size device base free i (slot ∷ slots) m = do
    first ← checked_add profile 64 base free
    addr ← checked_add profile 64 first (i * obj_size)
    (cap, cleared) ← new_cap t bits obj_size device addr m.cleared
    fill t bits obj_size device base free (i + 1) slots
        (record { slots = update m.slots slot cap; cleared = cleared })

  -- Whether all the slots are null.
  unfoldable pub all_null : Slots → List ℕ → Bool
  unfolding is_null
  all_null mem [] = true
  all_null mem (slot ∷ slots) = is_null (mem slot) && all_null mem slots

  -- `retype`, of the untyped capability in the slot `self`. `paddr` panics on an address of more than
  -- 52 bits. The loop fails in its first round or in none, before a slot is set.
  unfoldable pub retype : ℕ → ObjType → ℕ → List ℕ → Memory → Outcome SysError Memory
  unfolding all_null fill object_size object_alignment alignup device_type checked
  retype self t bits slots m = do
    guard (all_null m.slots slots) slot_not_empty
    let raw = m.slots self
    guard (not (is_device raw) || device_type t) invalid_value
    obj_size ← ok_or (object_size t bits) invalid_value
    tot_size ← ok_or (checked (length slots * obj_size)) invalid_value
    let free = alignup (free_offset raw) (object_alignment t bits)
    required ← ok_or (checked (free + tot_size)) invalid_value
    guard (not (ltb (size raw) required)) out_of_memory
    assert (ltb raw.paddr (2 ^ 52))
    m1 ← fill t bits obj_size (is_device raw) raw.paddr free 0 slots m
    done (record m1 {
      slots = update m1.slots self (set_free_offset (free + tot_size) (m1.slots self));
    })
