-- ===== src/Cnode.antt =====
-- kernel/src/objects/cnode.rs and nullcap.rs: capability nodes. A node is an array of slots in
-- memory; a slot is the address of a raw capability. A `CapRef` is the address of its slot.
pub mod Laws
pub mod Mdb
pub mod Spec
use chick.Common.{
  ℕ, zero, suc, ◌+◌, ◌-◌, ◌*◌, ◌^◌, ◌%◌, ◌≤◌, Bool, true, false, not, Option, none, some, leb, ltb,
  ◌==◌, if◌then◌else◌, bit_and, bit_or,
}
use chick.Common.Bits.{shl, shr}
use chick.Common.Store.{update}
use chick.Common.Outcome.{Outcome, done, err, assert, ◌>>=◌, ◌>>◌}
use chick.Error.{SysError, capability_type_error}
use chick.Objects.{
  CapRaw, ObjType, KernelObject, null_object, obj_type, same_type, default, default_with_type,
}

abbrev pub cnode_depth : ℕ
cnode_depth = 32

-- The size of a `CNodeEntry`: six words, five for `arg1`, `arg2`, `paddr` and the two links and one
-- for the type and the rights, and two more, since a `CapRaw` is aligned to 32 bytes.
abbrev pub slot_size : ℕ
slot_size = 64

-- The next power of two, and its number of trailing zeros.
abbrev pub cnode_entry_sz : ℕ
cnode_entry_sz = 64

abbrev pub cnode_entry_bit_sz : ℕ
cnode_entry_bit_sz = 6

abbrev pub Slots : Type 0
Slots = ℕ → CapRaw

-- `CNodeEntry::new`.
abbrev pub new_entry : CapRaw
new_entry = record {
  arg1 = 0;
  arg2 = 0;
  paddr = 0;
  cap_type = ObjType.null_obj;
  rights = 0;
  mdb_prev = none;
  mdb_next = none;
}

unfoldable pub is_null : CapRaw → Bool
is_null cap = same_type cap.cap_type ObjType.null_obj

abbrev guard_bits_width : ℕ
guard_bits_width = 6

abbrev guard_offset : ℕ
guard_offset = 0

abbrev radix_bits_width : ℕ
radix_bits_width = 6

abbrev radix_offset : ℕ
radix_offset = guard_offset + guard_bits_width

unfoldable pub mask : ℕ → ℕ
mask bits = if leb 64 bits then 2 ^ 64 - 1 else shl 1 bits - 1

unfoldable pub try_from_slot : ℕ → Slots → Option ℕ
try_from_slot slot mem = if same_type (mem slot).cap_type ObjType.cnode then some slot else none

unfoldable pub guard_bits : CapRaw → ℕ
unfolding mask
guard_bits raw = bit_and (shr raw.arg1 guard_offset) (mask guard_bits_width)

unfoldable pub radix_bits : CapRaw → ℕ
unfolding mask
radix_bits raw = bit_and (shr raw.arg1 radix_offset) (mask radix_bits_width)

unfoldable pub size : CapRaw → ℕ
unfolding radix_bits
size raw = shl 1 (radix_bits raw)

abbrev pub guard : CapRaw → ℕ
guard raw = raw.arg2

unfoldable pub mint : ℕ → ℕ → ℕ → ℕ → ℕ → Outcome SysError CapRaw
unfolding mask
mint addr radix_bits guard_bits guard rights = do
  let guard_sz = bit_and guard_bits (mask guard_bits_width)
  let radix_sz = bit_and radix_bits (mask radix_bits_width)
  assert (leb (radix_sz + guard_sz) cnode_depth)
  let arg1 = bit_or (shl guard_sz guard_offset) (shl radix_sz radix_offset)
  done (record (default_with_type ObjType.cnode) {
    paddr = addr;
    arg1 = arg1;
    arg2 = guard;
    rights = rights;
  })

-- The slots of `as_object`: the address of the one at an index, if there is one.
unfoldable pub slot_at : CapRaw → ℕ → Option ℕ
unfolding size
slot_at raw index = if ltb index (size raw) then some (raw.paddr + index * slot_size) else none

-- The loop of `init`, over the first `count` slots of a node at an address.
unfoldable pub init_slots : ℕ → ℕ → Slots → Slots
init_slots addr zero mem = mem
init_slots addr (suc count) mem =
    let rest = init_slots addr count mem in update rest (addr + count * slot_size) default

unfoldable pub init : CapRaw → Slots → Slots
unfolding size init_slots
init raw mem = init_slots raw.paddr (size raw) mem

-- `CapRef::try_from`.
unfoldable pub try_from : KernelObject → ℕ → Slots → Outcome SysError ℕ
try_from t slot mem =
    if not (same_type (obj_type t) (mem slot).cap_type)
    then err capability_type_error
    else done slot

-- `NullCap::mint`, `insert` and `insert_raw`.
abbrev pub null_mint : CapRaw
null_mint = default

unfoldable pub insert_raw : ℕ → CapRaw → Slots → Slots
insert_raw slot raw mem = update mem slot raw

unfoldable pub insert : ℕ → CapRaw → Slots → ℕ × Slots
insert slot raw mem = (slot, update mem slot raw)
