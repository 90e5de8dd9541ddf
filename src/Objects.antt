-- ===== src/Objects.antt =====
-- kernel/src/objects/mod.rs and objects/traits.rs: object types and raw capabilities.
-- A `CNodeEntry` is a cell that holds a raw capability; a link of the MDB is the address of one.
pub mod CapRights
use chick.Common.{ℕ, Bool, Option, none, ◌==◌}

pub data ObjType : Type 0 where
  null_obj untyped cnode tcb frame endpoint reply monitor interrupt vspace : ObjType

-- `cap_type as usize`.
abbrev pub to_usize : ObjType → ℕ
to_usize null_obj = 0
to_usize untyped = 1
to_usize cnode = 2
to_usize tcb = 3
to_usize frame = 4
to_usize endpoint = 5
to_usize reply = 6
to_usize monitor = 7
to_usize interrupt = 8
to_usize vspace = 9

-- Equality of object types, which the source derives.
abbrev pub same_type : ObjType → ObjType → Bool
same_type a b = to_usize a == to_usize b

pub record CapRaw : Type 0 where
  pub arg1 : ℕ
  pub arg2 : ℕ
  pub paddr : ℕ
  pub cap_type : ObjType
  pub rights : ℕ
  pub mdb_prev : Option ℕ
  pub mdb_next : Option ℕ

-- `CapRaw::default` and `default_with_type`.
abbrev pub default : CapRaw
default = record {
  arg1 = 0;
  arg2 = 0;
  paddr = 0;
  cap_type = null_obj;
  rights = CapRights.none;
  mdb_prev = none;
  mdb_next = none;
}

abbrev pub default_with_type : ObjType → CapRaw
default_with_type t = record default { cap_type = t }

-- The kernel object types, the implementors of `KernelObject`, and their `OBJ_TYPE`.
pub data KernelObject : Type 0 where
  null_object cnode_object untyped_object frame_object : KernelObject
  vspace_object endpoint_object tcb_object : KernelObject

abbrev pub obj_type : KernelObject → ObjType
obj_type null_object = null_obj
obj_type cnode_object = cnode
obj_type untyped_object = untyped
obj_type frame_object = frame
obj_type vspace_object = vspace
obj_type endpoint_object = endpoint
obj_type tcb_object = tcb
