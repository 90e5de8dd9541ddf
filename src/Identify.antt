-- ===== src/Identify.antt =====
-- `identify` of the capability types, in kernel/src/objects, and the methods of `CapRef` that it
-- calls: the fields of a capability are copied into the message registers of a thread.
-- What is returned is the number of registers that were set.
pub mod Laws
use chick.Common.{ℕ, ◌^◌, ltb}
use chick.Common.Outcome.{Outcome, done, assert, Profile, ◌>>=◌, ◌>>◌}
use chick.Error.{SysError}
use chick.Objects.{
  CapRaw, KernelObject, obj_type, to_usize, null_object, tcb_object, endpoint_object, vspace_object,
  frame_object, untyped_object,
}
use chick.Thread.{Tcb, set_mr, mr1, mr2, mr3, mr4, mr5, mr6}
use chick.Frame
use chick.Frame.{flag, bits}
use chick.VSpace
use chick.Endpoint
use chick.Untyped

-- `cap_type`, for a `CapRef` of an object type, as a `usize`.
abbrev pub cap_type : KernelObject → ℕ
cap_type t = to_usize (obj_type t)

-- `CapRef::paddr`; `PhysAddr::new` panics on an address of more than 52 bits.
unfoldable pub paddr : CapRaw → Outcome SysError ℕ
paddr raw = do assert (ltb raw.paddr (2 ^ 52)); done raw.paddr

-- `CapRef::rights().bits()`.
abbrev pub rights : CapRaw → ℕ
rights raw = raw.rights

module _ (profile : Profile) (raw : CapRaw) (tcb : Tcb) where
  unfoldable pub identify_null : Outcome SysError (ℕ × Tcb)
  identify_null = do t1 ← set_mr profile tcb mr1 (cap_type null_object); done (1, t1)

  unfoldable pub identify_tcb : Outcome SysError (ℕ × Tcb)
  identify_tcb = do t1 ← set_mr profile tcb mr1 (cap_type tcb_object); done (1, t1)

  unfoldable pub identify_endpoint : Outcome SysError (ℕ × Tcb)
  unfolding paddr Endpoint.badge
  identify_endpoint = do
    t1 ← set_mr profile tcb mr1 (cap_type endpoint_object)
    addr ← paddr raw
    t2 ← set_mr profile t1 mr2 addr
    t3 ← set_mr profile t2 mr3 (Endpoint.badge raw)
    t4 ← set_mr profile t3 mr4 (rights raw)
    done (4, t4)

  unfoldable pub identify_vspace : Outcome SysError (ℕ × Tcb)
  unfolding paddr VSpace.asid VSpace.is_active
  identify_vspace = do
    t1 ← set_mr profile tcb mr1 (cap_type vspace_object)
    addr ← paddr raw
    t2 ← set_mr profile t1 mr2 addr
    t3 ← set_mr profile t2 mr3 (VSpace.asid raw)
    t4 ← set_mr profile t3 mr4 (flag (VSpace.is_active raw))
    done (4, t4)

  unfoldable pub identify_untyped : Outcome SysError (ℕ × Tcb)
  unfolding paddr Untyped.bit_size Untyped.is_device Untyped.free_offset
  identify_untyped = do
    t1 ← set_mr profile tcb mr1 (cap_type untyped_object)
    addr ← paddr raw
    t2 ← set_mr profile t1 mr2 addr
    t3 ← set_mr profile t2 mr3 (Untyped.bit_size raw)
    t4 ← set_mr profile t3 mr4 (flag (Untyped.is_device raw))
    t5 ← set_mr profile t4 mr5 (Untyped.free_offset raw)
    done (5, t5)

  unfoldable pub identify_frame : Outcome SysError (ℕ × Tcb)
  unfolding paddr Frame.size Frame.is_device Frame.mapped_asid
  identify_frame = do
    t1 ← set_mr profile tcb mr1 (cap_type frame_object)
    addr ← paddr raw
    t2 ← set_mr profile t1 mr2 addr
    t3 ← set_mr profile t2 mr3 (bits (Frame.size raw))
    t4 ← set_mr profile t3 mr4 (flag (Frame.is_device raw))
    t5 ← set_mr profile t4 mr5 (Frame.mapped_vaddr raw)
    t6 ← set_mr profile t5 mr6 (Frame.mapped_asid raw)
    done (6, t6)
