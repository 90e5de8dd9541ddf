-- ===== src/Cspace.antt =====
-- kernel/src/cspace.rs: lookup of capabilities through a tree of capability nodes.
-- `self.root` is the address of a slot, and `current` the slot that a round of the loop reads.
-- The loop takes at most so many rounds; `none` says that they were not enough.
pub mod Laws
pub mod Lookup
pub mod Loop
use chick.Common.{
  ℕ, zero, suc, ◌+◌, ◌-◌, ◌%◌, ◌^◌, Bool, not, ◌||◌, ◌&&◌, Option, none, some, leb, ltb, ◌==◌,
  if◌then◌else◌, bit_and,
}
use chick.Common.Bits.{shr, mask}
use chick.Common.Outcome.{
  Outcome, done, err, panic, guard, ok_or, Profile, debug, release, debug_assert, ◌>>=◌, ◌>>◌,
}
use chick.Error.{SysError, cspace_not_found, invalid_value, lookup_error, slot_empty}
use chick.Objects.{CapRaw, ObjType, same_type}
use chick.Cnode.{Slots, cnode_depth, try_from_slot, radix_bits, guard_bits, slot_at}

abbrev pub word_radix : ℕ
word_radix = 6

pub record ResolveResult : Type 0 where
  pub slot : ℕ
  pub bits_remaining : ℕ

-- `CSpace::new`, for the slot of the root.
unfoldable pub new : ℕ → Slots → Outcome SysError ℕ
new root mem =
    if not (same_type (mem root).cap_type ObjType.cnode) then err cspace_not_found else done root

-- `CSpace::from_tcb` and `Tcb::cspace`. `cspace_root` gives the address of that field of a thread.
unfoldable pub from_tcb : (ℕ → ℕ) → ℕ → Slots → Outcome SysError ℕ
unfolding new
from_tcb cspace_root tcb mem = new (cspace_root tcb) mem

unfoldable pub cspace : (ℕ → ℕ) → ℕ → Slots → Outcome SysError ℕ
unfolding new
cspace cspace_root tcb mem = new (cspace_root tcb) mem

-- How a round ends that is no error: with a result, or in a node with bits left.
pub data Progress : Type 0 where
  resolved : ResolveResult → Progress
  descend : (slot n_bits : ℕ) → Progress

-- The amount of a shift of a word: checked in debug builds, else taken modulo 64.
unfoldable pub shift_amount : Profile → ℕ → Outcome SysError ℕ
shift_amount debug k = if ltb k 64 then done k else panic
shift_amount release k = done (k % 64)

unfoldable pub slot_index : Profile → ℕ → ℕ → ℕ → Outcome SysError ℕ
unfolding shift_amount
slot_index profile cptr shift radix =
    if radix == 0
    then done 0
    else (shift_amount profile shift >>= λ k. done (bit_and (shr cptr k) (mask radix)))

-- The end of a round, for the slot found.
unfoldable pub proceed : ℕ → ℕ → ℕ → Slots → Progress
proceed slot n_bits level_bits mem =
    if n_bits == level_bits
    then resolved (record { slot = slot; bits_remaining = 0 })
    else if not (same_type (mem slot).cap_type ObjType.cnode)
    then resolved (record { slot = slot; bits_remaining = n_bits - level_bits })
    else descend slot (n_bits - level_bits)

-- One round of the loop of `resolve_internal`.
unfoldable pub resolve_round : Profile → ℕ → ℕ → ℕ → Slots → Outcome SysError Progress
unfolding try_from_slot slot_index proceed
resolve_round profile current cptr n_bits mem = do
  cap ← ok_or (try_from_slot current mem) cspace_not_found
  let radix = radix_bits (mem cap)
  let guard_width = guard_bits (mem cap)
  let level_bits = radix + guard_width
  debug_assert profile (not (level_bits == 0))
  let shift = bit_and ((n_bits + 2 ^ 64 - guard_width) % 2 ^ 64) (mask word_radix)
  let expected = if guard_width == 0 then 0 else bit_and (shr cptr shift) (mask guard_width)
  guard (not (ltb n_bits guard_width || not (expected == (mem cap).arg2))) lookup_error
  guard (not (ltb n_bits level_bits)) lookup_error
  index ← slot_index profile cptr (n_bits - level_bits) radix
  slot ← ok_or (slot_at (mem cap) index) slot_empty
  done (proceed slot n_bits level_bits mem)

unfoldable pub resolve_internal :
    ℕ → Profile → ℕ → ℕ → ℕ → Slots → Option (Outcome SysError ResolveResult)
unfolding resolve_round
resolve_internal zero profile current cptr n_bits mem = none
resolve_internal (suc rounds) profile current cptr n_bits mem =
    elim (resolve_round profile current cptr n_bits mem) [
      | done progress ↦ elim progress [
        | resolved r ↦ some (done r)
        | descend slot n ↦ resolve_internal rounds profile slot cptr n mem
      ]
      | err e ↦ some (err e)
      | panic ↦ some panic
    ]

-- `resolve`, with a round for each bit and one more.
unfoldable pub resolve : Profile → ℕ → ℕ → ℕ → Slots → Option (Outcome SysError ResolveResult)
unfolding resolve_internal
resolve profile root cptr n_bits mem = resolve_internal (suc n_bits) profile root cptr n_bits mem

-- The test at the end of `lookup_with_depth`.
unfoldable pub all_resolved : ResolveResult → Outcome SysError ℕ
all_resolved res = if not (res.bits_remaining == 0) then err lookup_error else done res.slot

unfoldable pub lookup_with_depth : Profile → ℕ → ℕ → ℕ → Slots → Option (Outcome SysError ℕ)
unfolding resolve all_resolved
lookup_with_depth profile root cptr depth mem =
    if not (leb 1 depth && leb depth cnode_depth)
    then some (err invalid_value)
    else elim (resolve profile root cptr depth mem) [
      | none ↦ none
      | some r ↦ some (r >>= all_resolved)
    ]

unfoldable pub lookup : Profile → ℕ → ℕ → Slots → Option (Outcome SysError ℕ)
unfolding lookup_with_depth
lookup profile root cptr mem = lookup_with_depth profile root cptr cnode_depth mem
