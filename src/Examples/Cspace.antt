-- ===== src/Examples/Cspace.antt =====
-- A capability space of one node, as cspace.rs looks addresses up in it.
use chick.Common.{◌≡◌, ◌⊎◌, ◌↔◌, ◌≤◌, ◌<◌, ◌+◌, ◌*◌, some, ◌==◌, if◌then◌else◌, arith, refl}
use chick.Common.Outcome.{done, err, panic, debug}
use chick.Error.{SysError}
use chick.Objects.{ObjType, default, default_with_type}
use chick.Cnode.{Slots, slot_size}
use chick.Cspace.{ResolveResult, resolve, lookup_with_depth}
use chick.Cspace.Laws.{Resolves}
use chick.Cspace.Lookup.{resolve-Resolves, lookup_with_depth-done_iff}

-- The root at 100 has 16 slots from 0x8000 on, and a guard of 28 zero bits.
abbrev space : Slots
space a =
    if a == 100
    then record (default_with_type ObjType.cnode) { paddr = 0x8000; arg1 = 4 * 64 + 28 }
    else default

resolve-Resolves_example :
    ((r : ResolveResult) × (resolve debug 100 3 32 space ≡ some (done r))
      × Resolves 3 space 100 32 r)
    ⊎ ((e : SysError) × (resolve debug 100 3 32 space ≡ some (err e)))
    ⊎ (resolve debug 100 3 32 space ≡ some panic)
resolve-Resolves_example = resolve-Resolves 3 space 100 32 (ground arith)

lookup_with_depth-done_iff_example :
    (lookup_with_depth debug 100 3 32 space ≡ some (done (0x8000 + 3 * slot_size))) ↔ (
      (0 < 32)
      × (32 ≤ 32)
      × Resolves 3 space 100 32 (record { slot = 0x8000 + 3 * slot_size; bits_remaining = 0 }))
lookup_with_depth-done_iff_example =
    lookup_with_depth-done_iff 3 space 100 32 (0x8000 + 3 * slot_size)

-- The lookup finds the fourth slot.
found : lookup_with_depth debug 100 3 32 space ≡ some (done 0x80c0)
unfolding lookup_with_depth chick.Cnode.radix_bits chick.Cnode.guard_bits chick.Cnode.slot_at
found = refl
