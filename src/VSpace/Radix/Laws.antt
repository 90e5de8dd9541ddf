-- ===== src/VSpace/Radix/Laws.antt =====
-- The walk of the source is the recursion over the levels.
use chick.Common.{ℕ, ◌≡◌, if◌then◌else◌, arith}
use chick.Common.Outcome.{done, err}
use chick.Error.{invalid_vaddr}
use chick.Paging.Entry.{is_present, is_page, entry_paddr}
use chick.VSpace.{Mmu, from_paddr, walk, is_canonical, vaddr_indices}
use chick.VSpace.Radix.{walk_levels, levels}

-- On every canonical address the walk is the recursion over the four levels, with the index, the
-- tests and the address that the level's entry type gives; other addresses are refused.
pub walk-levels :
    (offset root vaddr : ℕ) (m : Mmu)
    → walk offset root vaddr m ≡ (
        if is_canonical vaddr
        then done (walk_levels offset vaddr m (from_paddr offset root) levels)
        else err invalid_vaddr)
unfolding walk vaddr_indices is_present is_page entry_paddr
walk-levels offset root vaddr m = ground arith
