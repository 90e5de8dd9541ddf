-- ===== src/VSpace/Radix.antt =====
-- The walk as the recursion over the levels that the traits describe: the reference for `walk`,
-- which the source writes out level by level.
pub mod Laws
use chick.Common.{ℕ, ◌+◌, ◌-◌, ◌*◌, not, none, some, List, [], ◌∷◌, if◌then◌else◌, bit_and}
use chick.Common.Bits.{shr}
use chick.Paging.Entry.{Level, pml4, pdpt, page_directory, pt, level_number}
use chick.Paging.Trait.{entry_of}
use chick.Frame.{FrameSize, small, large, huge}
use chick.VSpace.{Mmu, from_paddr, WalkResult, mapped_page, not_mapped_at}

-- Nine bits of the address for each level.
abbrev pub index_at : Level → ℕ → ℕ
index_at l vaddr = bit_and (shr vaddr (12 + 9 * (level_number l - 1))) 0x1ff

abbrev pub size_at : Level → FrameSize
size_at pdpt = huge
size_at page_directory = large
size_at _ = small

-- The levels from the top one.
abbrev pub levels : List Level
levels = pml4 ∷ (pdpt ∷ (page_directory ∷ (pt ∷ [])))

-- From the table at the virtual address `table`, down the list of levels.
abbrev pub walk_levels : ℕ → ℕ → Mmu → ℕ → List Level → WalkResult
walk_levels offset vaddr m table [] = not_mapped_at 0
walk_levels offset vaddr m table (l ∷ ls) =
    let entry = m.entries table (index_at l vaddr) in
    let t = entry_of l in
    let below = walk_levels offset vaddr m (from_paddr offset (t.paddr entry)) ls in
    if not (t.is_present entry)
    then not_mapped_at (level_number l)
    else if t.is_page entry
    then mapped_page (t.paddr entry) (size_at l) (level_number l)
    else below
