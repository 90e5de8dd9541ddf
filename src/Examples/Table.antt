-- ===== src/Examples/Table.antt =====
-- The tables of an address space that maps nothing but one large page.
use chick.Common.{◌≡◌, ◌≢◌, ◌⊎◌, refl, true, false, [], none, ◌==◌, if◌then◌else◌}
use chick.Common.Outcome.{done}
use chick.Paging.Entry.{pdpt, invalid}
use chick.Paging.Trait.{entry_of, next_level, page_bits}
use chick.Paging.Trait.Laws.{entry_of-cases}
use chick.VSpace.{Mmu, walk, get, clear, from_paddr, mapped_page}
use chick.Frame.{large}
use chick.VSpace.Radix.{walk_levels, levels}
use chick.VSpace.Radix.Laws.{walk-levels}

-- The tables at 0x1000, 0x2000 and 0x3000 lead to a page at 0x400000.
abbrev mmu : Mmu
mmu = record {
  entries = λ table i.
      if table == 0x1000
      then 0x2007
      else if table == 0x2000
      then 0x3007
      else if table == 0x3000
      then 0x400087
      else 0;
  flushed = [];
}

walk-levels_example :
    walk 0 0x1000 0x201000 mmu ≡ done (walk_levels 0 0x201000 mmu (from_paddr 0 0x1000) levels)
unfolding chick.VSpace.is_canonical
walk-levels_example = walk-levels 0 0x1000 0x201000 mmu

walks : walk 0 0x1000 0x201000 mmu ≡ done (mapped_page 0x400000 large 2)
unfolding walk chick.VSpace.is_canonical chick.Paging.Entry.is_present from_paddr
    chick.Paging.Entry.entry_paddr chick.Paging.Entry.is_page
walks = refl

entry_of-cases_example :
    let t = entry_of pdpt in
    (((t.is_present 0x83 ≡ true) × (t.is_table 0x83 ≡ true) × (t.is_page 0x83 ≡ false))
      ⊎ ((t.is_present 0x83 ≡ true) × (t.is_table 0x83 ≡ false) × (t.is_page 0x83 ≡ true))
      ⊎ ((t.is_present 0x83 ≡ false) × (t.is_table 0x83 ≡ false) × (t.is_page 0x83 ≡ false)))
    × (t.is_present t.invalid ≡ false)
    × ((t.is_page 0x83 ≡ false) ⊎ (page_bits pdpt ≢ none))
    × ((t.is_table 0x83 ≡ false) ⊎ (next_level pdpt ≢ none))
entry_of-cases_example = entry_of-cases pdpt 0x83
