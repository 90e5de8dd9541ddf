-- ===== src/VSpace/Leaf.antt =====
-- The entry that maps a page of a size, where it stands, and walks that do not read it.
use chick.Common.{ℕ, ◌≡◌, ◌≢◌, ◌⊎◌, refl}
use chick.Common.Store.{update₂_ne}
use chick.Paging.{VmAttributes}
use chick.Paging.Entry.{new_page, new_large_page, new_huge_page}
use chick.Frame.{FrameSize, small, large, huge}
use chick.VSpace.{
  Mmu, vaddr_indices, walk, pml4_table, pdpt_table, pdpte, pd_table, pde, pt_table, pte,
  write_entry, flush_page,
}

-- The level of the entry that maps a page of a size.
abbrev pub leaf_level : FrameSize → ℕ
leaf_level small = 1
leaf_level large = 2
leaf_level huge = 3

module _ (offset root vaddr : ℕ) (m : Mmu) where
  -- The table whose entry maps a page of the size at the address, and the entry.
  abbrev pub leaf_table : FrameSize → ℕ
  leaf_table small = pt_table offset root vaddr m
  leaf_table large = pd_table offset root vaddr m
  leaf_table huge = pdpt_table offset root vaddr m

  abbrev pub leaf : FrameSize → ℕ
  leaf small = pte offset root vaddr m
  leaf large = pde offset root vaddr m
  leaf huge = pdpte offset root vaddr m

  -- That table is none of the tables above it.
  abbrev pub IsSeparate : FrameSize → Type 0
  IsSeparate huge = pdpt_table offset root vaddr m ≢ pml4_table offset root vaddr m
  IsSeparate large =
      (pd_table offset root vaddr m ≢ pml4_table offset root vaddr m)
      × (pd_table offset root vaddr m ≢ pdpt_table offset root vaddr m)
  IsSeparate small =
      (pt_table offset root vaddr m ≢ pml4_table offset root vaddr m)
      × (pt_table offset root vaddr m ≢ pdpt_table offset root vaddr m)
      × (pt_table offset root vaddr m ≢ pd_table offset root vaddr m)

-- The index and the value of the entry that maps a page of the size.
abbrev pub leaf_index : ℕ → FrameSize → ℕ
leaf_index vaddr small = (vaddr_indices vaddr).pt_idx
leaf_index vaddr large = (vaddr_indices vaddr).pd_idx
leaf_index vaddr huge = (vaddr_indices vaddr).pdpt_idx

abbrev pub new_leaf : FrameSize → ℕ → VmAttributes → ℕ
new_leaf small p attr = new_page p attr
new_leaf large p attr = new_large_page p attr
new_leaf huge p attr = new_huge_page p attr

-- No entry on the way to `vaddr` is the one at `index` of `table`.
pub record Avoids (offset root vaddr : ℕ) (m : Mmu) (table index : ℕ) : Type 0 where
  pub at_pml4 : (pml4_table offset root vaddr m ≢ table) ⊎ ((vaddr_indices vaddr).pml4_idx ≢ index)
  pub at_pdpt : (pdpt_table offset root vaddr m ≢ table) ⊎ ((vaddr_indices vaddr).pdpt_idx ≢ index)
  pub at_pd : (pd_table offset root vaddr m ≢ table) ⊎ ((vaddr_indices vaddr).pd_idx ≢ index)
  pub at_pt : (pt_table offset root vaddr m ≢ table) ⊎ ((vaddr_indices vaddr).pt_idx ≢ index)

-- A write elsewhere does not change what a walk finds.
pub walk-write_entry :
    (offset root vaddr table index value : ℕ) (m : Mmu)
    → Avoids offset root vaddr m table index
    → walk offset root vaddr (write_entry table index value m) ≡ walk offset root vaddr m
unfolding write_entry walk
walk-write_entry offset root vaddr table index value m avoids =
    rw
      (
        update₂_ne m.entries table _ index _ value at_pml4,
        update₂_ne m.entries table _ index _ value at_pdpt,
        update₂_ne m.entries table _ index _ value at_pd,
        update₂_ne m.entries table _ index _ value at_pt,
      )
      refl
  where
    open avoids use {at_pml4, at_pdpt, at_pd, at_pt}

pub walk-flush_page :
    (offset root vaddr page : ℕ) (m : Mmu)
    → walk offset root vaddr (flush_page page m) ≡ walk offset root vaddr m
unfolding flush_page walk
walk-flush_page offset root vaddr page m = refl
