-- ===== src/Examples/VSpace.antt =====
-- An address space with one table at each level, as objects/vspace.rs maps and unmaps in it.
use chick.Common.{
  ℕ, ◌≡◌, ◌≢◌, ◌↔◌, refl, inl, inr, true, false, ◌==◌, ◌&&◌, if◌then◌else◌, arith, [],
}
use chick.Common.Outcome.{done}
use chick.Objects.{CapRaw}
use chick.Paging.{VmAttributes, write_back}
use chick.Paging.Entry.{entry_paddr, is_present, is_page}
use chick.Paging.Entry.Laws.{IsFlags, IsFrameAddr}
use chick.Frame.{
  small, large, is_aligned, size, vm_attributes, mint_with_cache, from_bits, or_small,
}
use chick.VSpace.{Mmu, vaddr_indices, is_canonical, from_paddr, walk, mapped_page, not_mapped_at}
use chick.VSpace.Leaf.{IsSeparate, Avoids, leaf, leaf_level, leaf_table, leaf_index}
use chick.VSpace.Map.{map_frame, map_sized, map_4k}
use chick.VSpace.Map.Laws.{walk-map_frame, walk-map_frame_ne, map_sized-done_iff}
use chick.VSpace.Unmap.{unmap, install_table}
use chick.VSpace.Unmap.Laws.{unmap-map_frame, walk-install_table, IsEmptyTable}

abbrev offset : ℕ
offset = 0x100000

abbrev root : ℕ
root = 0x1000

abbrev tables : ℕ → ℕ → ℕ
tables t i =
    if t == 0x101000 && i == 0
    then 0x2007
    else if t == 0x102000 && i == 0
    then 0x3007
    else if t == 0x103000 && i == 2
    then 0x4007
    else 0

abbrev mmu : Mmu
mmu = record { entries = tables; flushed = [] }

abbrev page : ℕ
page = 0x403000

abbrev other_page : ℕ
other_page = 0x404000

abbrev frame : CapRaw
unfolding mint_with_cache
frame = mint_with_cache 0x9000 small false write_back 7

size_of_frame : size frame ≡ small
unfolding size from_bits or_small mint_with_cache
size_of_frame = refl

apart : IsSeparate offset root page mmu (size frame)
unfolding size from_bits or_small from_paddr entry_paddr vaddr_indices mint_with_cache
apart = (ground arith, ground arith, ground arith)

frame_fits : IsFrameAddr frame.paddr
unfolding frame
frame_fits = (refl, ground arith)

mapped : (map_frame offset root page frame true mmu).1 ≡ done tt
unfolding map_frame map_sized map_4k size frame is_canonical is_aligned is_present from_paddr
    vaddr_indices entry_paddr is_page
mapped = refl

walk-map_frame_example :
    let m' = (map_frame offset root page frame true mmu).0 in
    (walk offset root page m'
      ≡ done (mapped_page frame.paddr (size frame) (leaf_level (size frame))))
    × ((h : ℕ) × IsFlags (vm_attributes true frame) h (leaf offset root page m' (size frame)))
walk-map_frame_example = walk-map_frame offset root page frame true mmu frame_fits apart mapped

avoids :
    Avoids offset root other_page mmu
      (leaf_table offset root page mmu (size frame))
      (leaf_index page (size frame))
unfolding size from_bits or_small from_paddr entry_paddr vaddr_indices mint_with_cache
avoids = record {
  at_pml4 = inl (ground arith);
  at_pdpt = inl (ground arith);
  at_pd = inl (ground arith);
  at_pt = inr (ground arith);
}

walk-map_frame_ne_example :
    walk offset root other_page (map_frame offset root page frame true mmu).0
    ≡ walk offset root other_page mmu
walk-map_frame_ne_example = walk-map_frame_ne offset root page other_page frame true mmu avoids

unmap-map_frame_example :
    let (m', r) = unmap offset root page (map_frame offset root page frame true mmu).0 in
    (r ≡ done (frame.paddr, size frame))
    × (walk offset root page m' ≡ done (not_mapped_at (leaf_level (size frame))))
unmap-map_frame_example = unmap-map_frame offset root page frame true mmu frame_fits apart mapped

abbrev attr : VmAttributes
attr = record { rights = 3; cache = write_back; global = false; user = true }

map_sized-done_iff_example : ((map_sized offset root page 0x9000 attr mmu small).1 ≡ done tt) ↔ (
    (is_aligned small page ≡ true)
    × (is_aligned small 0x9000 ≡ true)
    × (walk offset root page mmu ≡ done (not_mapped_at 1)))
map_sized-done_iff_example = map_sized-done_iff offset root page 0x9000 attr mmu small

-- The same space with the page mapped.
abbrev mapped_mmu : Mmu
mapped_mmu = record {
  entries = λ t i. if t == 0x104000 && i == 3 then 0x9007 else tables t i;
  flushed = [];
}

found : walk offset root page mapped_mmu ≡ done (mapped_page 0x9000 small 1)
unfolding walk is_canonical is_present from_paddr vaddr_indices entry_paddr is_page
found = refl

-- An address without a page table, and a table to install there.
abbrev far_page : ℕ
far_page = 0x600000

new_table_empty : IsEmptyTable mmu (from_paddr offset 0x5000)
unfolding from_paddr is_present
new_table_empty i = refl

new_table_apart : from_paddr offset 0x5000 ≢ leaf_table offset root far_page mmu large
unfolding from_paddr entry_paddr vaddr_indices
new_table_apart = ground arith

directory_apart : IsSeparate offset root far_page mmu large
unfolding from_paddr entry_paddr vaddr_indices
directory_apart = (ground arith, ground arith)

installed : (install_table offset root far_page mmu 1 0x5000).1 ≡ done tt
unfolding install_table is_canonical is_aligned is_present from_paddr vaddr_indices entry_paddr
    is_page
installed = refl

walk-install_table_example :
    walk offset root far_page (install_table offset root far_page mmu 1 0x5000).0
    ≡ done (not_mapped_at 1)
walk-install_table_example =
    walk-install_table offset root far_page 0x5000 mmu 1 (refl, ground arith) new_table_empty
      new_table_apart directory_apart installed

page_canonical : is_canonical page ≡ true
unfolding is_canonical
page_canonical = refl
