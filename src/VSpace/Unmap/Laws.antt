-- ===== src/VSpace/Unmap/Laws.antt =====
-- Unmapping undoes a mapping; a table that is installed carries the walk one level further.
use chick.Common.{ℕ, ◌≡◌, ◌≢◌, ◌↔◌, ◌+◌, ◌<◌, Bool, true, false, refl, arith, suc, zero}
use chick.Common.Outcome.{done, err}
use chick.Error.{not_mapped}
use chick.Objects.{CapRaw}
use chick.Paging.Entry.{invalid, is_present, new_table}
use chick.Paging.Entry.Laws.{IsFrameAddr, new_table-is_table, is_present-field, is_page-huge}
use chick.Frame.{FrameSize, small, large, huge, is_aligned, size}
use chick.VSpace.{
  Mmu, vaddr_indices, walk, mapped_page, not_mapped_at, write_entry, flush_page, from_paddr,
  pml4_table, pdpt_table, pd_table,
}
use chick.VSpace.Leaf.{leaf_level, leaf_table, leaf_index, IsSeparate}
use chick.VSpace.Map.{map_frame}
use chick.VSpace.Map.Laws.{walk-map_frame, map_frame-done}
use chick.VSpace.Unmap.{unmap, install_table}

module _ (offset root vaddr : ℕ) (m : Mmu) where
  -- `unmap` follows the walk: a page that the walk finds is returned with its size, its entry is
  -- cleared and the address flushed; where the walk finds none, the result is an error and
  -- nothing changes.
  pub unmap-walk :
      (p l : ℕ) (s : FrameSize)
      → walk offset root vaddr m ≡ done (mapped_page p s l)
      → unmap offset root vaddr m ≡ (
        flush_page vaddr
            (write_entry (leaf_table offset root vaddr m s) (leaf_index vaddr s) invalid m),
        done (p, s),
      )
  unfolding unmap walk
  unmap-walk p l s h = ground arith

  pub unmap-walk_none :
      (l : ℕ)
      → walk offset root vaddr m ≡ done (not_mapped_at l)
      → unmap offset root vaddr m ≡ (m, err not_mapped)
  unfolding unmap walk
  unmap-walk_none l h = ground arith

  -- After the entry of a page is cleared, the walk ends at the level of that entry.
  walk-invalid :
      (p : ℕ) (s : FrameSize)
      → walk offset root vaddr m ≡ done (mapped_page p s (leaf_level s))
      → IsSeparate offset root vaddr m s
      → walk offset root vaddr (
          flush_page vaddr
            (write_entry (leaf_table offset root vaddr m s) (leaf_index vaddr s) invalid m))
        ≡ done (not_mapped_at (leaf_level s))
  unfolding walk flush_page write_entry
  walk-invalid p small h sep = ground (arith, is_present-field 0)
  walk-invalid p large h sep = ground (arith, is_present-field 0)
  walk-invalid p huge h sep = ground (arith, is_present-field 0)

-- The walk to a leaf entry does not read it, so a write there leaves the tables above.
IsSeparate-write :
    (offset root vaddr value : ℕ) (m : Mmu) (s : FrameSize)
    → IsSeparate offset root vaddr m s
    → let m' =
        flush_page vaddr
          (write_entry (leaf_table offset root vaddr m s) (leaf_index vaddr s) value m) in
      IsSeparate offset root vaddr m' s
      × (leaf_table offset root vaddr m' s ≡ leaf_table offset root vaddr m s)
unfolding flush_page write_entry
IsSeparate-write offset root vaddr value m small sep = ground arith
IsSeparate-write offset root vaddr value m large sep = ground arith
IsSeparate-write offset root vaddr value m huge sep = ground arith

module _ (offset root vaddr : ℕ) (frame : CapRaw) (user : Bool) (m : Mmu) where
  -- Unmapping a frame that was just mapped succeeds, returns the frame's address and size, and
  -- leaves the address unmapped.
  pub unmap-map_frame :
      IsFrameAddr frame.paddr
      → IsSeparate offset root vaddr m (size frame)
      → (map_frame offset root vaddr frame user m).1 ≡ done tt
      → let (m', r) = unmap offset root vaddr (map_frame offset root vaddr frame user m).0 in
        (r ≡ done (frame.paddr, size frame))
        × (walk offset root vaddr m' ≡ done (not_mapped_at (leaf_level (size frame))))
  unmap-map_frame fits sep h =
      rw (unmap-walk offset root vaddr mid frame.paddr (leaf_level (size frame)) (size frame) found)
        (refl, walk-invalid offset root vaddr mid frame.paddr (size frame) found apart)
    where
      mid : Mmu
      mid = (map_frame offset root vaddr frame user m).0

      found :
          walk offset root vaddr mid
          ≡ done (mapped_page frame.paddr (size frame) (leaf_level (size frame)))
      found = (walk-map_frame offset root vaddr frame user m fits sep h).0

      apart : IsSeparate offset root vaddr mid (size frame)
      apart =
          rw (map_frame-done offset root vaddr frame user m h)
            (IsSeparate-write offset root vaddr _ m (size frame) sep).0

-- The table that an installation at the level writes to.
abbrev pub parent_table : ℕ → ℕ → ℕ → Mmu → ℕ → ℕ
parent_table offset root vaddr m (suc zero) = pd_table offset root vaddr m
parent_table offset root vaddr m (suc (suc zero)) = pdpt_table offset root vaddr m
parent_table offset root vaddr m _ = pml4_table offset root vaddr m

-- That table is none of the tables above it.
abbrev pub IsParentSeparate : ℕ → ℕ → ℕ → Mmu → ℕ → Type 0
IsParentSeparate offset root vaddr m (suc zero) = IsSeparate offset root vaddr m large
IsParentSeparate offset root vaddr m (suc (suc zero)) = IsSeparate offset root vaddr m huge
IsParentSeparate offset root vaddr m _ = Unit

-- A table is empty when none of its entries is present.
abbrev pub IsEmptyTable : Mmu → ℕ → Type 0
IsEmptyTable m t = (i : ℕ) → is_present (m.entries t i) ≡ false

module _ (offset root vaddr table_paddr : ℕ) (m : Mmu) where
  -- A table can be installed exactly where the walk ends one level above it, at a canonical
  -- address and with the table aligned; the levels are 1, 2 and 3.
  pub install_table-done_iff :
      (level : ℕ)
      → ((install_table offset root vaddr m level table_paddr).1 ≡ done tt) ↔ (
          (is_aligned small table_paddr ≡ true)
          × (0 < level)
          × (level < 4)
          × (walk offset root vaddr m ≡ done (not_mapped_at (level + 1))))
  unfolding install_table walk
  install_table-done_iff level = ground arith

  -- Once an empty table is installed, the walk goes one level further and ends in that table.
  -- The new table is not the one written to, and that is none of the tables above it.
  pub walk-install_table :
      (level : ℕ)
      → IsFrameAddr table_paddr
      → IsEmptyTable m (from_paddr offset table_paddr)
      → from_paddr offset table_paddr ≢ parent_table offset root vaddr m level
      → IsParentSeparate offset root vaddr m level
      → (install_table offset root vaddr m level table_paddr).1 ≡ done tt
      → walk offset root vaddr (install_table offset root vaddr m level table_paddr).0
        ≡ done (not_mapped_at level)
  unfolding install_table walk write_entry
  walk-install_table zero fits empty apart sep h = ground arith
  walk-install_table (suc zero) fits empty apart sep h = ground (
    arith,
    new_table-is_table table_paddr fits,
    is_present-field (new_table table_paddr),
    is_page-huge (new_table table_paddr),
    empty (vaddr_indices vaddr).pt_idx,
  )
  walk-install_table (suc (suc zero)) fits empty apart sep h = ground (
    arith,
    new_table-is_table table_paddr fits,
    is_present-field (new_table table_paddr),
    is_page-huge (new_table table_paddr),
    empty (vaddr_indices vaddr).pd_idx,
  )
  walk-install_table (suc (suc (suc zero))) fits empty apart sep h = ground (
    arith,
    new_table-is_table table_paddr fits,
    is_present-field (new_table table_paddr),
    empty (vaddr_indices vaddr).pdpt_idx,
  )
  walk-install_table (suc (suc (suc (suc l)))) fits empty apart sep h = ground arith
