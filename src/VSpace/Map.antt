-- ===== src/VSpace/Map.antt =====
-- kernel/src/objects/vspace.rs: `map_4k`, `map_2m`, `map_1g` and `map_frame`. Each returns the
-- new state beside its result.
use chick.Common.{ℕ, Bool, true, false, not, ltb, ◌^◌, if◌then◌else◌}
pub mod Laws
use chick.Common.Outcome.{Outcome, done, err, panic}
use chick.Error.{
  VSpaceError, invalid_vaddr, misaligned_vaddr, misaligned_paddr, missing_table, already_mapped,
}
use chick.Objects.{CapRaw}
use chick.Paging.{VmAttributes}
use chick.Paging.Entry.{
  pdpt, page_directory, is_present, is_page, new_page, new_large_page, new_huge_page,
}
use chick.Frame.{FrameSize, small, large, huge, is_aligned, size, vm_attributes}
use chick.VSpace.{
  Mmu, Indices, vaddr_indices, is_canonical, write_entry, flush_page, pml4e, pdpt_table, pdpte,
  pd_table, pde, pt_table, pte,
}

module _ (offset root vaddr frame_paddr : ℕ) (attr : VmAttributes) (m : Mmu) where
  unfoldable pub map_4k : Mmu × Outcome VSpaceError (Unit {0})
  map_4k =
      if not (is_canonical vaddr)
      then (m, err invalid_vaddr)
      else if not (is_aligned small vaddr)
      then (m, err misaligned_vaddr)
      else if not (is_aligned small frame_paddr)
      then (m, err misaligned_paddr)
      else if not (is_present (pml4e offset root vaddr m))
      then (m, err missing_table)
      else if not (is_present (pdpte offset root vaddr m))
      then (m, err missing_table)
      else if is_page pdpt (pdpte offset root vaddr m)
      then (m, err already_mapped)
      else if not (is_present (pde offset root vaddr m))
      then (m, err missing_table)
      else if is_page page_directory (pde offset root vaddr m)
      then (m, err already_mapped)
      else if is_present (pte offset root vaddr m)
      then (m, err already_mapped)
      else (
        flush_page vaddr (
            write_entry (pt_table offset root vaddr m) (vaddr_indices vaddr).pt_idx
              (new_page frame_paddr attr) m),
        done tt,
      )

  unfoldable pub map_2m : Mmu × Outcome VSpaceError (Unit {0})
  map_2m =
      if not (is_canonical vaddr)
      then (m, err invalid_vaddr)
      else if not (is_aligned large vaddr)
      then (m, err misaligned_vaddr)
      else if not (is_aligned large frame_paddr)
      then (m, err misaligned_paddr)
      else if not (is_present (pml4e offset root vaddr m))
      then (m, err missing_table)
      else if not (is_present (pdpte offset root vaddr m))
      then (m, err missing_table)
      else if is_page pdpt (pdpte offset root vaddr m)
      then (m, err already_mapped)
      else if is_present (pde offset root vaddr m)
      then (m, err already_mapped)
      else (
        flush_page vaddr (
            write_entry (pd_table offset root vaddr m) (vaddr_indices vaddr).pd_idx
              (new_large_page frame_paddr attr) m),
        done tt,
      )

  unfoldable pub map_1g : Mmu × Outcome VSpaceError (Unit {0})
  map_1g =
      if not (is_canonical vaddr)
      then (m, err invalid_vaddr)
      else if not (is_aligned huge vaddr)
      then (m, err misaligned_vaddr)
      else if not (is_aligned huge frame_paddr)
      then (m, err misaligned_paddr)
      else if not (is_present (pml4e offset root vaddr m))
      then (m, err missing_table)
      else if is_present (pdpte offset root vaddr m)
      then (m, err already_mapped)
      else (
        flush_page vaddr (
            write_entry (pdpt_table offset root vaddr m) (vaddr_indices vaddr).pdpt_idx
              (new_huge_page frame_paddr attr) m),
        done tt,
      )

  -- The match of `map_frame` on the size of the frame.
  unfoldable pub map_sized : FrameSize → Mmu × Outcome VSpaceError (Unit {0})
  map_sized small = map_4k
  map_sized large = map_2m
  map_sized huge = map_1g

-- `map_frame`, for the capability `frame`. Its `paddr` panics on an address of more than 52 bits.
unfoldable pub map_frame : ℕ → ℕ → ℕ → CapRaw → Bool → Mmu → Mmu × Outcome VSpaceError (Unit {0})
unfolding map_sized
map_frame offset root vaddr frame user m =
    if ltb frame.paddr (2 ^ 52)
    then map_sized offset root vaddr frame.paddr (vm_attributes user frame) m (size frame)
    else (m, panic)
