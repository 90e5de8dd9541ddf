-- ===== src/VSpace/Unmap.antt =====
-- kernel/src/objects/vspace.rs: `unmap` and `install_table`.
pub mod Laws
use chick.Common.{ℕ, not, ◌==◌, if◌then◌else◌}
use chick.Common.Outcome.{Outcome, done, err}
use chick.Error.{
  VSpaceError, invalid_vaddr, misaligned_paddr, missing_table, already_mapped, not_mapped,
}
use chick.Paging.Entry.{pdpt, page_directory, is_present, is_page, entry_paddr, invalid, new_table}
use chick.Frame.{FrameSize, small, large, huge, is_aligned}
use chick.VSpace.{
  Mmu, Indices, vaddr_indices, is_canonical, write_entry, flush_page, pml4_table, pml4e, pdpt_table,
  pdpte, pd_table, pde, pt_table, pte,
}

module _ (offset root vaddr : ℕ) (m : Mmu) where
  unfoldable pub unmap : Mmu × Outcome VSpaceError (ℕ × FrameSize)
  unmap =
      if not (is_canonical vaddr)
      then (m, err invalid_vaddr)
      else if not (is_present (pml4e offset root vaddr m))
      then (m, err not_mapped)
      else if not (is_present (pdpte offset root vaddr m))
      then (m, err not_mapped)
      else if is_page pdpt (pdpte offset root vaddr m)
      then (
        flush_page vaddr
            (write_entry (pdpt_table offset root vaddr m) (vaddr_indices vaddr).pdpt_idx invalid m),
        done (entry_paddr (pdpte offset root vaddr m), huge),
      )
      else if not (is_present (pde offset root vaddr m))
      then (m, err not_mapped)
      else if is_page page_directory (pde offset root vaddr m)
      then (
        flush_page vaddr
            (write_entry (pd_table offset root vaddr m) (vaddr_indices vaddr).pd_idx invalid m),
        done (entry_paddr (pde offset root vaddr m), large),
      )
      else if not (is_present (pte offset root vaddr m))
      then (m, err not_mapped)
      else (
        flush_page vaddr
            (write_entry (pt_table offset root vaddr m) (vaddr_indices vaddr).pt_idx invalid m),
        done (entry_paddr (pte offset root vaddr m), small),
      )

  -- Installs the table that the entry of level `level + 1` names.
  unfoldable pub install_table : ℕ → ℕ → Mmu × Outcome VSpaceError (Unit {0})
  install_table level table_paddr =
      if not (is_canonical vaddr)
      then (m, err invalid_vaddr)
      else if not (is_aligned small table_paddr)
      then (m, err misaligned_paddr)
      else if level == 3
      then (if is_present (pml4e offset root vaddr m) then (m, err already_mapped) else (
        write_entry (pml4_table offset root vaddr m) (vaddr_indices vaddr).pml4_idx
            (new_table table_paddr) m,
        done tt,
      ))
      else if level == 2
      then (if not (is_present (pml4e offset root vaddr m))
          then (m, err missing_table)
          else if is_present (pdpte offset root vaddr m)
          then (m, err already_mapped)
          else (
            write_entry (pdpt_table offset root vaddr m) (vaddr_indices vaddr).pdpt_idx
                (new_table table_paddr) m,
            done tt,
          ))
      else if level == 1
      then (if not (is_present (pml4e offset root vaddr m))
          then (m, err missing_table)
          else if not (is_present (pdpte offset root vaddr m))
          then (m, err missing_table)
          else if is_page pdpt (pdpte offset root vaddr m)
          then (m, err already_mapped)
          else if is_present (pde offset root vaddr m)
          then (m, err already_mapped)
          else (
            write_entry (pd_table offset root vaddr m) (vaddr_indices vaddr).pd_idx
                (new_table table_paddr) m,
            done tt,
          ))
      else (m, err invalid_vaddr)
