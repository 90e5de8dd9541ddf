-- ===== src/VSpace.antt =====
-- kernel/src/objects/vspace.rs, and the tables of kernel/src/vspace.rs: capabilities of address
-- spaces, and the page tables that they head.
-- The tables lie in memory that the kernel sees at `OFFSET`; `Mmu` gives the entries of the table
-- at a virtual address. Tables are aligned to 4 KiB, so two tables never overlap. Sums of
-- addresses wrap at 64 bits. `flush_page` is a machine instruction: the addresses that were
-- flushed are recorded, the last one first.
pub mod Address
pub mod Leaf
pub mod Map
pub mod Radix
pub mod Table
pub mod Unmap
use chick.Common.{
  ℕ, ◌+◌, ◌%◌, ◌^◌, Bool, true, false, not, ◌||◌, Option, none, some, List, ◌∷◌, ◌==◌, ltb,
  if◌then◌else◌, bit_and, bit_or,
}
use chick.Common.Bits.{shl, shr, mask, lnot}
use chick.Common.Store.{update}
use chick.Common.Outcome.{Outcome, done, err, Profile, debug_assert, ◌>>=◌, ◌>>◌}
use chick.Error.{SysError, VSpaceError, invalid_vaddr}
use chick.Objects.{CapRaw, ObjType, default_with_type}
use chick.Paging.{entries_per_table}
use chick.Paging.Entry.{
  Level, pml4, pdpt, page_directory, pt, is_present, is_table, is_page, entry_paddr, invalid,
}
use chick.Frame.{FrameSize, small, large, huge}

abbrev pub asid_max : ℕ
asid_max = 0xffff

abbrev asid_offset : ℕ
asid_offset = 0

abbrev asid_width : ℕ
asid_width = 16

abbrev is_active_offset : ℕ
is_active_offset = 16

unfoldable pub mint : Profile → ℕ → ℕ → ℕ → Outcome SysError CapRaw
mint profile pml4_paddr asid rights = do
  debug_assert profile (bit_and pml4_paddr 0xfff == 0)
  let arg1 = shl asid asid_offset
  done (record (default_with_type ObjType.vspace) {
    arg1 = arg1;
    arg2 = 0;
    paddr = pml4_paddr;
    rights = rights;
  })

unfoldable pub asid : CapRaw → ℕ
asid raw = bit_and (shr raw.arg1 asid_offset) (mask asid_width)

unfoldable pub is_active : CapRaw → Bool
is_active raw = not (bit_and (shr raw.arg1 is_active_offset) 1 == 0)

unfoldable pub set_active : Bool → CapRaw → CapRaw
set_active active raw = record raw {
  arg1 =
      if active
      then bit_or raw.arg1 (shl 1 is_active_offset)
      else bit_and raw.arg1 (lnot (shl 1 is_active_offset));
}

-- `vaddr_indices`: the index at each level.
pub record Indices : Type 0 where
  pub pml4_idx : ℕ
  pub pdpt_idx : ℕ
  pub pd_idx : ℕ
  pub pt_idx : ℕ

unfoldable pub vaddr_indices : ℕ → Indices
vaddr_indices vaddr = record {
  pml4_idx = bit_and (shr vaddr 39) 0x1ff;
  pdpt_idx = bit_and (shr vaddr 30) 0x1ff;
  pd_idx = bit_and (shr vaddr 21) 0x1ff;
  pt_idx = bit_and (shr vaddr 12) 0x1ff;
}

unfoldable pub is_canonical : ℕ → Bool
is_canonical vaddr = let top_bits = shr vaddr 47 in top_bits == 0 || top_bits == 0x1ffff

-- The entries of the tables by virtual address, and the flushes so far.
pub record Mmu : Type 0 where
  pub entries : ℕ → ℕ → ℕ
  pub flushed : List ℕ

-- `Table::from_paddr`: the virtual address of a table.
unfoldable pub from_paddr : ℕ → ℕ → ℕ
from_paddr offset paddr = (paddr + offset) % 2 ^ 64

-- `*entry = value`.
unfoldable pub write_entry : ℕ → ℕ → ℕ → Mmu → Mmu
write_entry table index value m = record m {
  entries = update m.entries table (update (m.entries table) index value);
}

-- `flush_page`.
unfoldable pub flush_page : ℕ → Mmu → Mmu
flush_page vaddr m = record m { flushed = vaddr ∷ m.flushed }

-- `Table::get`.
unfoldable pub get : Mmu → ℕ → ℕ → Option ℕ
get m table index = if ltb index entries_per_table then some (m.entries table index) else none

-- `Table::clear` and the fresh table of `Table::new`.
unfoldable pub clear : ℕ → Mmu → Mmu
clear table m = record m { entries = update m.entries table (λ index. invalid) }

-- `Table::next_table`: the virtual address of the table that an entry names.
unfoldable pub next_table : Level → ℕ → Mmu → ℕ → ℕ → Option ℕ
unfolding get
next_table level offset m table index = elim (get m table index) [
  | none ↦ none
  | some entry ↦
      if not (is_table level entry) then none else some (from_paddr offset (entry_paddr entry))
]

pub data WalkResult : Type 0 where
  mapped_page : (paddr : ℕ) (size : FrameSize) (level : ℕ) → WalkResult
  not_mapped_at : (level : ℕ) → WalkResult
  table_at : (paddr level : ℕ) → WalkResult

-- The table at each level on the way to an address, as the code reads them one by one; `root` is
-- the physical address in the capability.
module _ (offset root vaddr : ℕ) (m : Mmu) where
  abbrev pub pml4_table : ℕ
  pml4_table = from_paddr offset root

  abbrev pub pml4e : ℕ
  pml4e = m.entries pml4_table (vaddr_indices vaddr).pml4_idx

  abbrev pub pdpt_table : ℕ
  pdpt_table = from_paddr offset (entry_paddr pml4e)

  abbrev pub pdpte : ℕ
  pdpte = m.entries pdpt_table (vaddr_indices vaddr).pdpt_idx

  abbrev pub pd_table : ℕ
  pd_table = from_paddr offset (entry_paddr pdpte)

  abbrev pub pde : ℕ
  pde = m.entries pd_table (vaddr_indices vaddr).pd_idx

  abbrev pub pt_table : ℕ
  pt_table = from_paddr offset (entry_paddr pde)

  abbrev pub pte : ℕ
  pte = m.entries pt_table (vaddr_indices vaddr).pt_idx

  unfoldable pub walk : Outcome VSpaceError WalkResult
  walk =
      if not (is_canonical vaddr)
      then err invalid_vaddr
      else if not (is_present pml4e)
      then done (not_mapped_at 4)
      else if not (is_present pdpte)
      then done (not_mapped_at 3)
      else if is_page pdpt pdpte
      then done (mapped_page (entry_paddr pdpte) huge 3)
      else if not (is_present pde)
      then done (not_mapped_at 2)
      else if is_page page_directory pde
      then done (mapped_page (entry_paddr pde) large 2)
      else if not (is_present pte)
      then done (not_mapped_at 1)
      else done (mapped_page (entry_paddr pte) small 1)
