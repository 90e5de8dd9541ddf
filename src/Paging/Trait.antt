-- ===== src/Paging/Trait.antt =====
-- kernel/src/arch/x86_64/vspace/entry.rs and level.rs: the trait `PageTableEntry`, its four
-- implementations, and what the traits of levels associate with a level.
pub mod Laws
use chick.Common.{
  ℕ, ◌≡◌, ◌≢◌, ◌⊎◌, inl, inr, refl, Bool, true, false, not, ◌&&◌, bit_and, bit_or, ◌==◌, Option,
  none, some, arith, Bool-cases,
}
use chick.Paging.{page_bits_4k, page_bits_2m, page_bits_1g}
use chick.Paging.Entry.{
  Level, pml4, pdpt, page_directory, pt, present, writable, user_flag, huge_page, addr_mask,
  is_present as present_at, is_table as table_at, is_page as page_at, entry_paddr,
  new_table as table_entry, invalid as invalid_entry,
}

-- An entry type is a word, so `raw` and `from_raw` are the identity.
pub record PageTableEntry : Type 0 where
  pub invalid : ℕ
  pub is_present : ℕ → Bool
  pub is_table : ℕ → Bool
  pub is_page : ℕ → Bool
  pub paddr : ℕ → ℕ
  pub raw : ℕ → ℕ
  pub from_raw : ℕ → ℕ

abbrev pub pml4e : PageTableEntry
pml4e = record {
  invalid = 0;
  is_present = λ e. not (bit_and e present == 0);
  is_table = λ e. not (bit_and e present == 0);
  is_page = λ e. false;
  paddr = λ e. bit_and e addr_mask;
  raw = λ e. e;
  from_raw = λ raw. raw;
}

abbrev pub pdpte : PageTableEntry
pdpte = record {
  invalid = 0;
  is_present = λ e. not (bit_and e present == 0);
  is_table = λ e. not (bit_and e present == 0) && (bit_and e huge_page == 0);
  is_page = λ e. not (bit_and e present == 0) && not (bit_and e huge_page == 0);
  paddr = λ e. bit_and e addr_mask;
  raw = λ e. e;
  from_raw = λ raw. raw;
}

abbrev pub pde : PageTableEntry
pde = record {
  invalid = 0;
  is_present = λ e. not (bit_and e present == 0);
  is_table = λ e. not (bit_and e present == 0) && (bit_and e huge_page == 0);
  is_page = λ e. not (bit_and e present == 0) && not (bit_and e huge_page == 0);
  paddr = λ e. bit_and e addr_mask;
  raw = λ e. e;
  from_raw = λ raw. raw;
}

abbrev pub pte : PageTableEntry
pte = record {
  invalid = 0;
  is_present = λ e. not (bit_and e present == 0);
  is_table = λ e. false;
  is_page = λ e. not (bit_and e present == 0);
  paddr = λ e. bit_and e addr_mask;
  raw = λ e. e;
  from_raw = λ raw. raw;
}

-- `Pdpte::new_table` and `Pde::new_table`.
unfoldable pub pdpte_table : ℕ → ℕ
pdpte_table paddr = bit_or (bit_or (bit_or (bit_and paddr addr_mask) present) writable) user_flag

unfoldable pub pde_table : ℕ → ℕ
pde_table paddr = bit_or (bit_or (bit_or (bit_and paddr addr_mask) present) writable) user_flag

-- `TableLevel::Entry`.
abbrev pub entry_of : Level → PageTableEntry
entry_of pml4 = pml4e
entry_of pdpt = pdpte
entry_of page_directory = pde
entry_of pt = pte

-- `TableLevel::NextLevel`; below `Pt` are the frames, a level without tables.
abbrev pub next_level : Level → Option Level
next_level pml4 = some pdpt
next_level pdpt = some page_directory
next_level page_directory = some pt
next_level pt = none

-- `PageLevel::PAGE_BITS`, of the levels that map pages.
abbrev pub page_bits : Level → Option ℕ
page_bits pml4 = none
page_bits pdpt = some page_bits_1g
page_bits page_directory = some page_bits_2m
page_bits pt = some page_bits_4k
