-- ===== src/Paging/Entry.antt =====
-- kernel/src/arch/x86_64/vspace/entry.rs and level.rs: page table entries as 64-bit words. The
-- four entry types wrap a word each; `PageTableEntry`, their trait, is a function of the level.
pub mod Laws
use chick.Common.{ℕ, Bool, false, not, ◌&&◌, bit_and, bit_or, ◌==◌, if◌then◌else◌, ◌^◌}
use chick.Objects.CapRights
use chick.Objects.CapRights.{includes}
use chick.Paging.{
  CachePolicy, write_back, write_through, uncacheable, write_combining, VmAttributes,
}

abbrev pub present : ℕ
present = 2 ^ 0

abbrev pub writable : ℕ
writable = 2 ^ 1

abbrev pub user_flag : ℕ
user_flag = 2 ^ 2

abbrev pub write_through_flag : ℕ
write_through_flag = 2 ^ 3

abbrev pub cache_disable : ℕ
cache_disable = 2 ^ 4

abbrev pub huge_page : ℕ
huge_page = 2 ^ 7

abbrev pub global_flag : ℕ
global_flag = 2 ^ 8

abbrev pub no_execute : ℕ
no_execute = 2 ^ 63

abbrev pub addr_mask : ℕ
addr_mask = 0x000f_ffff_ffff_f000

-- The levels that have a table, each with its entry type: `Pml4e`, `Pdpte`, `Pde` and `Pte`.
pub data Level : Type 0 where
  pml4 pdpt page_directory pt : Level

-- `Level::LEVEL`.
abbrev pub level_number : Level → ℕ
level_number pml4 = 4
level_number pdpt = 3
level_number page_directory = 2
level_number pt = 1

cache_flags : CachePolicy → ℕ → ℕ
cache_flags write_back flags = flags
cache_flags write_through flags = bit_or flags write_through_flag
cache_flags uncacheable flags = bit_or flags cache_disable
cache_flags write_combining flags = bit_or flags (bit_or write_through_flag cache_disable)

unfoldable pub build_flags : VmAttributes → ℕ
unfolding cache_flags
build_flags attr =
    let f1 = if includes attr.rights CapRights.write then bit_or present writable else present in
    let f2 = if attr.user then bit_or f1 user_flag else f1 in
    let f3 = if attr.global then bit_or f2 global_flag else f2 in
    let f4 = if not (includes attr.rights CapRights.execute) then bit_or f3 no_execute else f3 in
    cache_flags attr.cache f4

-- `new_table` of `Pml4e`, `Pdpte` and `Pde`.
unfoldable pub new_table : ℕ → ℕ
new_table paddr = bit_or (bit_or (bit_or (bit_and paddr addr_mask) present) writable) user_flag

-- `Pml4e::table`.
unfoldable pub table : ℕ → VmAttributes → ℕ
table paddr attr =
    let flags =
      bit_or (bit_or present (if includes attr.rights CapRights.write then writable else 0))
        (if attr.user then user_flag else 0) in
    bit_or (bit_and paddr addr_mask) flags

-- `Pte::new_page`.
unfoldable pub new_page : ℕ → VmAttributes → ℕ
new_page paddr attr = bit_or (bit_and paddr addr_mask) (build_flags attr)

-- `Pde::new_large_page` and `Pdpte::new_huge_page`.
unfoldable pub new_large_page : ℕ → VmAttributes → ℕ
new_large_page paddr attr = bit_or (bit_and paddr addr_mask) (bit_or (build_flags attr) huge_page)

unfoldable pub new_huge_page : ℕ → VmAttributes → ℕ
new_huge_page paddr attr = bit_or (bit_and paddr addr_mask) (bit_or (build_flags attr) huge_page)

abbrev pub invalid : ℕ
invalid = 0

unfoldable pub is_present : ℕ → Bool
is_present entry = not (bit_and entry present == 0)

unfoldable pub is_table : Level → ℕ → Bool
is_table pml4 entry = is_present entry
is_table pdpt entry = is_present entry && (bit_and entry huge_page == 0)
is_table page_directory entry = is_present entry && (bit_and entry huge_page == 0)
is_table pt entry = false

unfoldable pub is_page : Level → ℕ → Bool
is_page pml4 entry = false
is_page pdpt entry = is_present entry && not (bit_and entry huge_page == 0)
is_page page_directory entry = is_present entry && not (bit_and entry huge_page == 0)
is_page pt entry = is_present entry

-- `paddr`; the address has no bit above 51, as `PhysAddr::new` asks.
unfoldable pub entry_paddr : ℕ → ℕ
entry_paddr entry = bit_and entry addr_mask
