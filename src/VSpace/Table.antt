-- ===== src/VSpace/Table.antt =====
-- kernel/src/vspace.rs: the other methods of `Table`. A `Table` is the virtual address at which its
-- entries lie, so `from_vaddr` is the identity.
pub mod Laws
use chick.Common.{
  ℕ, zero, suc, ◌+◌, ◌-◌, ◌%◌, ◌^◌, Option, none, some, List, [], ◌∷◌, ltb, leb, if◌then◌else◌,
}
use chick.Common.Outcome.{Outcome, done, panic, Profile, debug_assert, ◌>>=◌, ◌>>◌}
use chick.Error.{SysError}
use chick.Paging.{entries_per_table}
use chick.VSpace.{Mmu}

unfoldable pub from_vaddr : ℕ → ℕ
from_vaddr vaddr = vaddr

-- `Table::paddr`; the subtraction is checked in a debug build.
unfoldable pub paddr : Profile → ℕ → ℕ → Outcome SysError ℕ
paddr profile offset table = do
  debug_assert profile (leb offset table)
  done ((table + 2 ^ 64 - offset) % 2 ^ 64)

-- `Index::index`.
unfoldable pub index : Mmu → ℕ → ℕ → Outcome SysError ℕ
index m table i = if ltb i entries_per_table then done (m.entries table i) else panic

-- The entries from `i` on, `n` of them.
unfoldable pub entries_from : ℕ → ℕ → Mmu → ℕ → List ℕ
entries_from zero i m table = []
entries_from (suc n) i m table = m.entries table i ∷ entries_from n (i + 1) m table

unfoldable pub iter : Mmu → ℕ → List ℕ
unfolding entries_from
iter m table = entries_from entries_per_table 0 m table
