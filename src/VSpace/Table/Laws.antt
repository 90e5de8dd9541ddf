-- ===== src/VSpace/Table/Laws.antt =====
-- The methods of `Table` agree with one another.
use chick.Common.{
  ℕ, zero, suc, ◌+◌, ◌^◌, ◌<◌, ◌≡◌, ◌∙◌, none, some, ltb, if◌then◌else◌, get_elem?, arith,
}
use chick.Common.Outcome.{done, panic, Profile, debug, release}
use chick.Paging.Entry.{invalid}
use chick.VSpace.{Mmu, from_paddr, get, clear}
use chick.VSpace.Table.{paddr, index, iter, entries_from}

-- The table at a physical address gives back that address, in every build, while the offset does
-- not take the address beyond 64 bits.
pub paddr-from_paddr :
    (profile : Profile) (offset p : ℕ)
    → p + offset < 2 ^ 64
    → paddr profile offset (from_paddr offset p) ≡ done p
unfolding paddr from_paddr
paddr-from_paddr debug offset p h = ground arith
paddr-from_paddr release offset p h = ground arith

entries_from-get_elem? :
    (n i : ℕ) (m : Mmu) (table j : ℕ)
    → get_elem? (entries_from n i m table) j
      ≡ (if ltb j n then some (m.entries table (i + j)) else none)
unfolding entries_from
entries_from-get_elem? zero i m table j = ground arith
entries_from-get_elem? (suc n) i m table zero = ground arith
entries_from-get_elem? (suc n) i m table (suc j) =
    entries_from-get_elem? n (i + 1) m table j ∙ ground arith

-- `get`, the index operator and the iterator see the same entries, and 512 of them: beyond the
-- table `get` gives nothing, the operator panics and the iterator has ended. After `clear` all are
-- invalid.
pub iter-index :
    (m : Mmu) (table i : ℕ)
    → (get_elem? (iter m table) i ≡ get m table i)
      × (index m table i ≡ (if ltb i 512 then done (m.entries table i) else panic))
      × (get m table i ≡ (if ltb i 512 then some (m.entries table i) else none))
      × (get (clear table m) table i ≡ (if ltb i 512 then some invalid else none))
unfolding iter get index clear
iter-index m table i = (
  entries_from-get_elem? 512 0 m table i ∙ ground arith,
  ground arith,
  ground arith,
  ground arith,
)
