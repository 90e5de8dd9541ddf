-- ===== src/Cnode/Spec.antt =====
-- kernel/src/objects/cnode.rs, nullcap.rs and mod.rs: what the source itself specifies, in the
-- functions that it marks `spec`. A chain is given by the list of its slots.
pub mod Chain
pub mod Edits
pub mod Mint
use chick.Common.{
  ℕ, suc, ◌+◌, ◌-◌, ◌^◌, ◌≤◌, ◌<◌, ◌≡◌, ◌≢◌, Option, none, some, List, leb, if◌then◌else◌, length,
  get_elem?, bit_and,
}
use chick.Common.Bits.{shl, shr}
use chick.Objects.{CapRaw, ObjType, KernelObject, obj_type, default}
use chick.Objects.CapRights
use chick.Cnode.{Slots, cnode_depth, guard_offset, guard_bits_width, radix_offset, radix_bits_width}

-- `adjacent_linked`: the slots at `i` and behind it point to each other.
abbrev pub AdjacentLinked : Slots → List ℕ → ℕ → Type 0
AdjacentLinked mem entries i =
    (a b : ℕ)
    → get_elem? entries i ≡ some a
    → get_elem? entries (suc i) ≡ some b
    → ((mem a).mdb_next ≡ some b) × ((mem b).mdb_prev ≡ some a)

-- `well_formed`.
pub record WellFormed (mem : Slots) (entries : List ℕ) : Type 0 where
  pub no_prev : (a : ℕ) → get_elem? entries 0 ≡ some a → (mem a).mdb_prev ≡ none
  pub no_next : (a : ℕ) → get_elem? entries (length entries - 1) ≡ some a → (mem a).mdb_next ≡ none
  pub adjacent : (i : ℕ) → i + 1 < length entries → AdjacentLinked mem entries i

-- `acyclic`: no slot stands in the list twice.
abbrev pub Acyclic : List ℕ → Type 0
Acyclic entries = (i j : ℕ) → i < j → j < length entries → get_elem? entries i ≢ get_elem? entries j

-- `mdb_isolated` and `is_nullified`.
abbrev pub MdbIsolated : CapRaw → Type 0
MdbIsolated raw = (raw.mdb_prev ≡ none) × (raw.mdb_next ≡ none)

abbrev pub IsNullified : CapRaw → Type 0
IsNullified raw =
    (raw.cap_type ≡ ObjType.null_obj)
    × (raw.rights ≡ CapRights.none)
    × (raw.paddr ≡ 0)
    × (raw.arg1 ≡ 0)
    × (raw.arg2 ≡ 0)

-- `is_null_cap`.
abbrev pub IsNullCap : CapRaw → Type 0
IsNullCap raw = raw ≡ default

abbrev pub mask_spec : ℕ → ℕ
mask_spec bits = if leb 64 bits then 2 ^ 64 - 1 else shl 1 bits - 1

-- `mint_valid`.
abbrev pub MintValid : ℕ → ℕ → Type 0
MintValid radix_bits guard_bits = radix_bits + guard_bits ≤ cnode_depth

-- `cnode_cap_well_formed`.
pub record CnodeCapWellFormed (cap : CapRaw) : Type 0 where
  pub cap_type : cap.cap_type ≡ ObjType.cnode
  pub depth :
      bit_and (shr cap.arg1 guard_offset) (mask_spec guard_bits_width)
        + bit_and (shr cap.arg1 radix_offset) (mask_spec radix_bits_width)
      ≤ cnode_depth
  pub paddr : cap.paddr ≢ 0
