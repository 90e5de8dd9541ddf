-- ===== src/VSpace/Address.antt =====
-- Virtual addresses: canonical ones and their indices; and the fields of an address space's
-- capability.
use chick.Common.{
  ℕ, ◌+◌, ◌-◌, ◌*◌, ◌/◌, ◌%◌, ◌^◌, ◌≤◌, ◌<◌, ◌≡◌, refl, ◌↔◌, ◌⊎◌, Bool, true, false, arith, bit_and,
  bit_or, not, ◌==◌,
}
use chick.Common.Bits.{
  and-mask, field, field-and-keep, field-or, or-zero, or-one, lnot, shl, field-and, and-zero,
}
use chick.Common.Outcome.{done, Profile}
use chick.Objects.{CapRaw, ObjType, default_with_type}
use chick.VSpace.{vaddr_indices, is_canonical, mint, asid, is_active, set_active}

-- An address is canonical exactly when bits 47 to 63 are equal: it lies in the lower or in the
-- upper 128 TiB of the address space.
pub is_canonical_iff :
    (vaddr : ℕ)
    → vaddr < 2 ^ 64
    → (is_canonical vaddr ≡ true) ↔ ((vaddr < 2 ^ 47) ⊎ (2 ^ 64 - 2 ^ 47 ≤ vaddr))
unfolding is_canonical
is_canonical_iff vaddr h = ground arith

pub vaddr_indices-fields :
    (vaddr : ℕ)
    → let i = vaddr_indices vaddr in
      (i.pml4_idx ≡ vaddr / 2 ^ 39 % 512)
      × (i.pdpt_idx ≡ vaddr / 2 ^ 30 % 512)
      × (i.pd_idx ≡ vaddr / 2 ^ 21 % 512)
      × (i.pt_idx ≡ vaddr / 2 ^ 12 % 512)
unfolding vaddr_indices
vaddr_indices-fields vaddr = (
  and-mask 9 (vaddr / 2 ^ 39),
  and-mask 9 (vaddr / 2 ^ 30),
  and-mask 9 (vaddr / 2 ^ 21),
  and-mask 9 (vaddr / 2 ^ 12),
)

-- The indices stay within a table, and with the offset in the page they give back the low 48
-- bits of the address.
pub vaddr_indices-address :
    (vaddr : ℕ)
    → let i = vaddr_indices vaddr in
      (i.pml4_idx < 512)
      × (i.pdpt_idx < 512)
      × (i.pd_idx < 512)
      × (i.pt_idx < 512)
      × (i.pml4_idx * 2 ^ 39
            + i.pdpt_idx * 2 ^ 30
            + i.pd_idx * 2 ^ 21
            + i.pt_idx * 2 ^ 12
            + vaddr % 2 ^ 12
          ≡ vaddr % 2 ^ 48)
vaddr_indices-address vaddr =
    let (a, b, c, d) = vaddr_indices-fields vaddr in
    rw (a, b, c, d) (omega arith, omega arith, omega arith, omega arith, omega arith)

-- Canonical addresses with the same indices and the same offset in the page are equal.
pub vaddr_indices-injective :
    (v w : ℕ)
    → v < 2 ^ 64
    → w < 2 ^ 64
    → is_canonical v ≡ true
    → is_canonical w ≡ true
    → vaddr_indices v ≡ vaddr_indices w
    → v % 2 ^ 12 ≡ w % 2 ^ 12
    → v ≡ w
vaddr_indices-injective v w hv hw cv cw e o = grind (
  arith,
  is_canonical_iff v hv,
  is_canonical_iff w hw,
  vaddr_indices-address v,
  vaddr_indices-address w,
)

asid-field : (raw : CapRaw) → asid raw ≡ field 0 16 raw.arg1
unfolding asid
asid-field raw = and-mask 16 (raw.arg1 / 1)

is_active-field : (raw : CapRaw) → is_active raw ≡ not (field 16 1 raw.arg1 == 0)
unfolding is_active
is_active-field raw = rw (and-mask 1 (raw.arg1 / 2 ^ 16))

-- Activating or deactivating an address space sets its flag and keeps its identifier.
pub set_active-is_active :
    (active : Bool) (raw : CapRaw)
    → (is_active (set_active active raw) ≡ active) × (asid (set_active active raw) ≡ asid raw)
unfolding is_active set_active
set_active-is_active true raw =
    let new : CapRaw = record raw { arg1 = bit_or raw.arg1 (shl 1 16) } in
    (
      rw
          (
            is_active-field new,
            field-or 16 1 raw.arg1 (shl 1 16),
            or-one (field 16 1 raw.arg1) (omega arith),
          )
          refl,
      rw (asid-field new, asid-field raw, field-or 0 16 raw.arg1 (shl 1 16), or-zero) refl,
    )
set_active-is_active false raw =
    let new : CapRaw = record raw { arg1 = bit_and raw.arg1 (lnot (shl 1 16)) } in
    (
      rw (is_active-field new, field-and 16 1 raw.arg1 (lnot (shl 1 16)), and-zero) refl,
      rw (asid-field new, asid-field raw) (field-and-keep 0 16 raw.arg1 (lnot (shl 1 16)) refl),
    )

-- A minted address space has the identifier asked for, if that has 16 bits, and is inactive; the
-- debug build asks that the address of the table is aligned to 4 KiB.
pub mint-asid :
    (pml4_paddr a rights : ℕ)
    → a < 2 ^ 16
    → pml4_paddr % 4096 ≡ 0
    → (profile : Profile)
    → (raw : CapRaw) × (mint profile pml4_paddr a rights ≡ done raw)
      × (asid raw ≡ a)
      × (is_active raw ≡ false)
      × (raw.paddr ≡ pml4_paddr)
      × (raw.rights ≡ rights)
unfolding mint asid is_active
mint-asid pml4_paddr a rights small aligned profile =
    let new : CapRaw = record (default_with_type ObjType.vspace) {
      arg1 = shl a 0;
      arg2 = 0;
      paddr = pml4_paddr;
      rights = rights;
    } in
    (
      new,
      ground (arith, and-mask 12 pml4_paddr),
      ground (arith, and-mask 16 (a * 1 % 2 ^ 64)),
      ground (arith, and-mask 1 (a * 1 % 2 ^ 64 / 2 ^ 16)),
      refl,
      refl,
    )
