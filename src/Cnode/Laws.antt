-- ===== src/Cnode/Laws.antt =====
-- Capabilities of capability nodes give back what they are minted with; `init` empties a node.
use chick.Common.{
  ℕ, zero, suc, ◌+◌, ◌*◌, ◌%◌, ◌/◌, ◌^◌, ◌≤◌, ◌<◌, ◌≡◌, ◌≢◌, refl, ap, ◌∙◌, bit_or, ◌==◌, arith,
  Bool-cases, ◌⊎◌, inl, inr,
}
use native.Mathlib.Nat.{pow-le-pow_right}
use chick.Common.Bits.{field, field-or, and-mask, or-zero, zero-or, shl}
use chick.Common.Outcome.{done, err, panic}
use chick.Error.{capability_type_error}
use chick.Objects.{CapRaw, KernelObject, obj_type, to_usize, default, default_with_type, ObjType}
use chick.Cnode.{Slots, radix_bits, guard_bits, size, mint, slot_size, init, init_slots, try_from}

pub guard_bits-field : (raw : CapRaw) → guard_bits raw ≡ field 0 6 raw.arg1
unfolding guard_bits
guard_bits-field raw = and-mask 6 (raw.arg1 / 1)

pub radix_bits-field : (raw : CapRaw) → radix_bits raw ≡ field 6 6 raw.arg1
unfolding radix_bits
radix_bits-field raw = and-mask 6 (raw.arg1 / 2 ^ 6)

pub shl_one : (r : ℕ) → r < 64 → shl 1 r ≡ 2 ^ r
shl_one r h = ground (arith, pow-le-pow_right {n = 2} (ground arith) {i = r} {j = 63} (omega arith))

-- Both widths have six bits, and a node has two to the radix slots.
pub size-pow : (raw : CapRaw) → size raw ≡ 2 ^ radix_bits raw
unfolding size
size-pow raw = shl_one (radix_bits raw) (rw (radix_bits-field raw) (omega arith))

-- What `mint` packs into `arg1`.
packed : ℕ → ℕ → ℕ
packed r g = bit_or (shl g 0) (shl r 6)

packed-fields :
    (r g : ℕ) → r < 64 → g < 64 → (field 0 6 (packed r g) ≡ g) × (field 6 6 (packed r g) ≡ r)
unfolding packed
packed-fields r g hr hg = (
  rw (field-or 0 6 (shl g 0) (shl r 6)) (ground (arith, or-zero g)),
  rw (field-or 6 6 (shl g 0) (shl r 6)) (ground (arith, zero-or r)),
)

-- `mint` keeps the low six bits of both widths. If they cover at most 32 address bits, the
-- capability gives back the widths, the address, the guard and the rights, and the node has two
-- to the radix slots.
pub mint-fields :
    (addr radix guard_width guard rights : ℕ)
    → radix % 64 + guard_width % 64 ≤ 32
    → (raw : CapRaw) × (mint addr radix guard_width guard rights ≡ done raw)
      × (radix_bits raw ≡ radix % 64)
      × (guard_bits raw ≡ guard_width % 64)
      × (size raw ≡ 2 ^ (radix % 64))
      × (raw.paddr ≡ addr)
      × (raw.arg2 ≡ guard)
      × (raw.rights ≡ rights)
unfolding mint packed
mint-fields addr radix guard_width guard rights fits =
    let r = radix % 64 in
    let g = guard_width % 64 in
    let (pg, pr) = packed-fields r g (omega arith) (omega arith) in
    let raw : CapRaw = record (default_with_type ObjType.cnode) {
      paddr = addr;
      arg1 = packed r g;
      arg2 = guard;
      rights = rights;
    } in
    let found : radix_bits raw ≡ r = radix_bits-field raw ∙ pr in
    (
      raw,
      rw (and-mask 6 radix, and-mask 6 guard_width) (ground arith),
      found,
      guard_bits-field raw ∙ pg,
      size-pow raw ∙ ap (λ (k : ℕ). 2 ^ k) found,
      refl,
      refl,
      refl,
    )

-- If the two widths cover more than 32 address bits, `mint` panics.
pub mint-panic :
    (addr radix guard_width guard rights : ℕ)
    → 32 < radix % 64 + guard_width % 64
    → mint addr radix guard_width guard rights ≡ panic
unfolding mint
mint-panic addr radix guard_width guard rights h =
    rw (and-mask 6 radix, and-mask 6 guard_width) (ground arith)

module _ (addr : ℕ) (mem : Slots) where
  init_slots-lem :
      (count a : ℕ)
      → (((i : ℕ) × (i < count) × (a ≡ addr + i * slot_size))
          × (init_slots addr count mem a ≡ default))
        ⊎ (((i : ℕ) → i < count → a ≢ addr + i * slot_size) × (init_slots addr count mem a ≡ mem a))
  unfolding init_slots
  init_slots-lem zero a = inr (λ i h. absurd (omega arith), refl)
  init_slots-lem (suc count) a = elim (Bool-cases (addr + count * slot_size == a)) [
    | inl h ↦ inl ((count, omega arith, ground arith), rw h)
    | inr h ↦ elim (init_slots-lem count a) [
      | inl ((i, lt, e), v) ↦ inl ((i, omega arith, e), rw h v)
      | inr (ne, v) ↦ inr (
        λ i lt. elim (Bool-cases (i == count)) [
          | inl q ↦ ground arith
          | inr q ↦ ne i (ground arith)
        ],
        rw h v,
      )
    ]
  ]

-- After `init` every slot of the node is null.
pub init-default :
    (raw : CapRaw) (mem : Slots) (index : ℕ)
    → index < size raw
    → init raw mem (raw.paddr + index * slot_size) ≡ default
unfolding init
init-default raw mem index h =
    elim (init_slots-lem raw.paddr mem (size raw) (raw.paddr + index * slot_size)) [
      | inl (i, v) ↦ v
      | inr (ne, v) ↦ absurd (ne index h refl)
    ]

-- `init` changes no slot outside the node.
pub init-outside :
    (raw : CapRaw) (mem : Slots) (a : ℕ)
    → ((i : ℕ) → i < size raw → a ≢ raw.paddr + i * slot_size)
    → init raw mem a ≡ mem a
unfolding init
init-outside raw mem a out = elim (init_slots-lem raw.paddr mem (size raw) a) [
  | inl ((i, lt, e), v) ↦ absurd (out i lt e)
  | inr (ne, v) ↦ v
]

to_usize-injective : (s t : ObjType) → to_usize s ≡ to_usize t → s ≡ t
to_usize-injective s t h = ground arith

-- A slot converts to a reference of a kernel object exactly if it holds that object's type, and
-- the error is always the same.
pub try_from_iff :
    (t : KernelObject) (slot : ℕ) (mem : Slots)
    → (((mem slot).cap_type ≡ obj_type t) × (try_from t slot mem ≡ done slot))
      ⊎ (((mem slot).cap_type ≢ obj_type t) × (try_from t slot mem ≡ err capability_type_error))
unfolding try_from
try_from_iff t slot mem = ground arith
