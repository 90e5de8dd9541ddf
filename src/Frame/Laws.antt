-- ===== src/Frame/Laws.antt =====
-- The bit fields of a frame capability do not disturb one another.
use chick.Common.{
  ℕ, ◌≡◌, refl, ◌∙◌, Bool, true, false, ◌==◌, if◌then◌else◌, bit_and, ◌^◌, ◌<◌, ◌/◌, ◌%◌, not,
  arith,
}
use chick.Common.Bits.{
  shl, mask, lnot, field, field-and, and-mask, put, put_self, put_other, and-zero, field-and-keep,
}
use chick.Common.Outcome.{done, err, panic, Profile, debug, release}
use chick.Error.{frame_already_mapped}
use chick.Objects.{CapRaw}
use chick.Objects.CapRights
use chick.Objects.CapRights.{includes}
use chick.Paging.{CachePolicy, write_back, uncacheable, policy_bits}
use chick.Frame.{
  FrameSize, bits, or_small, policy_of_bits, mint, mint_with_cache, size, is_device, cache_policy,
  set_cache_policy, mapped_asid, mapped_vaddr, set_mapped, clear_mapped, is_mapped, from_bits,
  vm_rights_from_cap,
}

-- The accessors as fields of `arg1`.
size-field : (raw : CapRaw) → size raw ≡ or_small (from_bits (field 0 6 raw.arg1))
unfolding size
size-field raw = rw (and-mask 6 (raw.arg1 / 1))

is_device-field : (raw : CapRaw) → is_device raw ≡ not (field 6 1 raw.arg1 == 0)
unfolding is_device
is_device-field raw = rw (and-mask 1 (raw.arg1 / 2 ^ 6))

cache_policy-field : (raw : CapRaw) → cache_policy raw ≡ policy_of_bits (field 7 3 raw.arg1)
unfolding cache_policy
cache_policy-field raw = rw (and-mask 3 (raw.arg1 / 2 ^ 7))

mapped_asid-field : (raw : CapRaw) → mapped_asid raw ≡ field 10 16 raw.arg1
unfolding mapped_asid
mapped_asid-field raw = and-mask 16 (raw.arg1 / 2 ^ 10)

-- What a frame capability says of its frame, apart from the mapping.
pub record IsFrame (raw : CapRaw) (s : FrameSize) (device : Bool) (policy : CachePolicy)
    : Type 0 where
  pub has_size : size raw ≡ s
  pub has_device : is_device raw ≡ device
  pub has_policy : cache_policy raw ≡ policy

-- A freshly minted capability gives back its size, its kind of memory, its policy, address and
-- rights, and is not mapped.
pub mint_with_cache-IsFrame :
    (paddr : ℕ) (s : FrameSize) (device : Bool) (policy : CachePolicy) (rights : ℕ)
    → let raw = mint_with_cache paddr s device policy rights in
      IsFrame raw s device policy
      × (mapped_asid raw ≡ 0)
      × (mapped_vaddr raw ≡ 0)
      × (raw.paddr ≡ paddr)
      × (raw.rights ≡ rights)
unfolding mint_with_cache size is_device cache_policy mapped_asid
mint_with_cache-IsFrame paddr s device policy rights = (
  record { has_size = ground arith; has_device = ground arith; has_policy = ground arith },
  ground arith,
  refl,
  refl,
  refl,
)

-- Device memory is minted uncacheable and other memory write-back.
abbrev pub default_policy : Bool → CachePolicy
default_policy true = uncacheable
default_policy false = write_back

-- `mint` is `mint_with_cache` at the default policy; the debug build panics instead exactly when
-- the address is not aligned to the size.
pub mint-mint_with_cache :
    (profile : Profile) (paddr : ℕ) (s : FrameSize) (device : Bool) (rights : ℕ)
    → mint profile paddr s device rights ≡ elim profile [
      | debug ↦
          if paddr % 2 ^ bits s == 0
          then done (mint_with_cache paddr s device (default_policy device) rights)
          else panic
      | release ↦ done (mint_with_cache paddr s device (default_policy device) rights)
    ]
unfolding mint mint_with_cache
mint-mint_with_cache debug paddr s true rights = rw (and-mask (bits s) paddr) (ground arith)
mint-mint_with_cache debug paddr s false rights = rw (and-mask (bits s) paddr) (ground arith)
mint-mint_with_cache release paddr s true rights = refl
mint-mint_with_cache release paddr s false rights = refl

-- Equal fields, equal facts.
same_fields :
    (raw raw' : CapRaw)
    → field 0 6 raw'.arg1 ≡ field 0 6 raw.arg1
    → field 6 1 raw'.arg1 ≡ field 6 1 raw.arg1
    → field 7 3 raw'.arg1 ≡ field 7 3 raw.arg1
    → IsFrame raw' (size raw) (is_device raw) (cache_policy raw)
same_fields raw raw' a b c = record {
  has_size = rw (size-field raw', size-field raw, a);
  has_device = rw (is_device-field raw', is_device-field raw, b);
  has_policy = rw (cache_policy-field raw', cache_policy-field raw, c);
}

module _ (asid vaddr : ℕ) (raw : CapRaw) where
  -- Mapping a frame that is mapped already is an error; otherwise the address space and the
  -- virtual address are recorded, and size, kind of memory, policy, physical address and rights
  -- stay.
  pub set_mapped-IsFrame :
      asid < 2 ^ 16
      → is_mapped raw ≡ false
      → (raw' : CapRaw) × (set_mapped asid vaddr raw ≡ done raw')
        × (mapped_asid raw' ≡ asid)
        × (mapped_vaddr raw' ≡ vaddr)
        × IsFrame raw' (size raw) (is_device raw) (cache_policy raw)
        × (raw'.paddr ≡ raw.paddr)
        × (raw'.rights ≡ raw.rights)
  unfolding set_mapped
  set_mapped-IsFrame small h =
      let new : CapRaw = record raw { arg1 = put raw.arg1 asid 10 16; arg2 = vaddr } in
      (
        new,
        rw h,
        mapped_asid-field new ∙ put_self raw.arg1 asid 10 16 refl (omega arith),
        refl,
        same_fields raw new (put_other raw.arg1 asid 10 16 0 6 refl (omega arith))
            (put_other raw.arg1 asid 10 16 6 1 refl (omega arith))
            (put_other raw.arg1 asid 10 16 7 3 refl (omega arith)),
        refl,
        refl,
      )

  pub set_mapped-mapped :
      is_mapped raw ≡ true → set_mapped asid vaddr raw ≡ err frame_already_mapped
  unfolding set_mapped
  set_mapped-mapped h = rw h

-- Clearing forgets the mapping and nothing else.
pub clear_mapped-IsFrame :
    (raw : CapRaw)
    → (is_mapped (clear_mapped raw) ≡ false)
      × (mapped_vaddr (clear_mapped raw) ≡ 0)
      × IsFrame (clear_mapped raw) (size raw) (is_device raw) (cache_policy raw)
unfolding clear_mapped is_mapped
clear_mapped-IsFrame raw =
    let new : CapRaw = record raw { arg1 = bit_and raw.arg1 (lnot (shl (mask 16) 10)); arg2 = 0 } in
    (
      rw (mapped_asid-field new, field-and 10 16 raw.arg1 (lnot (shl (mask 16) 10)), and-zero),
      refl,
      same_fields raw new (field-and-keep 0 6 raw.arg1 (lnot (shl (mask 16) 10)) refl)
          (field-and-keep 6 1 raw.arg1 (lnot (shl (mask 16) 10)) refl)
          (field-and-keep 7 3 raw.arg1 (lnot (shl (mask 16) 10)) refl),
    )

-- A new cache policy is read back, and size, kind of memory and mapping stay.
pub set_cache_policy-IsFrame :
    (policy : CachePolicy) (raw : CapRaw)
    → IsFrame (set_cache_policy policy raw) (size raw) (is_device raw) policy
      × (mapped_asid (set_cache_policy policy raw) ≡ mapped_asid raw)
unfolding set_cache_policy
set_cache_policy-IsFrame policy raw =
    let new : CapRaw = record raw { arg1 = put raw.arg1 (policy_bits policy) 7 3 } in
    (
      record {
        has_size = rw (
          size-field new,
          size-field raw,
          put_other raw.arg1 (policy_bits policy) 7 3 0 6 refl (ground arith),
        );
        has_device = rw (
          is_device-field new,
          is_device-field raw,
          put_other raw.arg1 (policy_bits policy) 7 3 6 1 refl (ground arith),
        );
        has_policy =
            rw
              (
                cache_policy-field new,
                put_self raw.arg1 (policy_bits policy) 7 3 refl (ground arith),
              )
              (unfold policy_of_bits in ground arith);
      },
      rw (
        mapped_asid-field new,
        mapped_asid-field raw,
        put_other raw.arg1 (policy_bits policy) 7 3 10 16 refl (ground arith),
      ),
    )

-- The rights of a mapping are those of the capability among read, write and execute.
pub vm_rights_from_cap-includes :
    (raw : CapRaw)
    → let r = vm_rights_from_cap raw in
      (includes r CapRights.read ≡ includes raw.rights CapRights.read)
      × (includes r CapRights.write ≡ includes raw.rights CapRights.write)
      × (includes r CapRights.execute ≡ includes raw.rights CapRights.execute)
      × (r < 8)
unfolding vm_rights_from_cap includes
vm_rights_from_cap-includes raw = ground arith
