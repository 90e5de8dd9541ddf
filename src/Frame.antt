-- ===== src/Frame.antt =====
-- kernel/src/objects/frame.rs: capabilities of physical frames. A method on `&self` that sets the
-- cell is a function from the raw capability in the slot to the new one.
pub mod Laws
use chick.Common.{
  ℕ, ◌-◌, ◌^◌, Bool, true, false, not, Option, none, some, ◌==◌, if◌then◌else◌, bit_and, bit_or,
}
use chick.Common.Bits.{shl, shr, mask, lnot}
use chick.Common.Outcome.{Outcome, done, err, Profile, debug_assert, ◌>>=◌, ◌>>◌}
use chick.Error.{SysError, frame_already_mapped}
use chick.Objects.{CapRaw, ObjType, default_with_type}
use chick.Objects.CapRights
use chick.Objects.CapRights.{includes}
use chick.Paging.{
  CachePolicy, write_back, write_through, uncacheable, write_combining, policy_bits, VmAttributes,
}

pub data FrameSize : Type 0 where
  small large huge : FrameSize

-- `size as usize`.
abbrev pub bits : FrameSize → ℕ
bits small = 12
bits large = 21
bits huge = 30

abbrev pub bytes : FrameSize → ℕ
bytes s = 2 ^ bits s

unfoldable pub from_bits : ℕ → Option FrameSize
from_bits b =
    if b == 12
    then some small
    else if b == 21
    then some large
    else if b == 30
    then some huge
    else none

abbrev pub align_mask : FrameSize → ℕ
align_mask s = bytes s - 1

unfoldable pub is_aligned : FrameSize → ℕ → Bool
is_aligned s addr = bit_and addr (align_mask s) == 0

-- `flag as usize`.
abbrev pub flag : Bool → ℕ
flag true = 1
flag false = 0

abbrev cache_policy_offset : ℕ
cache_policy_offset = 7

abbrev cache_policy_width : ℕ
cache_policy_width = 3

abbrev is_device_offset : ℕ
is_device_offset = 6

abbrev mapped_asid_offset : ℕ
mapped_asid_offset = 10

abbrev mapped_asid_width : ℕ
mapped_asid_width = 16

abbrev size_bits_offset : ℕ
size_bits_offset = 0

abbrev size_bits_width : ℕ
size_bits_width = 6

unfoldable pub mint_with_cache : ℕ → FrameSize → Bool → CachePolicy → ℕ → CapRaw
mint_with_cache paddr size is_device cache rights =
    let arg1 =
      bit_or (bit_or (shl (bits size) size_bits_offset) (shl (flag is_device) is_device_offset))
        (shl (policy_bits cache) cache_policy_offset) in
    record (default_with_type ObjType.frame) {
      arg1 = arg1;
      arg2 = 0;
      paddr = paddr;
      rights = rights;
    }

unfoldable pub mint : Profile → ℕ → FrameSize → Bool → ℕ → Outcome SysError CapRaw
mint profile paddr size is_device rights = do
  debug_assert profile (bit_and paddr (2 ^ bits size - 1) == 0)
  let cache = if is_device then policy_bits uncacheable else policy_bits write_back
  let arg1 =
      bit_or (bit_or (shl (bits size) size_bits_offset) (shl (flag is_device) is_device_offset))
        (shl cache cache_policy_offset)
  done (record (default_with_type ObjType.frame) {
    arg1 = arg1;
    arg2 = 0;
    paddr = paddr;
    rights = rights;
  })

unfoldable pub or_small : Option FrameSize → FrameSize
or_small none = small
or_small (some s) = s

unfoldable pub size : CapRaw → FrameSize
unfolding or_small from_bits
size raw = or_small (from_bits (bit_and (shr raw.arg1 size_bits_offset) (mask size_bits_width)))

unfoldable pub is_device : CapRaw → Bool
is_device raw = not (bit_and (shr raw.arg1 is_device_offset) 1 == 0)

unfoldable pub policy_of_bits : ℕ → CachePolicy
policy_of_bits policy =
    if policy == 0
    then write_back
    else if policy == 1
    then write_through
    else if policy == 2
    then uncacheable
    else if policy == 3
    then write_combining
    else write_back

unfoldable pub cache_policy : CapRaw → CachePolicy
unfolding policy_of_bits
cache_policy raw =
    policy_of_bits (bit_and (shr raw.arg1 cache_policy_offset) (mask cache_policy_width))

unfoldable pub set_cache_policy : CachePolicy → CapRaw → CapRaw
set_cache_policy policy raw = record raw {
  arg1 =
      bit_or (bit_and raw.arg1 (lnot (shl (mask cache_policy_width) cache_policy_offset)))
        (shl (policy_bits policy) cache_policy_offset);
}

unfoldable pub mapped_asid : CapRaw → ℕ
mapped_asid raw = bit_and (shr raw.arg1 mapped_asid_offset) (mask mapped_asid_width)

abbrev pub mapped_vaddr : CapRaw → ℕ
mapped_vaddr raw = raw.arg2

unfoldable pub is_mapped : CapRaw → Bool
unfolding mapped_asid
is_mapped raw = not (mapped_asid raw == 0)

-- The new capability; on an error the slot is not set.
unfoldable pub set_mapped : ℕ → ℕ → CapRaw → Outcome SysError CapRaw
unfolding is_mapped
set_mapped asid vaddr raw =
    if is_mapped raw
    then err frame_already_mapped
    else done (record raw {
      arg1 =
          bit_or (bit_and raw.arg1 (lnot (shl (mask mapped_asid_width) mapped_asid_offset)))
            (shl asid mapped_asid_offset);
      arg2 = vaddr;
    })

unfoldable pub clear_mapped : CapRaw → CapRaw
clear_mapped raw = record raw {
  arg1 = bit_and raw.arg1 (lnot (shl (mask mapped_asid_width) mapped_asid_offset));
  arg2 = 0;
}

unfoldable pub vm_rights_from_cap : CapRaw → ℕ
vm_rights_from_cap raw =
    let r1 = if includes raw.rights CapRights.read then bit_or 0 CapRights.read else 0 in
    let r2 = if includes raw.rights CapRights.write then bit_or r1 CapRights.write else r1 in
    if includes raw.rights CapRights.execute then bit_or r2 CapRights.execute else r2

unfoldable pub vm_attributes : Bool → CapRaw → VmAttributes
unfolding vm_rights_from_cap cache_policy
vm_attributes user raw = record {
  rights = vm_rights_from_cap raw;
  cache = cache_policy raw;
  global = false;
  user = user;
}
