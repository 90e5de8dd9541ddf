-- ===== src/Paging.antt =====
-- kernel/src/vspace.rs: page sizes, cache policies and the attributes of a mapping.
pub mod Attributes
pub mod Entry
pub mod Trait
use chick.Common.{ℕ, Bool}

abbrev pub page_size_4k : ℕ
page_size_4k = 4096

abbrev pub page_bits_4k : ℕ
page_bits_4k = 12

abbrev pub page_bits_2m : ℕ
page_bits_2m = 21

abbrev pub page_bits_1g : ℕ
page_bits_1g = 30

abbrev pub entries_per_table : ℕ
entries_per_table = 512

-- `VMRights`: a set of flags in a `u8`; `none`, `read`, `write` and `execute` have the values of
-- the flags of `CapRights`.
abbrev pub kernel_right : ℕ
kernel_right = 0b1000

abbrev pub rw_rights : ℕ
rw_rights = 0b0011

pub data CachePolicy : Type 0 where
  write_back write_through uncacheable write_combining : CachePolicy

-- `policy as usize`.
abbrev pub policy_bits : CachePolicy → ℕ
policy_bits write_back = 0
policy_bits write_through = 1
policy_bits uncacheable = 2
policy_bits write_combining = 3

pub record VmAttributes : Type 0 where
  pub rights : ℕ
  pub cache : CachePolicy
  pub global : Bool
  pub user : Bool
