-- ===== src/Untyped/Bounds.antt =====
-- An untyped object never hands out the same memory twice, and none outside itself.
use chick.Common.{◌+◌, ◌^◌, ◌≤◌}
use chick.Objects.{CapRaw}
use chick.Untyped.{bit_size, size, free_offset}

-- An untyped capability: its object has at most 48 bits and lies within the address space, and the
-- free memory starts within it.
pub record IsUntyped (raw : CapRaw) : Type 0 where
  pub small : bit_size raw ≤ 48
  pub within : raw.paddr + size raw ≤ 2 ^ 64
  pub offset : free_offset raw ≤ size raw
