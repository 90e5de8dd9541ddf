-- ===== src/Objects/CapRights.antt =====
-- kernel/src/objects/mod.rs: the flags of `CapRights`, a set of flags in a `u8`.
use chick.Common.{ℕ, Bool, bit_and, ◌==◌}

abbrev pub none : ℕ
none = 0b0000_0000

abbrev pub read : ℕ
read = 0b0000_0001

abbrev pub write : ℕ
write = 0b0000_0010

abbrev pub execute : ℕ
execute = 0b0000_0100

abbrev pub grant : ℕ
grant = 0b0000_1000

abbrev pub control : ℕ
control = 0b0001_0000

abbrev pub send : ℕ
send = 0b0010_0000

abbrev pub receive : ℕ
receive = 0b0100_0000

-- `other` has no flag that `self` lacks: what `includes` states of a set of flags, and what the
-- code's `contains` tests.
unfoldable pub includes : ℕ → ℕ → Bool
includes self other = bit_and self other == other
