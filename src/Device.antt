-- ===== src/Device.antt =====
-- kernel/src/arch/x86_64/: what the drivers of devices share. `Bus` stands for the ports and the
-- memory-mapped registers: every access is recorded, and the values that reads give are an
-- argument.
pub mod Apic
pub mod Pic
pub mod Pit
use chick.Common.{ℕ, ◌+◌, List, [], ◌∷◌}

pub data Access : Type 0 where
  out8 : (port : ℕ) (value : ℕ) → Access
  in8 : (port : ℕ) → Access
  store32 : (addr : ℕ) (value : ℕ) → Access
  load32 : (addr : ℕ) → Access

-- The accesses so far, the newest first, and the values of the reads to come.
pub record Bus : Type 0 where
  pub log : List Access
  pub answers : ℕ → ℕ

unfoldable pub write : Access → Bus → Bus
write a b = record b { log = a ∷ b.log }

unfoldable pub read : Access → Bus → ℕ × Bus
read a b = (b.answers 0, record { log = a ∷ b.log; answers = λ i. b.answers (i + 1) })
