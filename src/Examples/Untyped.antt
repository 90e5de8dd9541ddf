-- ===== src/Examples/Untyped.antt =====
-- Untyped memory of 1 MiB, as objects/untyped.rs retypes it.
use chick.Common.{ℕ, ◌≡◌, refl, false, [], ◌∷◌, ◌==◌, if◌then◌else◌}
use chick.Common.Outcome.{Outcome, done, err, panic, debug}
use chick.Error.{SysError}
use chick.Objects.{ObjType, default}
use chick.Cnode.{Slots}
use chick.Untyped.{mint, size, free_offset, Memory, retype}
use chick.Untyped.Laws.{retype-cnode}

-- The untyped capability is in slot 50, and the other slots are null.
abbrev memory : Memory
unfolding mint
memory = record { slots = λ a. if a == 50 then mint 0x100000 20 false else default; cleared = [] }

-- The memory that a call gives.
got : Outcome SysError Memory → Memory
got (done m) = m
got (err e) = memory
got panic = memory

-- Two untyped objects of 4 KiB.
abbrev two_pages : Memory
unfolding retype got memory
two_pages = got (retype debug 50 ObjType.untyped 12 (60 ∷ (61 ∷ [])) memory)

-- A node of one slot.
abbrev one_slot : Memory
unfolding retype got memory
one_slot = got (retype debug 50 ObjType.cnode 6 (60 ∷ []) memory)

retyped_node : retype debug 50 ObjType.cnode 6 (60 ∷ []) memory ≡ done one_slot
unfolding one_slot chick.Untyped.is_device free_offset size chick.Cnode.mint
retyped_node = refl

retype-cnode_example : ◌≡◌ {A = ℕ} 6 6
retype-cnode_example = retype-cnode debug 50 6 60 [] memory one_slot retyped_node
