-- ===== src/Examples/Syscall.antt =====
-- System calls, with a conversion as num_enum derives it.
use chick.Common.{
  ℕ, ◌≡◌, ◌≢◌, ◌⊎◌, refl, true, false, [], ◌∷◌, ◌==◌, if◌then◌else◌, arith, some, none,
}
use chick.Common.Outcome.{err, panic}
use chick.Syscall.{
  Syscall, attach_irq, create_task, remove_task, task_sleep, map_memory, unmap_memory, grant_memory,
  send, receive, ipc_call, invalid, discriminant, is_named, Conversion, unknown_syscall, handler,
}
use chick.Syscall.Laws.{handler-lem}
use chick.Syscall.Stub.{Reg, Cpu, run, syscall_stub}
use chick.Syscall.Stub.Laws.{syscall_stub-restores}

abbrev from_u8 : ℕ → Syscall
from_u8 b =
    if b == 0
    then attach_irq
    else if b == 1
    then create_task
    else if b == 2
    then remove_task
    else if b == 3
    then task_sleep
    else if b == 10
    then map_memory
    else if b == 11
    then unmap_memory
    else if b == 12
    then grant_memory
    else if b == 20
    then send
    else if b == 21
    then receive
    else if b == 22
    then ipc_call
    else invalid b

from_u8-Conversion : Conversion from_u8
from_u8-Conversion = record { number = number; catch_all = λ b h k. ground arith }
  where
    number : (s : Syscall) → is_named s ≡ true → from_u8 (discriminant s) ≡ s
    number attach_irq h = refl
    number create_task h = refl
    number remove_task h = refl
    number task_sleep h = refl
    number map_memory h = refl
    number unmap_memory h = refl
    number grant_memory h = refl
    number send h = refl
    number receive h = refl
    number ipc_call h = refl
    number (invalid id) h = absurd (cc)

handler-lem_example : handler from_u8 0x105 ≡ err (unknown_syscall 5)
handler-lem_example = handler-lem from_u8 from_u8-Conversion 0x105

-- User code calls an unknown system call.
abbrev cpu : Cpu
cpu = record { regs = λ r. 0x105; stack = 7 ∷ []; kernel_gs = false; user = false }

syscall_stub-restores_example :
    ((handler from_u8 0x105 ≢ panic)
      × (c' : Cpu) × (run from_u8 (λ r. 0) 0x8000 syscall_stub cpu ≡ some c')
      × ((r : Reg) → c'.regs r ≡ 0x105)
      × (c'.stack ≡ 7 ∷ [])
      × (c'.kernel_gs ≡ false)
      × (c'.user ≡ true))
    ⊎ ((handler from_u8 0x105 ≡ panic) × (run from_u8 (λ r. 0) 0x8000 syscall_stub cpu ≡ none))
syscall_stub-restores_example = syscall_stub-restores from_u8 (λ r. 0) 0x8000 cpu
