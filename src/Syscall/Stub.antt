-- ===== src/Syscall/Stub.antt =====
-- kernel/src/arch/x86_64/syscall.rs: `syscall_stub`, instruction by instruction.
-- The stack is a list of words, the last one pushed first, and lies below the address `base`. The
-- callee may change every register that the calling convention does not preserve: what it leaves in
-- them is an argument. `sysretq` goes to user code at the address in `rcx`.
pub mod Laws
use chick.Common.{
  ℕ, ◌*◌, ◌-◌, Bool, true, false, not, Option, none, some, List, [], ◌∷◌, ◌==◌, length,
  if◌then◌else◌,
}
use chick.Common.Store.{update}
use chick.Common.Outcome.{Outcome, done, err, panic}
use chick.Syscall.{Syscall, Regs, syscall_entry}

pub data Reg : Type 0 where
  rax rdi rsi rdx r8 r9 r10 r11 rcx : Reg

abbrev pub reg_number : Reg → ℕ
reg_number rax = 0
reg_number rdi = 1
reg_number rsi = 2
reg_number rdx = 3
reg_number r8 = 4
reg_number r9 = 5
reg_number r10 = 6
reg_number r11 = 7
reg_number rcx = 8

pub data Instruction : Type 0 where
  swapgs mov_rdi_rsp call_entry sysretq : Instruction
  push pop : Reg → Instruction

-- `kernel_gs` says whose GS base is in place, and `user` whether user code runs.
pub record Cpu : Type 0 where
  pub regs : Reg → ℕ
  pub stack : List ℕ
  pub kernel_gs : Bool
  pub user : Bool

abbrev pub set_reg : Reg → ℕ → (Reg → ℕ) → Reg → ℕ
set_reg r v regs r' = if reg_number r == reg_number r' then v else regs r'

-- The structure at the top of the stack.
abbrev pub regs_at : List ℕ → Option Regs
regs_at (a ∷ (b ∷ (c ∷ (d ∷ (e ∷ (f ∷ (g ∷ (h ∷ (i ∷ rest))))))))) =
    some (record { rax = a; rdi = b; rsi = c; rdx = d; r8 = e; r9 = f; r10 = g; r11 = h; rcx = i })
regs_at _ = none

abbrev pub syscall_stub : List Instruction
syscall_stub =
    swapgs
    ∷ push rcx
    ∷ push r11
    ∷ push r10
    ∷ push r9
    ∷ push r8
    ∷ push rdx
    ∷ push rsi
    ∷ push rdi
    ∷ push rax
    ∷ mov_rdi_rsp
    ∷ call_entry
    ∷ pop rax
    ∷ pop rdi
    ∷ pop rsi
    ∷ pop rdx
    ∷ pop r8
    ∷ pop r9
    ∷ pop r10
    ∷ pop r11
    ∷ pop rcx
    ∷ swapgs
    ∷ sysretq
    ∷ []

module _ (from_u8 : ℕ → Syscall) (clobbered : Reg → ℕ) (base : ℕ) where
  -- `none`: a fault, or the handler panicked.
  unfoldable pub step : Instruction → Cpu → Option Cpu
  unfolding syscall_entry
  step swapgs c = some (record c { kernel_gs = not c.kernel_gs })
  step (push r) c = some (record c { stack = c.regs r ∷ c.stack })
  step (pop r) c = elim c.stack [
    | [] ↦ none
    | v ∷ rest ↦ some (record c { regs = set_reg r v c.regs; stack = rest })
  ]
  step mov_rdi_rsp c = some (record c { regs = set_reg rdi (base - 8 * length c.stack) c.regs })
  step call_entry c = elim (regs_at c.stack) [
    | none ↦ none
    | some registers ↦ elim (syscall_entry from_u8 registers) [
      | done v ↦ some (record c { regs = set_reg rax v clobbered })
      | err e ↦ none
      | panic ↦ none
    ]
  ]
  step sysretq c = some (record c { user = true })

  unfoldable pub run : List Instruction → Cpu → Option Cpu
  unfolding step
  run [] c = some c
  run (i ∷ is) c = elim (step i c) [ none ↦ none | some c' ↦ run is c' ]
