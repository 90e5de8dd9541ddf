-- ===== src/Syscall.antt =====
-- kernel/src/syscall.rs and kernel/src/arch/x86_64/syscall.rs: the numbers of system calls, their
-- handler, and the way into it and back.
-- The conversion from a number is derived by the crate num_enum: it is a parameter, and
-- `Conversion` states what the crate documents. The entry is assembly: its instructions are a list,
-- run on the registers and the stack.
pub mod Laws
pub mod Stub
use chick.Common.{ℕ, ◌%◌, ◌^◌, ◌≡◌, ◌<◌, Bool, true, false, ◌||◌, ◌==◌}
use chick.Common.Outcome.{Outcome, done, err, panic}

pub data Syscall : Type 0 where
  attach_irq create_task remove_task task_sleep : Syscall
  map_memory unmap_memory grant_memory : Syscall
  send receive ipc_call : Syscall
  invalid : ℕ → Syscall

-- The discriminants of the enum; that of a call of another number is the number.
abbrev pub discriminant : Syscall → ℕ
discriminant attach_irq = 0
discriminant create_task = 1
discriminant remove_task = 2
discriminant task_sleep = 3
discriminant map_memory = 10
discriminant unmap_memory = 11
discriminant grant_memory = 12
discriminant send = 20
discriminant receive = 21
discriminant ipc_call = 22
discriminant (invalid id) = id

abbrev pub is_named : Syscall → Bool
is_named (invalid id) = false
is_named _ = true

-- Whether a byte is the number of a named call.
abbrev pub is_number : ℕ → Bool
is_number b =
    b == 0
    || (b == 1
        || (b == 2
            || (b == 3
                || (b == 10 || (b == 11 || (b == 12 || (b == 20 || (b == 21 || b == 22))))))))

-- What num_enum documents: a number of a variant gives the variant, and any other byte the
-- `catch_all` variant with that byte.
pub record Conversion (from_u8 : ℕ → Syscall) : Type 0 where
  pub number : (s : Syscall) → is_named s ≡ true → from_u8 (discriminant s) ≡ s
  pub catch_all : (b : ℕ) → b < 256 → is_number b ≡ false → from_u8 b ≡ invalid b

-- `syscall::SysError`.
pub data SysError : Type 0 where
  invalid_value : SysError
  unknown_syscall : ℕ → SysError

-- `From<u64> for Syscall`: `value as u8`, then the derived conversion.
unfoldable pub from_u64 : (ℕ → Syscall) → ℕ → Syscall
from_u64 from_u8 value = from_u8 (value % 2 ^ 8)

-- The match in `handler`; `unimplemented!` panics.
unfoldable pub dispatch : Syscall → Outcome SysError (Unit {0})
dispatch attach_irq = panic
dispatch create_task = done tt
dispatch (invalid id) = err (unknown_syscall id)
dispatch _ = panic

-- The handler does not read the arguments.
unfoldable pub handler : (ℕ → Syscall) → ℕ → Outcome SysError (Unit {0})
unfolding from_u64 dispatch
handler from_u8 id = dispatch (from_u64 from_u8 id)

-- The registers as the entry leaves them on the stack, from the lowest address.
pub record Regs : Type 0 where
  pub rax : ℕ
  pub rdi : ℕ
  pub rsi : ℕ
  pub rdx : ℕ
  pub r8 : ℕ
  pub r9 : ℕ
  pub r10 : ℕ
  pub r11 : ℕ
  pub rcx : ℕ

-- `syscall_entry`: the result of the handler is dropped.
unfoldable pub syscall_entry : (ℕ → Syscall) → Regs → Outcome SysError ℕ
unfolding handler
syscall_entry from_u8 registers = elim (handler from_u8 registers.rax) [
  | done _ ↦ done 1
  | err _ ↦ done 1
  | panic ↦ panic
]
