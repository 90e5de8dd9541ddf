-- ===== src/Thread.antt =====
-- kernel/src/objects/tcb.rs and kernel/src/arch/x86_64/trapframe.rs: thread control blocks.
-- A `NonNull<Tcb>` is an address in a store of TCBs.
pub mod Queue
use chick.Common.{ℕ, ◌&&◌, Bool, false, Option, none, ltb, if◌then◌else◌}
use chick.Common.Store.{update}
use chick.Common.Outcome.{Outcome, done, panic, Profile, debug_assert, ◌>>=◌, ◌>>◌}
use chick.Error.{SysError}
use chick.Objects.{CapRaw, ObjType, default, default_with_type}

abbrev pub registers_size : ℕ
registers_size = 15

-- The array `registers` is a function of the index; `get_mr` and `set_mr` check the bounds.
pub record TrapFrame : Type 0 where
  pub registers : ℕ → ℕ
  pub error_code : ℕ
  pub rip : ℕ
  pub cs : ℕ
  pub rflags : ℕ
  pub rsp : ℕ
  pub ss : ℕ

-- `TrapFrame::new`: all zero.
abbrev pub empty_frame : TrapFrame
empty_frame = record {
  registers = λ i. 0;
  error_code = 0;
  rip = 0;
  cs = 0;
  rflags = 0;
  rsp = 0;
  ss = 0;
}

-- `TrapFrame::get_mr`.
unfoldable pub get_register : Profile → TrapFrame → ℕ → Outcome SysError ℕ
get_register profile frame idx = do
  debug_assert profile (ltb 0 idx && ltb idx registers_size)
  if ltb idx registers_size then done (frame.registers idx) else panic

-- `TrapFrame::set_mr`.
unfoldable pub set_register : Profile → TrapFrame → ℕ → ℕ → Outcome SysError TrapFrame
set_register profile frame idx mr = do
  debug_assert profile (ltb 0 idx && ltb idx registers_size)
  if ltb idx registers_size
      then done (record frame { registers = update frame.registers idx mr })
      else panic

pub record IpcState : Type 0 where
  pub badge : ℕ
  pub can_grant : Bool
  pub can_grant_reply : Bool
  pub is_call : Bool

pub data ThreadState : Type 0 where
  inactive ready running restart : ThreadState
  blocked_on_receive blocked_on_send blocked_on_reply blocked_on_notification : ThreadState
  running_vm idle : ThreadState

pub data Fault : Type 0 where
  cap : (address : ℕ) (in_receive_phase : Bool) → Fault
  unknown_syscall : (syscall_number : ℕ) → Fault
  user_exception : (number code : ℕ) → Fault
  timeout : (badge : ℕ) → Fault
  debug_exception : (exception_reason breakpoint_address breakpoint_number : ℕ) → Fault
  unknown : (fault_type_raw : ℕ) → Fault

pub record Tcb : Type 0 where
  pub context : TrapFrame
  pub notification : ℕ
  pub fault : Option Fault
  pub fault_ep : CapRaw
  pub sched_context : Option ℕ
  pub ipc_buffer : CapRaw
  pub cspace_root : CapRaw
  pub vspace_root : CapRaw
  pub state : ThreadState
  pub ep_next : Option ℕ
  pub ep_prev : Option ℕ
  pub blocking_object : Option ℕ
  pub ipc_state : IpcState
  pub reply_to : Option ℕ
  pub caller : Option ℕ

pub record SchedContext : Type 0 where
  pub ticks : ℕ
  pub ticks_consumed : ℕ
  pub deadline : ℕ
  pub thread : ℕ

-- `Tcb::new`.
abbrev pub new : Tcb
new = record {
  context = empty_frame;
  notification = 0;
  fault = none;
  fault_ep = default;
  sched_context = none;
  ipc_buffer = default;
  cspace_root = default;
  vspace_root = default;
  state = running;
  ep_next = none;
  ep_prev = none;
  blocking_object = none;
  ipc_state = record { badge = 0; can_grant = false; can_grant_reply = false; is_call = false };
  reply_to = none;
  caller = none;
}

-- The message registers, as indices of `registers`.
abbrev pub mr1 : ℕ
mr1 = 0

abbrev pub mr2 : ℕ
mr2 = 1

abbrev pub mr3 : ℕ
mr3 = 9

abbrev pub mr4 : ℕ
mr4 = 10

abbrev pub mr5 : ℕ
mr5 = 11

abbrev pub mr6 : ℕ
mr6 = 12

unfoldable pub get_mr : Profile → Tcb → ℕ → Outcome SysError ℕ
unfolding get_register
get_mr profile tcb idx = get_register profile tcb.context idx

unfoldable pub set_mr : Profile → Tcb → ℕ → ℕ → Outcome SysError Tcb
unfolding set_register
set_mr profile tcb idx mr = do
  frame ← set_register profile tcb.context idx mr
  done (record tcb { context = frame })

-- `TcbCap::mint`.
unfoldable pub mint : ℕ → CapRaw
mint paddr = record (default_with_type ObjType.tcb) { paddr = paddr }

-- The store of TCBs, and an update of the one at an address.
abbrev pub Tcbs : Type 0
Tcbs = ℕ → Tcb

abbrev pub modify : Tcbs → ℕ → (Tcb → Tcb) → Tcbs
modify mem p f = update mem p (f (mem p))
