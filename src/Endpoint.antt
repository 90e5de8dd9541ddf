-- ===== src/Endpoint.antt =====
-- kernel/src/objects/endpoint.rs: endpoints and their capabilities, and the state that synchronous
-- message passing works on. A `NonNull<Tcb>` is an address in the store of threads, an
-- `EndpointCap` the address of its endpoint. `SCHEDULER.get()` gives the executors of all cores, once
-- they are set up, and the operations run on one of the cores.
pub mod Ipc
pub mod Laws
pub mod Cancel
pub mod Queue
pub mod Served
use chick.Common.{ℕ, ◌-◌, ◌^◌, Bool, Option, none, some, bit_and}
use chick.Common.Bits.{shr, mask}
use chick.Common.Store.{update}
use chick.Common.Outcome.{Outcome, done, err, panic}
use chick.Error.{SysError}
use chick.Objects.{CapRaw, ObjType, default_with_type}
use chick.Objects.CapRights
use chick.Objects.CapRights.{includes}
use chick.Thread.{Tcbs, SchedContext}
use chick.Thread.Queue.{TcbQueue, empty}
use chick.Percore
use chick.Percore.{PerCore, Undefined}
use chick.Scheduler.{HeapOps, Executor, Machine, SchedError}

pub data EndpointState : Type 0 where
  idle send recv : EndpointState

pub record EndpointObj : Type 0 where
  pub state : EndpointState
  pub queue : TcbQueue

-- `EndpointObj::new`.
abbrev pub new : EndpointObj
new = record { state = idle; queue = empty }

abbrev badge_offset : ℕ
badge_offset = 0

abbrev badge_width : ℕ
badge_width = 28

unfoldable pub mint : ℕ → ℕ → ℕ → CapRaw
mint paddr badge rights = record (default_with_type ObjType.endpoint) {
  paddr = paddr;
  arg1 = bit_and badge (mask badge_width);
  rights = rights;
}

unfoldable pub badge : CapRaw → ℕ
badge raw = bit_and (shr raw.arg1 badge_offset) (mask badge_width)

unfoldable pub can_send : CapRaw → Bool
can_send raw = includes raw.rights CapRights.send

unfoldable pub can_receive : CapRaw → Bool
can_receive raw = includes raw.rights CapRights.receive

unfoldable pub can_grant : CapRaw → Bool
can_grant raw = includes raw.rights CapRights.grant

-- Why a call fails: an error of the system, or memory that is read before it is initialised.
pub data Fault : Type 0 where
  sys_error : SysError → Fault
  undefined : Undefined → Fault

-- A result of code without undefined behaviour.
abbrev pub lift : {A : Type 0} → Outcome SysError A → Outcome Fault A
lift (done a) = done a
lift (err e) = err (sys_error e)
lift panic = panic

-- What the operations on endpoints read and write. `scheduler` is what `SCHEDULER.get()`
-- gives, and `core` the register by which `cpuid` tells the core.
pub record Kernel (Q : Type 0) : Type 0 where
  pub tcbs : Tcbs
  pub contexts : ℕ → SchedContext
  pub endpoints : ℕ → EndpointObj
  pub scheduler : Option (PerCore (Executor Q))
  pub core : ℕ

module _ {Q : Type 0} where
  abbrev pub with_tcbs : Kernel Q → Tcbs → Kernel Q
  with_tcbs k mem = record k { tcbs = mem }

  abbrev pub with_endpoint : Kernel Q → ℕ → EndpointObj → Kernel Q
  with_endpoint k at ep = record k { endpoints = update k.endpoints at ep }

  -- The state with what the executor of the core has made of it.
  unfoldable pub put_back : Kernel Q → PerCore (Executor Q) → Machine Q → Kernel Q
  unfolding Percore.cpuid
  put_back k cores m = record k {
    tcbs = m.tcbs;
    contexts = m.contexts;
    scheduler =
        some (record cores { cores = update cores.cores (Percore.cpuid k.core) (some m.exec) });
  }

  -- `if let Some(sched) = SCHEDULER.get() { let _ = sched.get_mut()...; }`: a call of the core's
  -- executor, whose result is dropped, if the executors are set up.
  unfoldable pub with_scheduler :
      Kernel Q → (Machine Q → Machine Q × Outcome SchedError (Unit {0})) → Outcome Fault (Kernel Q)
  unfolding Percore.get put_back
  with_scheduler k call = elim k.scheduler [
    | none ↦ done k
    | some cores ↦ elim (Percore.get k.core cores) [
      | done exec ↦
          done (
            put_back k cores
              (call (record { tcbs = k.tcbs; contexts = k.contexts; exec = exec })).0)
      | err u ↦ err (undefined u)
      | panic ↦ panic
    ]
  ]
