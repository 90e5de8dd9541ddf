-- ===== src/Endpoint/Ipc.antt =====
-- kernel/src/objects/endpoint.rs: sending and receiving.
pub mod Blocking
pub mod Handover
pub mod Receive
pub mod Transfer
use chick.Common.{ℕ, zero, suc, ◌+◌, ◌||◌, Bool, Option, none, some, if◌then◌else◌}
use chick.Common.Store.{update}
use chick.Common.Outcome.{Outcome, done, err, panic, expect, Profile, ◌>>=◌, ◌>>◌}
use chick.Error.{SysError}
use chick.Thread.{
  Tcb, Tcbs, IpcState, inactive, running, blocked_on_send, blocked_on_receive, blocked_on_reply,
  modify, get_mr, set_mr, mr1, mr2,
}
use chick.Thread.Queue.{TcbQueue, append, dequeue_head, is_empty}
use chick.Scheduler.{HeapOps, Machine, set_state, wake}
use chick.Endpoint.{
  EndpointState, idle, send, recv, EndpointObj, Kernel, with_tcbs, with_endpoint, with_scheduler,
  Fault, lift,
}

-- The loop that copies the registers from `MR1 + i` on, `count` of them.
unfoldable pub transfer_registers : Profile → ℕ → ℕ → ℕ → ℕ → Tcbs → Outcome SysError Tcbs
transfer_registers profile sender receiver zero i mem = done mem
transfer_registers profile sender receiver (suc count) i mem = do
  val ← get_mr profile (mem sender) (mr1 + i)
  tcb ← set_mr profile (mem receiver) (mr1 + i) val
  transfer_registers profile sender receiver count (i + 1) (update mem receiver tcb)

unfoldable pub do_ipc_transfer : Profile → ℕ → ℕ → ℕ → Bool → Tcbs → Outcome SysError Tcbs
unfolding transfer_registers
do_ipc_transfer profile sender receiver badge can_grant mem = do
  tcb ← set_mr profile (mem receiver) mr1 badge
  transfer_registers profile sender receiver 4 0 (update mem receiver tcb)

unfoldable pub do_nb_recv_failed_transfer : Profile → ℕ → Tcbs → Outcome SysError Tcbs
do_nb_recv_failed_transfer profile thread mem = do
  tcb ← set_mr profile (mem thread) mr1 0
  done (update mem thread tcb)

unfoldable pub setup_caller_cap : ℕ → ℕ → Tcbs → Tcbs
setup_caller_cap caller callee mem =
    let mem1 =
      modify mem caller (λ c. record c { state = blocked_on_reply; reply_to = some callee }) in
    modify mem1 callee (λ c. record c { caller = some caller })

-- The states of a call: a caller that can be replied to waits for the reply, another is inactive.
unfoldable pub finish_call : Bool → ℕ → ℕ → Tcbs → Tcbs
unfolding setup_caller_cap
finish_call can_reply caller callee mem =
    if can_reply then setup_caller_cap caller callee mem else set_state inactive mem caller

-- `if ep.queue.is_empty() { ep.state = Idle; }`.
unfoldable pub idle_if_empty : EndpointState → TcbQueue → EndpointObj
idle_if_empty state queue = record { state = if is_empty queue then idle else state; queue = queue }

-- The thread waits on the endpoint at the address: it is put into the queue.
unfoldable pub enqueue_on : {Q : Type 0} → EndpointState → ℕ → ℕ → Kernel Q → Kernel Q
enqueue_on state thread at k =
    let (queue, mem) = append thread (k.endpoints at).queue k.tcbs in
    with_endpoint (with_tcbs k mem) at (record { state = state; queue = queue })

unfoldable pub block_sender : {Q : Type 0} → IpcState → ℕ → ℕ → Kernel Q → Kernel Q
unfolding enqueue_on
block_sender ipc sender at k = enqueue_on send sender at (
    with_tcbs k (
      modify k.tcbs sender
        (λ c. record c { ipc_state = ipc; state = blocked_on_send; blocking_object = some at })))

unfoldable pub block_receiver : {Q : Type 0} → ℕ → ℕ → Kernel Q → Kernel Q
unfolding enqueue_on
block_receiver receiver at k = enqueue_on recv receiver at (
    with_tcbs k (
      modify k.tcbs receiver
        (λ c. record c { state = blocked_on_receive; blocking_object = some at })))

module _ {Q : Type 0} (ops : HeapOps Q) (profile : Profile) where
  -- The branch of `send_ipc` in which a receiver waits.
  unfoldable pub send_to_receiver :
      Bool → ℕ → Bool → Bool → ℕ → ℕ → Kernel Q → Outcome Fault (Kernel Q)
  unfolding do_ipc_transfer finish_call idle_if_empty
  send_to_receiver do_call badge can_grant can_grant_reply sender at k = do
    let (head, queue, mem) = dequeue_head (k.endpoints at).queue k.tcbs
    receiver ← expect head
    let k1 = with_endpoint (with_tcbs k mem) at (idle_if_empty (k.endpoints at).state queue)
    mem1 ← lift (do_ipc_transfer profile sender receiver badge can_grant k1.tcbs)
    let mem2 =
        if do_call then finish_call (can_grant || can_grant_reply) sender receiver mem1 else mem1
    let k2 = with_tcbs k1 (set_state running mem2 receiver)
    with_scheduler k2
        (λ m. wake ops receiver (record m { tcbs = set_state inactive m.tcbs receiver }))

  -- The branch in which no receiver waits.
  unfoldable pub send_or_block : Bool → IpcState → ℕ → ℕ → Kernel Q → Outcome Fault (Kernel Q)
  unfolding block_sender
  send_or_block blocking ipc sender at k =
      if blocking then done (block_sender ipc sender at k) else done k

  -- The match of `send_ipc` on the state of the endpoint.
  unfoldable pub send_in :
      EndpointState → Bool → Bool → ℕ → Bool → Bool → ℕ → ℕ → Kernel Q → Outcome Fault (Kernel Q)
  unfolding send_to_receiver send_or_block
  send_in recv blocking do_call badge can_grant can_grant_reply sender at k =
      send_to_receiver do_call badge can_grant can_grant_reply sender at k
  send_in _ blocking do_call badge can_grant can_grant_reply sender at k =
      send_or_block blocking
        (record {
          badge = badge;
          can_grant = can_grant;
          can_grant_reply = can_grant_reply;
          is_call = do_call;
        })
        sender at k

  -- `send_ipc`, on the endpoint at `at`.
  unfoldable pub send_ipc :
      Bool → Bool → ℕ → Bool → Bool → ℕ → ℕ → Kernel Q → Outcome Fault (Kernel Q)
  unfolding send_in
  send_ipc blocking do_call badge can_grant can_grant_reply sender at k =
      send_in (k.endpoints at).state blocking do_call badge can_grant can_grant_reply sender at k

  -- The branch of `receive_ipc` in which a sender waits.
  unfoldable pub receive_from_sender : ℕ → ℕ → Kernel Q → Outcome Fault (Kernel Q)
  unfolding do_ipc_transfer finish_call idle_if_empty
  receive_from_sender receiver at k = do
    let (head, queue, mem) = dequeue_head (k.endpoints at).queue k.tcbs
    sender ← expect head
    let k1 = with_endpoint (with_tcbs k mem) at (idle_if_empty (k.endpoints at).state queue)
    let ipc = (k1.tcbs sender).ipc_state
    mem1 ← lift (do_ipc_transfer profile sender receiver ipc.badge ipc.can_grant k1.tcbs)
    let k2 = with_tcbs k1 mem1
    if ipc.is_call
        then done
            (with_tcbs k2 (finish_call (ipc.can_grant || ipc.can_grant_reply) sender receiver mem1))
        else with_scheduler (with_tcbs k2 (set_state inactive mem1 sender)) (wake ops sender)

  -- The branch in which no sender waits.
  unfoldable pub receive_or_block : ℕ → ℕ → Bool → Kernel Q → Outcome Fault (Kernel Q)
  unfolding block_receiver do_nb_recv_failed_transfer
  receive_or_block receiver at is_blocking k =
      if is_blocking
      then done (block_receiver receiver at k)
      else (lift (do_nb_recv_failed_transfer profile receiver k.tcbs) >>= λ mem.
          done (with_tcbs k mem))

  -- The match of `receive_ipc` on the state of the endpoint.
  unfoldable pub receive_in : EndpointState → ℕ → ℕ → Bool → Kernel Q → Outcome Fault (Kernel Q)
  unfolding receive_from_sender receive_or_block
  receive_in send receiver at is_blocking k = receive_from_sender receiver at k
  receive_in _ receiver at is_blocking k = receive_or_block receiver at is_blocking k

  -- `receive_ipc`, on the endpoint at `at`.
  unfoldable pub receive_ipc : ℕ → ℕ → Bool → Kernel Q → Outcome Fault (Kernel Q)
  unfolding receive_in
  receive_ipc receiver at is_blocking k =
      receive_in (k.endpoints at).state receiver at is_blocking k

-- `reply_from_kernel_error` and `reply_from_kernel_success_empty`.
unfoldable pub reply_from_kernel_error : Profile → ℕ → Tcb → Outcome SysError Tcb
reply_from_kernel_error profile error_type thread = do
  tcb ← set_mr profile thread mr1 0
  set_mr profile tcb mr2 error_type

unfoldable pub reply_from_kernel_success_empty : Profile → Tcb → Outcome SysError Tcb
reply_from_kernel_success_empty profile thread = set_mr profile thread mr1 0
