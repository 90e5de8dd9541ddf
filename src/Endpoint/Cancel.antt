-- ===== src/Endpoint/Cancel.antt =====
-- kernel/src/objects/endpoint.rs: cancellation. The loops take at most so many rounds; `none`
-- says that they were not enough.
pub mod All
pub mod Badged
pub mod Filter
pub mod Laws
pub mod Round
pub mod Select
use chick.Common.{ℕ, zero, suc, ◌==◌, not, Bool, true, false, Option, none, some, if◌then◌else◌}
use chick.Thread.{
  Tcb, Tcbs, ThreadState, inactive, restart, blocked_on_send, blocked_on_receive, blocked_on_reply,
  blocked_on_notification, modify,
}
use chick.Thread.Queue.{TcbQueue, empty, append, dequeue_head, remove}
use chick.Scheduler.{HeapOps, Machine, set_state, enqueue}
use chick.Common.Outcome.{Outcome, done, ◌>>=◌}
use chick.Common.Store.{modify_some}
use chick.Endpoint.{
  EndpointState, idle, send, recv, EndpointObj, Kernel, with_tcbs, with_endpoint, with_scheduler,
  Fault,
}
use chick.Endpoint.Ipc.{idle_if_empty}

module _ {Q : Type 0} where
  -- The thread leaves the queue of the endpoint that it waits on.
  unfoldable pub leave_queue : ℕ → Kernel Q → Kernel Q
  unfolding idle_if_empty
  leave_queue tcb k = elim (k.tcbs tcb).blocking_object [
    | none ↦ k
    | some at ↦
        let (queue, mem) = remove tcb (k.endpoints at).queue k.tcbs in
        with_endpoint (with_tcbs k mem) at (idle_if_empty (k.endpoints at).state queue)
  ]

  unfoldable pub leave_endpoint : ℕ → Kernel Q → Kernel Q
  unfolding leave_queue
  leave_endpoint tcb k =
      let k1 = leave_queue tcb k in
      with_tcbs k1 (modify k1.tcbs tcb (λ c. record c { state = inactive; blocking_object = none }))

  unfoldable pub leave_reply : ℕ → Kernel Q → Kernel Q
  leave_reply tcb k =
      let mem1 = modify_some (k.tcbs tcb).reply_to (λ c. record c { caller = none }) k.tcbs in
      with_tcbs k (modify mem1 tcb (λ c. record c { reply_to = none; state = inactive }))

  unfoldable pub cancel_ipc : ℕ → Kernel Q → Kernel Q
  unfolding leave_endpoint leave_reply
  cancel_ipc tcb k = elim (k.tcbs tcb).state [
    | blocked_on_send ↦ leave_endpoint tcb k
    | blocked_on_receive ↦ leave_endpoint tcb k
    | blocked_on_notification ↦ with_tcbs k (set_state inactive k.tcbs tcb)
    | blocked_on_reply ↦ leave_reply tcb k
    | _ ↦ k
  ]

module _ {Q : Type 0} (ops : HeapOps Q) where
  -- The thread is restarted, and is enqueued if there is a scheduler.
  unfoldable pub restart_thread : ℕ → Kernel Q → Outcome Fault (Kernel Q)
  unfolding with_scheduler
  restart_thread tcb k =
      let k1 =
        with_tcbs k
          (modify k.tcbs tcb (λ c. record c { state = restart; blocking_object = none })) in
      with_scheduler k1 (λ m. enqueue ops tcb (record m { tcbs = set_state inactive m.tcbs tcb }))

  -- `ep.queue.dequeue_head()`.
  unfoldable pub dequeue_from : ℕ → Kernel Q → Option ℕ × Kernel Q
  dequeue_from at k =
      let (head, queue, mem) = dequeue_head (k.endpoints at).queue k.tcbs in
      (head, with_endpoint (with_tcbs k mem) at (record (k.endpoints at) { queue = queue }))

  -- The loop of `cancel_all_ipc`.
  unfoldable pub restart_all : ℕ → ℕ → Kernel Q → Outcome Fault (Option (Kernel Q))
  unfolding dequeue_from restart_thread
  restart_all zero at k =
      let (head, k1) = dequeue_from at k in
      elim head [ none ↦ done (some k1) | some tcb ↦ done none ]
  restart_all (suc n) at k =
      let (head, k1) = dequeue_from at k in
      elim head [ none ↦ done (some k1) | some tcb ↦ restart_thread tcb k1 >>= restart_all n at ]

  -- `ep.state = Idle`, once the loop has ended.
  abbrev pub set_idle : ℕ → Option (Kernel Q) → Option (Kernel Q)
  set_idle at none = none
  set_idle at (some k) = some (with_endpoint k at (record (k.endpoints at) { state = idle }))

  unfoldable pub cancel_all_ipc : ℕ → ℕ → Kernel Q → Outcome Fault (Option (Kernel Q))
  unfolding restart_all
  cancel_all_ipc rounds at k = elim (k.endpoints at).state [
    | idle ↦ done (some k)
    | _ ↦ (restart_all rounds at k >>= λ end. done (set_idle at end))
  ]

  -- The loop of `cancel_badged_sends`, from `current` on, with the new queue so far.
  unfoldable pub restart_badged :
      ℕ → ℕ → Option ℕ → TcbQueue → Kernel Q → Outcome Fault (Option (TcbQueue × Kernel Q))
  unfolding restart_thread
  restart_badged rounds badge none new_queue k = done (some (new_queue, k))
  restart_badged zero badge (some tcb) new_queue k = done none
  restart_badged (suc n) badge (some tcb) new_queue k =
      let next = (k.tcbs tcb).ep_next in
      elim ((k.tcbs tcb).ipc_state.badge == badge) [
        | true ↦
            let mem = modify k.tcbs tcb (λ c. record c { ep_next = none; ep_prev = none }) in
            restart_thread tcb (with_tcbs k mem) >>= restart_badged n badge next new_queue
        | false ↦
            let (queue, mem) = append tcb new_queue k.tcbs in
            restart_badged n badge next queue (with_tcbs k mem)
      ]

  -- The new queue, once the loop has ended.
  abbrev pub set_queue : ℕ → Option (TcbQueue × Kernel Q) → Option (Kernel Q)
  unfolding idle_if_empty
  set_queue at none = none
  set_queue at (some (queue, k)) =
      some (with_endpoint k at (idle_if_empty (k.endpoints at).state queue))

  unfoldable pub cancel_badged_sends : ℕ → ℕ → ℕ → Kernel Q → Outcome Fault (Option (Kernel Q))
  unfolding restart_badged idle_if_empty
  cancel_badged_sends rounds at badge k = elim (k.endpoints at).state [
    | send ↦
        (restart_badged rounds badge (k.endpoints at).queue.head empty k >>= λ end.
        done (set_queue at end))
    | _ ↦ done (some k)
  ]
