-- ===== src/Endpoint/Ipc/Receive.antt =====
-- A receiver that finds senders waiting takes the message of the first one.
use chick.Common.{
  ℕ, ◌≡◌, ◌≢◌, refl, ◌∙◌, ap, Bool, true, false, ◌||◌, ◌&&◌, some, List, ◌∷◌, if◌then◌else◌, arith,
  Option-cases, Bool-cases, inl, inr,
}
use chick.Common.Chain.{has}
use chick.Common.Chain
use chick.Common.Store.{update_self}
use chick.Common.Outcome.{Outcome, done, release}
use chick.Thread.{Tcb, Tcbs, IpcState, ThreadState, inactive, blocked_on_reply}
use chick.Thread.Queue.{dequeue_head}
use chick.Scheduler.{HeapOps, Machine, SchedError, set_state, wake}
use chick.Scheduler.Wake.{wake-invalid_state, inactive-not_blocked}
use chick.Endpoint.{EndpointState, send, Kernel, with_tcbs, with_endpoint, with_scheduler, put_back}
use chick.Endpoint.Served.{IsServed, with_scheduler-none, with_scheduler-some, put_back-same}
use chick.Endpoint.Queue.{IsEndpoint, IsEndpoint-ext}
use chick.Endpoint.Ipc.{
  idle_if_empty, finish_call, do_ipc_transfer, receive_from_sender, receive_in, receive_ipc,
  setup_caller_cap,
}
use chick.Endpoint.Ipc.Transfer.{do_ipc_transfer-Transferred}
use chick.Endpoint.Ipc.Handover.{dequeue_head-IsEndpoint, Received}

module _ {Q : Type 0} (ops : HeapOps Q) where
  -- A `wake` of a thread that is inactive does nothing.
  wake-dropped :
      (t : ℕ) (mem : Tcbs) (k : Kernel Q)
      → IsServed k
      → with_scheduler (with_tcbs k (set_state inactive mem t)) (wake ops t)
        ≡ done (with_tcbs k (set_state inactive mem t))
  wake-dropped t mem k served =
      let k1 = with_tcbs k (set_state inactive mem t) in
      elim (Option-cases k.scheduler) [
        | inl e ↦ with_scheduler-none k1 (wake ops t) e
        | inr (cores, e) ↦
            let (exec, g) = served cores e in
            let m : Machine Q = record {
              tcbs = set_state inactive mem t;
              contexts = k.contexts;
              exec = exec;
            } in
            let refused = wake-invalid_state ops t m (inactive-not_blocked ops t mem) in
            with_scheduler-some k1 (wake ops t) cores exec e g
            ∙ ap (λ (x : Machine Q × Outcome SchedError (Unit {0})). done (put_back k1 cores x.0))
                refused
            ∙ ap (λ (x : Kernel Q). done x) (put_back-same k1 cores m e g)
      ]

  -- The threads after a message has been received, from the transfer on.
  abbrev taken : IpcState → ℕ → ℕ → Tcbs → Tcbs
  taken ipc sender receiver mem =
      if ipc.is_call
      then finish_call (ipc.can_grant || ipc.can_grant_reply) sender receiver mem
      else set_state inactive mem sender

  taken_other :
      (ipc : IpcState) (sender receiver : ℕ) (mem : Tcbs) (a : ℕ)
      → a ≢ sender
      → a ≢ receiver
      → taken ipc sender receiver mem a ≡ mem a
  unfolding finish_call setup_caller_cap
  taken_other ipc sender receiver mem a ns nr = ground arith

  taken_context :
      (ipc : IpcState) (sender receiver : ℕ) (mem : Tcbs) (a : ℕ)
      → (taken ipc sender receiver mem a).context ≡ (mem a).context
  unfolding finish_call setup_caller_cap
  taken_context ipc sender receiver mem a = ground arith

  -- A caller that can be replied to waits for the reply, and another sender is inactive.
  abbrev pub state_after : IpcState → ThreadState
  state_after ipc =
      if ipc.is_call && (ipc.can_grant || ipc.can_grant_reply) then blocked_on_reply else inactive

  taken_state :
      (ipc : IpcState) (sender receiver : ℕ) (mem : Tcbs)
      → (taken ipc sender receiver mem sender).state ≡ state_after ipc
  unfolding finish_call setup_caller_cap
  taken_state ipc sender receiver mem = ground arith

  module _ (receiver at : ℕ) (k : Kernel Q) (sender : ℕ) (mem2 : Tcbs) where
    mem1 : Tcbs
    mem1 = (dequeue_head (k.endpoints at).queue k.tcbs).2

    -- The state after the sender has left the queue.
    abbrev after_dequeue : Kernel Q
    after_dequeue =
        let (head, q, mem) = dequeue_head (k.endpoints at).queue k.tcbs in
        with_endpoint (with_tcbs k mem) at (idle_if_empty (k.endpoints at).state q)

    receive_from_sender-taken :
        IsServed k
        → (dequeue_head (k.endpoints at).queue k.tcbs).0 ≡ some sender
        → do_ipc_transfer release sender receiver
            (mem1 sender).ipc_state.badge
            (mem1 sender).ipc_state.can_grant
            mem1
          ≡ done mem2
        → receive_from_sender ops release receiver at k
          ≡ done (with_tcbs after_dequeue (taken (mem1 sender).ipc_state sender receiver mem2))
    unfolding receive_from_sender mem1
    receive_from_sender-taken served p e = elim (Bool-cases (mem1 sender).ipc_state.is_call) [
      | inl c ↦ rw (p, e, c) refl
      | inr c ↦ rw (p, e, c, wake-dropped sender mem2 after_dequeue served) refl
    ]

  receive_ipc-send :
      (receiver at : ℕ) (is_blocking : Bool) (k : Kernel Q)
      → (k.endpoints at).state ≡ send
      → receive_ipc ops release receiver at is_blocking k
        ≡ receive_from_sender ops release receiver at k
  unfolding receive_ipc receive_in
  receive_ipc-send receiver at is_blocking k st =
      ap (λ (s : EndpointState). receive_in ops release s receiver at is_blocking k) st

  -- A release build, a core that has an executor if the executors are set up, and a receiver that
  -- finds senders waiting: the first one leaves the queue, the receiver gets its first four registers, and the other senders wait on in their order. The
  -- sender of a call that can be replied to then waits for the reply. Any other sender is left
  -- inactive, and in each case the scheduler is as before, so the sender is not ready.
  pub receive_ipc-delivers :
      (is_blocking : Bool) (receiver at : ℕ) (k : Kernel Q) (sender : ℕ) (rest : List ℕ)
      → IsEndpoint k.tcbs at (k.endpoints at) (sender ∷ rest)
      → IsServed k
      → (k.endpoints at).state ≡ send
      → has receiver (sender ∷ rest) ≡ false
      → (k' : Kernel Q) × (receive_ipc ops release receiver at is_blocking k ≡ done k')
        × IsEndpoint k'.tcbs at (k'.endpoints at) rest
        × Received ops k k' sender receiver
        × ((k'.tcbs sender).state ≡ state_after (k.tcbs sender).ipc_state)
        × (k'.scheduler ≡ k.scheduler)
  unfolding mem1
  receive_ipc-delivers is_blocking receiver at k sender rest i served st out =
      let (p, w, same) = dequeue_head-IsEndpoint k.tcbs at (k.endpoints at) sender rest i in
      let mem = (dequeue_head (k.endpoints at).queue k.tcbs).2 in
      let ep =
        idle_if_empty (k.endpoints at).state (dequeue_head (k.endpoints at).queue k.tcbs).1 in
      let ipc = (mem sender).ipc_state in
      let ne : sender ≢ receiver = ground arith in
      let (mem2, e, t) =
        do_ipc_transfer-Transferred sender receiver ipc.badge ipc.can_grant mem ne in
      let mem3 = taken ipc sender receiver mem2 in
      let other : (a : ℕ) → has a rest ≡ true → mem3 a ≡ mem a = λ a h.
        let ns = Chain.ne_of_has a sender rest h i.queue.distinct.0 in
        let nr = Chain.ne_of_has a receiver rest h (ground arith) in
        taken_other ipc sender receiver mem2 a ns nr ∙ ground (arith, t.kept a) in
      let contexts : (a : ℕ) → (mem a).context ≡ (k.tcbs a).context =
        λ a. ap (λ (c : Tcb). c.context) (same a) in
      (
        with_tcbs (after_dequeue receiver at k sender mem2) mem3,
        receive_ipc-send receiver at is_blocking k st
            ∙ receive_from_sender-taken receiver at k sender mem2 served p e,
        rw (update_self k.endpoints at ep) (IsEndpoint-ext mem mem3 at ep rest other w),
        λ i.
            rw
              (
                taken_context ipc sender receiver mem2 receiver,
                t.copied i,
                contexts sender,
                contexts receiver,
              )
              refl,
        taken_state ipc sender receiver mem2
            ∙ ap (λ (c : Tcb). state_after c.ipc_state) (same sender),
        refl,
      )
