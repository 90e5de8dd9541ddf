-- ===== src/Endpoint/Ipc/Handover.antt =====
-- A thread that finds a partner waiting takes the first one from the queue and passes the message.
use chick.Common.{
  ℕ, ◌≡◌, ◌≢◌, refl, sym, ◌∙◌, ap, Bool, true, false, ◌||◌, some, List, [], ◌∷◌, if◌then◌else◌,
  arith, ltb, is_none, Option-cases, inl, inr,
}
use mathlib.Core.Path.{subst}
use chick.Common.Chain.{has}
use chick.Common.Chain
use chick.Common.Store.{update_self}
use chick.Common.Outcome.{Outcome, done, release}
use chick.Thread.{Tcb, Tcbs, inactive, running}
use chick.Thread.Queue.{TcbQueue, dequeue_head}
use chick.Thread.Queue.Laws.{IsQueue, dequeue_head-IsQueue, is_empty-IsQueue}
use chick.Scheduler.{HeapOps, Machine, SchedError, set_state, wake}
use chick.Scheduler.Wake.{wake-invalid_state, inactive-not_blocked}
use chick.Endpoint.{
  EndpointState, recv, EndpointObj, Kernel, with_tcbs, with_endpoint, with_scheduler, put_back,
}
use chick.Endpoint.Served.{IsServed, with_scheduler-none, with_scheduler-some, put_back-same}
use chick.Endpoint.Queue.{
  IsEndpoint, IsEndpoint-ext, AllBlocked, AllBlocked-unlinked, dequeue_head-unlinked, is_idle,
  waiting, unlinked,
}
use chick.Endpoint.Ipc.{
  idle_if_empty, finish_call, do_ipc_transfer, send_to_receiver, send_ipc, send_in,
  setup_caller_cap,
}
use chick.Endpoint.Ipc.Transfer.{do_ipc_transfer-Transferred}

pub idle_if_empty-IsEndpoint :
    (mem : Tcbs) (at : ℕ) (s : EndpointState) (q : TcbQueue) (xs : List ℕ)
    → IsQueue q mem xs
    → is_idle s ≡ false
    → AllBlocked mem at (waiting s) xs
    → IsEndpoint mem at (idle_if_empty s q) xs
unfolding idle_if_empty
idle_if_empty-IsEndpoint mem at s q [] i busy b = record {
  queue = i;
  idle_if_none = rw (is_empty-IsQueue q mem [] i) refl;
  blocked = tt;
}
idle_if_empty-IsEndpoint mem at s q (x ∷ xs) i busy b = record {
  queue = i;
  idle_if_none = rw (is_empty-IsQueue q mem (x ∷ xs) i) busy;
  blocked =
      subst (λ (t : EndpointState). AllBlocked mem at (waiting t) (x ∷ xs))
        (sym (rw (is_empty-IsQueue q mem (x ∷ xs) i) refl)) b;
}

-- The first thread leaves the endpoint.
pub dequeue_head-IsEndpoint :
    (mem : Tcbs) (at : ℕ) (ep : EndpointObj) (x : ℕ) (xs : List ℕ)
    → IsEndpoint mem at ep (x ∷ xs)
    → let (head, q, mem') = dequeue_head ep.queue mem in
      (head ≡ some x)
      × IsEndpoint mem' at (idle_if_empty ep.state q) xs
      × ((a : ℕ) → unlinked (mem' a) ≡ unlinked (mem a))
dequeue_head-IsEndpoint mem at ep x xs i =
    let (p, q, n, r) = dequeue_head-IsQueue ep.queue mem x xs i.queue in
    let mem' = (dequeue_head ep.queue mem).2 in
    let same = dequeue_head-unlinked ep.queue mem in
    (
      p,
      idle_if_empty-IsEndpoint mem' at ep.state (dequeue_head ep.queue mem).1 xs q i.idle_if_none
          (AllBlocked-unlinked mem mem' at (waiting ep.state) xs same i.blocked.2),
      same,
    )

module _ {Q : Type 0} (ops : HeapOps Q) where
  -- `wake` refuses the thread, which has just become inactive: only its state changes.
  wake_inactive :
      (t : ℕ) (k : Kernel Q)
      → IsServed k
      → with_scheduler k (λ m. wake ops t (record m { tcbs = set_state inactive m.tcbs t }))
        ≡ done (with_tcbs k (if is_none k.scheduler then k.tcbs else set_state inactive k.tcbs t))
  wake_inactive t k served =
      let call : Machine Q → Machine Q × Outcome SchedError (Unit {0}) =
        λ m. wake ops t (record m { tcbs = set_state inactive m.tcbs t }) in
      elim (Option-cases k.scheduler) [
        | inl e ↦ with_scheduler-none k call e ∙ rw e refl
        | inr (cores, e) ↦
            let (exec, g) = served cores e in
            let m : Machine Q = record {
              tcbs = set_state inactive k.tcbs t;
              contexts = k.contexts;
              exec = exec;
            } in
            let refused = wake-invalid_state ops t m (inactive-not_blocked ops t k.tcbs) in
            with_scheduler-some k call cores exec e g
            ∙ ap (λ (x : Machine Q × Outcome SchedError (Unit {0})). done (put_back k cores x.0))
                refused
            ∙ ap (λ (x : Kernel Q). done x) (put_back-same k cores m e g)
            ∙ rw e refl
      ]

  -- The threads after a message has been sent to the receiver, from the transfer on.
  abbrev sent : Bool → Bool → ℕ → ℕ → Kernel Q → Tcbs → Tcbs
  sent do_call can_reply sender receiver k mem =
      let mem3 = if do_call then finish_call can_reply sender receiver mem else mem in
      let mem4 = set_state running mem3 receiver in
      if is_none k.scheduler then mem4 else set_state inactive mem4 receiver

  sent_other :
      (do_call can_reply : Bool) (sender receiver : ℕ) (k : Kernel Q) (mem : Tcbs) (a : ℕ)
      → a ≢ sender
      → a ≢ receiver
      → sent do_call can_reply sender receiver k mem a ≡ mem a
  unfolding finish_call setup_caller_cap
  sent_other do_call can_reply sender receiver k mem a ns nr = ground arith

  sent_context :
      (do_call can_reply : Bool) (sender receiver : ℕ) (k : Kernel Q) (mem : Tcbs) (a : ℕ)
      → (sent do_call can_reply sender receiver k mem a).context ≡ (mem a).context
  unfolding finish_call setup_caller_cap
  sent_context do_call can_reply sender receiver k mem a = ground arith

  sent_state :
      (do_call can_reply : Bool) (sender receiver : ℕ) (k : Kernel Q) (mem : Tcbs)
      → (sent do_call can_reply sender receiver k mem receiver).state
        ≡ (if is_none k.scheduler then running else inactive)
  sent_state do_call can_reply sender receiver k mem = ground arith

  -- The receiver has got the sender's first four registers, as they were before.
  abbrev pub Received : Kernel Q → Kernel Q → ℕ → ℕ → Type 0
  Received k k' sender receiver =
      (i : ℕ)
      → (k'.tcbs receiver).context.registers i ≡ (
          if ltb i 4
          then (k.tcbs sender).context.registers i
          else (k.tcbs receiver).context.registers i)

  send_ipc-recv :
      (blocking do_call : Bool) (badge : ℕ) (g r : Bool) (sender at : ℕ) (k : Kernel Q)
      → (k.endpoints at).state ≡ recv
      → send_ipc ops release blocking do_call badge g r sender at k
        ≡ send_to_receiver ops release do_call badge g r sender at k
  unfolding send_ipc send_in
  send_ipc-recv blocking do_call badge g r sender at k st =
      ap (λ (s : EndpointState). send_in ops release s blocking do_call badge g r sender at k) st

  module _ (do_call : Bool) (badge : ℕ) (g r : Bool) (sender at : ℕ) (k : Kernel Q) (receiver : ℕ)
      (mem2 : Tcbs) where
    -- The state after the receiver has left the queue.
    abbrev dequeued : Kernel Q
    dequeued =
        let (head, q, mem1) = dequeue_head (k.endpoints at).queue k.tcbs in
        with_endpoint (with_tcbs k mem1) at (idle_if_empty (k.endpoints at).state q)

    send_to_receiver-sent :
        IsServed k
        → (dequeue_head (k.endpoints at).queue k.tcbs).0 ≡ some receiver
        → do_ipc_transfer release sender receiver badge g
            (dequeue_head (k.endpoints at).queue k.tcbs).2
          ≡ done mem2
        → send_to_receiver ops release do_call badge g r sender at k
          ≡ done (with_tcbs dequeued (sent do_call (g || r) sender receiver k mem2))
    unfolding send_to_receiver
    send_to_receiver-sent served p e =
        rw
          (
            p,
            e,
            wake_inactive receiver
                (with_tcbs dequeued (
                  set_state running
                    (if do_call then finish_call (g || r) sender receiver mem2 else mem2) receiver))
                served,
          )
          refl

  -- A release build, a core that has an executor if the executors are set up, and a sender that
  -- finds receivers waiting: the first one leaves the queue and gets the sender's first four registers, and the other receivers wait on in their order. The
  -- receiver ends up inactive and the scheduler is as before, so the receiver is not ready; before
  -- there is a scheduler it ends up running.
  pub send_ipc-delivers :
      (blocking do_call : Bool) (badge : ℕ) (g r : Bool) (sender at : ℕ) (k : Kernel Q)
      (receiver : ℕ) (rest : List ℕ)
      → IsEndpoint k.tcbs at (k.endpoints at) (receiver ∷ rest)
      → IsServed k
      → (k.endpoints at).state ≡ recv
      → has sender (receiver ∷ rest) ≡ false
      → (k' : Kernel Q) × (send_ipc ops release blocking do_call badge g r sender at k ≡ done k')
        × IsEndpoint k'.tcbs at (k'.endpoints at) rest
        × Received k k' sender receiver
        × ((k'.tcbs receiver).state ≡ (if is_none k.scheduler then running else inactive))
        × (k'.scheduler ≡ k.scheduler)
  send_ipc-delivers blocking do_call badge g r sender at k receiver rest i served st out =
      let (p, w, same) = dequeue_head-IsEndpoint k.tcbs at (k.endpoints at) receiver rest i in
      let mem1 = (dequeue_head (k.endpoints at).queue k.tcbs).2 in
      let ep =
        idle_if_empty (k.endpoints at).state (dequeue_head (k.endpoints at).queue k.tcbs).1 in
      let ne : sender ≢ receiver = ground arith in
      let (mem2, e, t) = do_ipc_transfer-Transferred sender receiver badge g mem1 ne in
      let mem5 = sent do_call (g || r) sender receiver k mem2 in
      let other : (a : ℕ) → has a rest ≡ true → mem5 a ≡ mem1 a = λ a h.
        let ns = Chain.ne_of_has a sender rest h (ground arith) in
        let nr = Chain.ne_of_has a receiver rest h i.queue.distinct.0 in
        sent_other do_call (g || r) sender receiver k mem2 a ns nr ∙ ground (arith, t.kept a) in
      let contexts : (a : ℕ) → (mem1 a).context ≡ (k.tcbs a).context =
        λ a. ap (λ (c : Tcb). c.context) (same a) in
      (
        with_tcbs (dequeued do_call badge g r sender at k receiver mem2) mem5,
        send_ipc-recv blocking do_call badge g r sender at k st
            ∙ send_to_receiver-sent do_call badge g r sender at k receiver mem2 served p e,
        rw (update_self k.endpoints at ep) (IsEndpoint-ext mem1 mem5 at ep rest other w),
        λ i.
            rw
              (
                sent_context do_call (g || r) sender receiver k mem2 receiver,
                t.copied i,
                contexts sender,
                contexts receiver,
              )
              refl,
        sent_state do_call (g || r) sender receiver k mem2,
        refl,
      )
