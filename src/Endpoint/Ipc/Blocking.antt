-- ===== src/Endpoint/Ipc/Blocking.antt =====
-- A thread that finds no partner is put at the end of the endpoint's queue.
use chick.Common.{
  ℕ, ◌≡◌, ◌≢◌, refl, sym, ◌∙◌, ap, Bool, true, false, some, List, [], ◌∷◌, ◌++◌, arith, inl, inr,
}
use chick.Common.Chain.{has}
use chick.Common.Chain
use chick.Common.Store.{update_self}
use chick.Common.Outcome.{done, Profile}
use chick.Thread.{Tcb, IpcState, modify, blocked_on_send, blocked_on_receive}
use chick.Thread.Queue.{append}
use chick.Thread.Queue.Laws.{IsQueue, append-IsQueue}
use chick.Scheduler.{HeapOps}
use chick.Endpoint.{EndpointState, idle, send, recv, EndpointObj, Kernel, with_tcbs}
use chick.Endpoint.Queue.{
  IsEndpoint, IsQueue-ext, AllBlocked, AllBlocked-ext, AllBlocked-snoc, AllBlocked-unlinked,
  all_waiting, append-unlinked, is_idle, waiting, unlinked, state-cases,
}
use chick.Endpoint.Ipc.{
  enqueue_on, block_sender, block_receiver, send_ipc, receive_ipc, send_in, receive_in,
  send_or_block, receive_or_block,
}

snoc_not_empty : (xs : List ℕ) (t : ℕ) → Chain.is_empty (xs ++ t ∷ []) ≡ false
snoc_not_empty [] t = refl
snoc_not_empty (x ∷ xs) t = refl

not_recv : (s : EndpointState) → s ≢ recv → is_idle s ≡ false → s ≡ send
not_recv idle n e = absurd (ground arith)
not_recv send n e = refl
not_recv recv n e = absurd (n refl)

not_send : (s : EndpointState) → s ≢ send → is_idle s ≡ false → s ≡ recv
not_send idle n e = absurd (ground arith)
not_send send n e = absurd (n refl)
not_send recv n e = refl

module _ {Q : Type 0} where
  -- The thread is blocked already, and the threads in the queue are blocked in the same way.
  enqueue_on-IsEndpoint :
      (s : EndpointState) (thread at : ℕ) (k : Kernel Q) (xs : List ℕ)
      → IsQueue (k.endpoints at).queue k.tcbs xs
      → has thread xs ≡ false
      → is_idle s ≡ false
      → AllBlocked k.tcbs at (waiting s) xs
      → (k.tcbs thread).state ≡ waiting s
      → (k.tcbs thread).blocking_object ≡ some at
      → let k' = enqueue_on s thread at k in
        IsEndpoint k'.tcbs at (k'.endpoints at) (xs ++ thread ∷ [])
        × ((k'.endpoints at).state ≡ s)
        × ((a : ℕ) → unlinked (k'.tcbs a) ≡ unlinked (k.tcbs a))
  unfolding enqueue_on
  enqueue_on-IsEndpoint s thread at k xs q out busy b e o =
      let q' = (append thread (k.endpoints at).queue k.tcbs).0 in
      let mem' = (append thread (k.endpoints at).queue k.tcbs).1 in
      let ep : EndpointObj = record { state = s; queue = q' } in
      let same = append-unlinked thread (k.endpoints at).queue k.tcbs in
      rw (update_self k.endpoints at ep) (
        record {
          queue = append-IsQueue thread (k.endpoints at).queue k.tcbs xs q out;
          idle_if_none = busy ∙ sym (snoc_not_empty xs thread);
          blocked =
              AllBlocked-snoc mem' at (waiting s) xs thread
                (AllBlocked-unlinked k.tcbs mem' at (waiting s) xs same b)
                (ap (λ (c : Tcb). c.state) (same thread) ∙ e)
                (ap (λ (c : Tcb). c.blocking_object) (same thread) ∙ o);
        },
        refl,
        same,
      )

  send_ipc-block_sender :
      (ops : HeapOps Q) (profile : Profile) (do_call : Bool) (badge : ℕ)
      (can_grant can_grant_reply : Bool) (sender at : ℕ) (k : Kernel Q)
      → (k.endpoints at).state ≢ recv
      → send_ipc ops profile true do_call badge can_grant can_grant_reply sender at k
        ≡ done (
            block_sender
              (record {
                badge = badge;
                can_grant = can_grant;
                can_grant_reply = can_grant_reply;
                is_call = do_call;
              })
              sender
              at
              k)
  unfolding send_ipc send_in send_or_block
  send_ipc-block_sender ops profile do_call badge g r sender at k n =
      elim (state-cases (k.endpoints at).state) [
        | inl e ↦
            ap (λ (s : EndpointState). send_in ops profile s true do_call badge g r sender at k) e
        | inr (inl e) ↦
            ap (λ (s : EndpointState). send_in ops profile s true do_call badge g r sender at k) e
        | inr (inr e) ↦ absurd (n e)
      ]

  receive_ipc-block_receiver :
      (ops : HeapOps Q) (profile : Profile) (receiver at : ℕ) (k : Kernel Q)
      → (k.endpoints at).state ≢ send
      → receive_ipc ops profile receiver at true k ≡ done (block_receiver receiver at k)
  unfolding receive_ipc receive_in receive_or_block
  receive_ipc-block_receiver ops profile receiver at k n =
      elim (state-cases (k.endpoints at).state) [
        | inl e ↦ ap (λ (s : EndpointState). receive_in ops profile s receiver at true k) e
        | inr (inl e) ↦ absurd (n e)
        | inr (inr e) ↦ ap (λ (s : EndpointState). receive_in ops profile s receiver at true k) e
      ]

  -- A blocking send to an endpoint at which no receiver waits puts the sender at the end of the
  -- queue: it is blocked on the endpoint and holds what it wants to send.
  pub send_ipc-blocks :
      (ops : HeapOps Q) (profile : Profile) (do_call : Bool) (badge : ℕ)
      (can_grant can_grant_reply : Bool) (sender at : ℕ) (k : Kernel Q) (xs : List ℕ)
      → IsEndpoint k.tcbs at (k.endpoints at) xs
      → (k.endpoints at).state ≢ recv
      → has sender xs ≡ false
      → (k' : Kernel Q) × (send_ipc ops profile true do_call badge can_grant can_grant_reply sender
            at k
          ≡ done k')
        × IsEndpoint k'.tcbs at (k'.endpoints at) (xs ++ sender ∷ [])
        × ((k'.endpoints at).state ≡ send)
        × ((k'.tcbs sender).ipc_state ≡ record {
          badge = badge;
          can_grant = can_grant;
          can_grant_reply = can_grant_reply;
          is_call = do_call;
        })
  unfolding block_sender
  send_ipc-blocks ops profile do_call badge can_grant can_grant_reply sender at k xs i st out =
      let ipc : IpcState = record {
        badge = badge;
        can_grant = can_grant;
        can_grant_reply = can_grant_reply;
        is_call = do_call;
      } in
      let mem0 =
        modify k.tcbs sender
          (λ c. record c { ipc_state = ipc; state = blocked_on_send; blocking_object = some at }) in
      let other : (a : ℕ) → has a xs ≡ true → a ≢ sender =
        λ a h. Chain.ne_of_has a sender xs h out in
      let (w, s, same) =
        enqueue_on-IsEndpoint send sender at (with_tcbs k mem0) xs
          (IsQueue-ext (k.endpoints at).queue k.tcbs mem0 xs (λ a h. ground arith)
            (λ a h. ground arith) i.queue)
          out refl
          (AllBlocked-ext k.tcbs mem0 at blocked_on_send xs (λ a h. ground (arith, other a h))
            (λ a h. ground (arith, other a h))
            (all_waiting k.tcbs at (k.endpoints at).state send xs i.idle_if_none
              (not_recv (k.endpoints at).state st) i.blocked))
          (ground arith) (ground arith) in
      (
        enqueue_on send sender at (with_tcbs k mem0),
        send_ipc-block_sender ops profile do_call badge can_grant can_grant_reply sender at k st,
        w,
        s,
        ap (λ (c : Tcb). c.ipc_state) (same sender) ∙ ground arith,
      )

  -- A blocking receive from an endpoint at which no sender waits puts the receiver at the end of
  -- the queue, blocked on the endpoint.
  pub receive_ipc-blocks :
      (ops : HeapOps Q) (profile : Profile) (receiver at : ℕ) (k : Kernel Q) (xs : List ℕ)
      → IsEndpoint k.tcbs at (k.endpoints at) xs
      → (k.endpoints at).state ≢ send
      → has receiver xs ≡ false
      → (k' : Kernel Q) × (receive_ipc ops profile receiver at true k ≡ done k')
        × IsEndpoint k'.tcbs at (k'.endpoints at) (xs ++ receiver ∷ [])
        × ((k'.endpoints at).state ≡ recv)
  unfolding block_receiver
  receive_ipc-blocks ops profile receiver at k xs i st out =
      let mem0 =
        modify k.tcbs receiver
          (λ c. record c { state = blocked_on_receive; blocking_object = some at }) in
      let other : (a : ℕ) → has a xs ≡ true → a ≢ receiver =
        λ a h. Chain.ne_of_has a receiver xs h out in
      let (w, s, same) =
        enqueue_on-IsEndpoint recv receiver at (with_tcbs k mem0) xs
          (IsQueue-ext (k.endpoints at).queue k.tcbs mem0 xs (λ a h. ground arith)
            (λ a h. ground arith) i.queue)
          out refl
          (AllBlocked-ext k.tcbs mem0 at blocked_on_receive xs (λ a h. ground (arith, other a h))
            (λ a h. ground (arith, other a h))
            (all_waiting k.tcbs at (k.endpoints at).state recv xs i.idle_if_none
              (not_send (k.endpoints at).state st) i.blocked))
          (ground arith) (ground arith) in
      (
        enqueue_on recv receiver at (with_tcbs k mem0),
        receive_ipc-block_receiver ops profile receiver at k st,
        w,
        s,
      )
