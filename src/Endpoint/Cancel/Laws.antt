-- ===== src/Endpoint/Cancel/Laws.antt =====
-- Cancellation takes threads out of the endpoint's queue and makes them inactive.
use chick.Common.{ℕ, ◌≡◌, refl, sym, ◌∙◌, ap, false, some, none, List, [], ◌∷◌, ◌++◌, arith}
use mathlib.Core.Path.{subst}
use chick.Common.Chain.{has}
use chick.Common.Chain
use chick.Common.Store.{update_self}
use chick.Thread.{Tcbs, ThreadState, modify, inactive}
use chick.Thread.Queue.{TcbQueue, remove}
use chick.Thread.Queue.Laws.{remove-IsQueue}
use chick.Endpoint.{EndpointState, idle, send, recv, Kernel, with_tcbs, with_endpoint}
use chick.Endpoint.Queue.{
  IsEndpoint, IsEndpoint-ext, AllBlocked, AllBlocked-unlinked, remove-unlinked, is_idle, waiting,
}
use chick.Endpoint.Ipc.{idle_if_empty}
use chick.Endpoint.Ipc.Handover.{idle_if_empty-IsEndpoint}
use chick.Endpoint.Cancel.{leave_queue, leave_endpoint, cancel_ipc}

AllBlocked-middle :
    (mem : Tcbs) (at : ℕ) (s : ThreadState) (ys : List ℕ) (t : ℕ) (zs : List ℕ)
    → AllBlocked mem at s (ys ++ t ∷ zs)
    → ((mem t).state ≡ s) × ((mem t).blocking_object ≡ some at) × AllBlocked mem at s (ys ++ zs)
AllBlocked-middle mem at s [] t zs b = b
AllBlocked-middle mem at s (y ∷ ys) t zs (p, q, b) =
    let (u, v, w) = AllBlocked-middle mem at s ys t zs b in (u, v, (p, q, w))

middle_not_empty : (ys : List ℕ) (t : ℕ) (zs : List ℕ) → Chain.is_empty (ys ++ t ∷ zs) ≡ false
middle_not_empty [] t zs = refl
middle_not_empty (y ∷ ys) t zs = refl

module _ {Q : Type 0} (t at : ℕ) (k : Kernel Q) where
  left : TcbQueue × Tcbs
  left = remove t (k.endpoints at).queue k.tcbs

  leave_queue-lem :
      (k.tcbs t).blocking_object ≡ some at
      → leave_queue t k
        ≡ with_endpoint (with_tcbs k left.1) at (idle_if_empty (k.endpoints at).state left.0)
  unfolding leave_queue left
  leave_queue-lem o = rw (o, leave_queue) refl

  cancel_ipc-leave :
      (s : EndpointState)
      → is_idle s ≡ false
      → (k.tcbs t).state ≡ waiting s
      → cancel_ipc t k ≡ leave_endpoint t k
  unfolding cancel_ipc
  cancel_ipc-leave idle h e = absurd (ground arith)
  cancel_ipc-leave send h e = rw (e, cancel_ipc, leave_endpoint) refl
  cancel_ipc-leave recv h e = rw (e, cancel_ipc, leave_endpoint) refl

  -- Cancelling a thread that waits on an endpoint takes it out of the queue, wherever it stands,
  -- makes it inactive and clears its blocking object and links; the others wait on in their order.
  pub cancel_ipc-IsEndpoint :
      (ys zs : List ℕ)
      → IsEndpoint k.tcbs at (k.endpoints at) (ys ++ t ∷ zs)
      → let k' = cancel_ipc t k in
        IsEndpoint k'.tcbs at (k'.endpoints at) (ys ++ zs)
        × ((k'.tcbs t).state ≡ inactive)
        × ((k'.tcbs t).blocking_object ≡ none)
        × ((k'.tcbs t).ep_next ≡ none)
        × ((k'.tcbs t).ep_prev ≡ none)
  unfolding left leave_endpoint
  cancel_ipc-IsEndpoint ys zs i =
      let (q, n, p) = remove-IsQueue t (k.endpoints at).queue k.tcbs ys zs i.queue in
      let s = (k.endpoints at).state in
      let busy : is_idle s ≡ false = i.idle_if_none ∙ middle_not_empty ys t zs in
      let (e, o, b) = AllBlocked-middle k.tcbs at (waiting s) ys t zs i.blocked in
      let same = remove-unlinked t (k.endpoints at).queue k.tcbs in
      let ep = idle_if_empty s left.0 in
      let w =
        idle_if_empty-IsEndpoint left.1 at s left.0 (ys ++ zs) q busy
          (AllBlocked-unlinked k.tcbs left.1 at (waiting s) (ys ++ zs) same b) in
      let (out, d) = Chain.IsDistinct-middle ys t zs i.queue.distinct in
      let mem' : Tcbs =
        modify left.1 t (λ c. record c { state = inactive; blocking_object = none }) in
      let k1 : Kernel Q = with_endpoint (with_tcbs k left.1) at ep in
      let result : cancel_ipc t k ≡ with_tcbs k1 mem' =
        cancel_ipc-leave s busy e
        ∙ ap
            (λ (j : Kernel Q).
              with_tcbs j
                (modify j.tcbs t (λ c. record c { state = inactive; blocking_object = none })))
            (leave_queue-lem o) in
      subst
        (λ (k' : Kernel Q).
          IsEndpoint k'.tcbs at (k'.endpoints at) (ys ++ zs)
          × ((k'.tcbs t).state ≡ inactive)
          × ((k'.tcbs t).blocking_object ≡ none)
          × ((k'.tcbs t).ep_next ≡ none)
          × ((k'.tcbs t).ep_prev ≡ none))
        (sym result)
        (
          rw (update_self k.endpoints at ep) (
              IsEndpoint-ext left.1 mem' at ep (ys ++ zs)
                (λ a h. ground (arith, Chain.ne_of_has a t (ys ++ zs) h out)) w),
          ground arith,
          ground arith,
          ground (arith, n),
          ground (arith, p),
        )
