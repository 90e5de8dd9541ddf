-- ===== src/Endpoint/Cancel/Badged.antt =====
-- `cancel_badged_sends` takes out of the queue the senders with a badge, and only these.
use chick.Common.{ℕ, ◌≡◌, ◌≤◌, refl, sym, ◌∙◌, ap, Bool, not, some, none, List, [], arith, length}
use mathlib.Core.Path.{subst}
use chick.Common.Store.{update_self}
use chick.Thread.Queue.{TcbQueue, empty}
use chick.Thread.Queue.Laws.{empty-IsQueue}
use chick.Common.Outcome.{done}
use chick.Scheduler.{HeapOps}
use chick.Endpoint.Served.{IsServed}
use chick.Endpoint.{EndpointState, send, EndpointObj, Kernel, with_endpoint}
use chick.Endpoint.Queue.{IsEndpoint, AllBlocked, waiting, is_idle}
use chick.Endpoint.Ipc.{idle_if_empty}
use chick.Endpoint.Ipc.Handover.{idle_if_empty-IsEndpoint}
use chick.Endpoint.Cancel.{restart_badged, cancel_badged_sends}
use chick.Endpoint.Cancel.Round.{state_restarted}
use chick.Endpoint.Cancel.All.{AllRestarted}
use chick.Endpoint.Cancel.Select.{select, has_badge, Seg-Ahead, select-refused, AllBlocked-select}
use chick.Endpoint.Cancel.Filter.{restart_badged-Filtered}

module _ {Q : Type 0} (ops : HeapOps Q) (rounds at badge : ℕ) (k : Kernel Q) where
  cancel_badged_sends-lem :
      (q' : TcbQueue) (k' : Kernel Q)
      → (k.endpoints at).state ≡ send
      → restart_badged ops rounds badge (k.endpoints at).queue.head empty k ≡ done (some (q', k'))
      → cancel_badged_sends ops rounds at badge k
        ≡ done (some (with_endpoint k' at (idle_if_empty (k'.endpoints at).state q')))
  unfolding cancel_badged_sends
  cancel_badged_sends-lem q' k' s e = rw (s, e, cancel_badged_sends) refl

  -- With as many rounds as there are waiting threads, and on a core that has an executor if the
  -- executors are set up, `cancel_badged_sends` returns on an endpoint with senders. The queue then holds the senders without the badge, in the old order, and the
  -- endpoint is idle if there are none. Every sender with the badge is inactive, or in the restart
  -- state where there is no scheduler, and waits on no object.
  pub cancel_badged_sends-IsEndpoint :
      (xs : List ℕ)
      → IsEndpoint k.tcbs at (k.endpoints at) xs
      → IsServed k
      → (k.endpoints at).state ≡ send
      → length xs ≤ rounds
      → (k' : Kernel Q) × (cancel_badged_sends ops rounds at badge k ≡ done (some k'))
        × IsEndpoint k'.tcbs at (k'.endpoints at) (select (λ a. not (has_badge badge k.tcbs a)) xs)
        × AllRestarted k'.tcbs (state_restarted k.scheduler) (select (has_badge badge k.tcbs) xs)
  cancel_badged_sends-IsEndpoint xs i served s fuel =
      let f = has_badge badge k.tcbs in
      let keep : ℕ → Bool = λ a. not (f a) in
      let ep = k.endpoints at in
      let (q', k', r, w) =
        restart_badged-Filtered ops badge f rounds empty ep.queue.head k [] xs
          (record {
            served = served;
            queue = empty-IsQueue k.tcbs;
            ahead = Seg-Ahead k.tcbs none ep.queue.head ep.queue.tail xs i.queue.linked;
            distinct = i.queue.distinct;
            apart = λ a h. refl;
            badges = λ a h. refl;
          })
          fuel in
      let state : (k'.endpoints at).state ≡ send =
        ap (λ (e : ℕ → EndpointObj). (e at).state) w.endpoints ∙ s in
      let ep' = idle_if_empty (k'.endpoints at).state q' in
      let waits : AllBlocked k.tcbs at (waiting (k'.endpoints at).state) xs =
        subst (λ (t : EndpointState). AllBlocked k.tcbs at (waiting t) xs) (s ∙ sym state)
          i.blocked in
      (
        with_endpoint k' at ep',
        cancel_badged_sends-lem q' k' s r,
        rw (update_self k'.endpoints at ep') (
            idle_if_empty-IsEndpoint k'.tcbs at (k'.endpoints at).state q' (select keep xs) w.queue
              (ap is_idle state)
              (AllBlocked-select k.tcbs k'.tcbs at (waiting (k'.endpoints at).state) keep xs
                (λ a e. w.others a (select-refused f xs a (ground (arith, e)))) waits)),
        w.restarted,
      )
