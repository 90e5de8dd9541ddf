-- ===== src/Endpoint/Cancel/Round.antt =====
-- One round of the loop that cancels the waits on an endpoint.
use chick.Common.{
  ℕ, zero, suc, ◌≡◌, refl, Option, some, none, List, [], ◌∷◌, ◌==◌, if◌then◌else◌, arith,
  Option-cases, inl, inr,
}
use chick.Common.Store.{update_self}
use chick.Thread.{ThreadState, inactive, restart, modify}
use chick.Thread.Queue.{dequeue_head}
use chick.Thread.Queue.Laws.{IsQueue, dequeue_head-IsQueue, dequeue_head-empty}
use chick.Scheduler.{HeapOps, Machine, Executor, SchedError, enqueue, set_state}
use chick.Percore.{PerCore}
use chick.Common.Outcome.{Outcome, done, ◌>>=◌}
use chick.Endpoint.Served.{IsServed, with_scheduler-none, with_scheduler-some, put_back-IsServed}
use chick.Endpoint.{EndpointObj, Kernel, with_tcbs, put_back}
use chick.Endpoint.Queue.{unlinked, dequeue_head-unlinked}
use chick.Endpoint.Cancel.{restart_thread, dequeue_from, restart_all}

-- The state of a thread whose wait was cancelled.
abbrev pub state_restarted : {Q : Type 0} → Option (PerCore (Executor Q)) → ThreadState
state_restarted none = restart
state_restarted (some cores) = inactive

module _ {Q : Type 0} (ops : HeapOps Q) where
  enqueue-tcbs : (t : ℕ) (m : Machine Q) → (enqueue ops t m).0.tcbs ≡ m.tcbs
  unfolding enqueue
  enqueue-tcbs t m = ground arith

  -- What `restart_thread` does.
  pub record Restarted (t : ℕ) (k k' : Kernel Q) : Type 0 where
    pub endpoints : k'.endpoints ≡ k.endpoints
    pub served : IsServed k'
    pub scheduler : state_restarted k'.scheduler ≡ state_restarted k.scheduler
    pub tcbs :
        (a : ℕ)
        → k'.tcbs a ≡ (
            if t == a
            then record (k.tcbs a) { state = state_restarted k.scheduler; blocking_object = none }
            else k.tcbs a)

  pub restart_thread-Restarted :
      (t : ℕ) (k : Kernel Q)
      → IsServed k
      → (k' : Kernel Q) × (restart_thread ops t k ≡ done k') × Restarted t k k'
  unfolding restart_thread put_back
  restart_thread-Restarted t k served =
      let k1 : Kernel Q =
        with_tcbs k (modify k.tcbs t (λ c. record c { state = restart; blocking_object = none })) in
      let call : Machine Q → Machine Q × Outcome SchedError (Unit {0}) =
        λ m. enqueue ops t (record m { tcbs = set_state inactive m.tcbs t }) in
      elim (Option-cases k.scheduler) [
        | inl e ↦ (
          k1,
          with_scheduler-none k1 call e,
          record {
            endpoints = refl;
            served = served;
            scheduler = refl;
            tcbs = λ a. rw e (ground arith);
          },
        )
        | inr (cores, e) ↦
            let (exec, g) = served cores e in
            let m = (call (record { tcbs = k1.tcbs; contexts = k.contexts; exec = exec })).0 in
            (
              put_back k1 cores m,
              with_scheduler-some k1 call cores exec e g,
              record {
                endpoints = refl;
                served = put_back-IsServed k1 cores m exec g;
                scheduler = rw e refl;
                tcbs = λ a. rw (e, enqueue-tcbs t) (ground arith);
              },
            )
      ]

  module _ (at : ℕ) where
    pub restart_all-none :
        (rounds : ℕ) (k : Kernel Q)
        → (dequeue_from ops at k).0 ≡ none
        → restart_all ops rounds at k ≡ done (some (dequeue_from ops at k).1)
    unfolding restart_all
    restart_all-none zero k e = rw (e, restart_all) refl
    restart_all-none (suc n) k e = rw (e, restart_all) refl

    pub restart_all-some :
        (n t : ℕ) (k : Kernel Q)
        → (dequeue_from ops at k).0 ≡ some t
        → restart_all ops (suc n) at k
          ≡ (restart_thread ops t (dequeue_from ops at k).1 >>= restart_all ops n at)
    unfolding restart_all
    restart_all-some n t k e = rw (e, restart_all) refl

    -- The queue after a dequeue, in the new state.
    pub dequeue_from-cons :
        (k : Kernel Q) (x : ℕ) (xs : List ℕ)
        → IsQueue (k.endpoints at).queue k.tcbs (x ∷ xs)
        → let (head, k1) = dequeue_from ops at k in
          (head ≡ some x)
          × IsQueue (k1.endpoints at).queue k1.tcbs xs
          × ((a : ℕ) → unlinked (k1.tcbs a) ≡ unlinked (k.tcbs a))
          × (k1.scheduler ≡ k.scheduler)
          × (IsServed k → IsServed k1)
    unfolding dequeue_from
    dequeue_from-cons k x xs i =
        let (p, q, n, r) = dequeue_head-IsQueue (k.endpoints at).queue k.tcbs x xs i in
        let ep : EndpointObj = record (k.endpoints at) {
          queue = (dequeue_head (k.endpoints at).queue k.tcbs).1;
        } in
        (
          p,
          rw (update_self k.endpoints at ep) q,
          dequeue_head-unlinked (k.endpoints at).queue k.tcbs,
          refl,
          λ s. s,
        )

    pub dequeue_from-nil :
        (k : Kernel Q)
        → IsQueue (k.endpoints at).queue k.tcbs []
        → let (head, k1) = dequeue_from ops at k in
          (head ≡ none) × IsQueue (k1.endpoints at).queue k1.tcbs [] × (k1.tcbs ≡ k.tcbs)
    unfolding dequeue_from
    dequeue_from-nil k i =
        let e = dequeue_head-empty (k.endpoints at).queue k.tcbs i in
        let ep : EndpointObj = record (k.endpoints at) { queue = (k.endpoints at).queue } in
        rw (e, update_self k.endpoints at ep) (refl, i, refl)
