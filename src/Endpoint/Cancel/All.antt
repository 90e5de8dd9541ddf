-- ===== src/Endpoint/Cancel/All.antt =====
-- `cancel_all_ipc` empties an endpoint.
use chick.Common.{
  ℕ, zero, suc, ◌≡◌, ◌≢◌, ◌≤◌, refl, ◌∙◌, ap, true, false, Option, some, none, List, [], ◌∷◌, arith,
  inl, inr, length,
}
use mathlib.Core.Path.{subst}
use chick.Common.Chain.{has}
use chick.Common.Store.{update_self}
use chick.Thread.{Tcb, Tcbs, ThreadState}
use chick.Thread.Queue.Laws.{IsQueue}
use chick.Common.Outcome.{Outcome, done, ◌>>=◌}
use chick.Percore.{PerCore}
use chick.Scheduler.{HeapOps, Executor}
use chick.Endpoint.Served.{IsServed}
use chick.Endpoint.{Fault, idle, EndpointObj, Kernel, with_endpoint}
use chick.Endpoint.Queue.{IsEndpoint, IsQueue-ext, is_idle, state-cases}
use chick.Endpoint.Cancel.{restart_thread, dequeue_from, restart_all, cancel_all_ipc}
use chick.Endpoint.Cancel.Round.{
  state_restarted, restart_thread-Restarted, restart_all-none, restart_all-some, dequeue_from-cons,
  dequeue_from-nil,
}

-- The threads of the list have stopped waiting.
abbrev pub AllRestarted : Tcbs → ThreadState → List ℕ → Type 0
AllRestarted mem s [] = Unit {0}
AllRestarted mem s (x ∷ xs) =
    ((mem x).state ≡ s) × ((mem x).blocking_object ≡ none) × AllRestarted mem s xs

module _ {Q : Type 0} (ops : HeapOps Q) where
  module _ (at : ℕ) where
    record Emptied (k k' : Kernel Q) (xs : List ℕ) : Type 0 where
      queue : IsQueue (k'.endpoints at).queue k'.tcbs []
      restarted : AllRestarted k'.tcbs (state_restarted k.scheduler) xs
      others :
          (a : ℕ)
          → has a xs ≡ false
          → ((k'.tcbs a).state ≡ (k.tcbs a).state)
            × ((k'.tcbs a).blocking_object ≡ (k.tcbs a).blocking_object)

    -- One round of the loop.
    record Round (k : Kernel Q) (x : ℕ) (xs : List ℕ) (k2 : Kernel Q) : Type 0 where
      queue : IsQueue (k2.endpoints at).queue k2.tcbs xs
      served : IsServed k2
      scheduler : state_restarted k2.scheduler ≡ state_restarted k.scheduler
      state : (k2.tcbs x).state ≡ state_restarted k.scheduler
      blocking : (k2.tcbs x).blocking_object ≡ none
      others :
          (a : ℕ)
          → x ≢ a
          → ((k2.tcbs a).state ≡ (k.tcbs a).state)
            × ((k2.tcbs a).blocking_object ≡ (k.tcbs a).blocking_object)

    round :
        (k : Kernel Q) (x : ℕ) (xs : List ℕ)
        → IsQueue (k.endpoints at).queue k.tcbs (x ∷ xs)
        → IsServed k
        → (k2 : Kernel Q) × (restart_thread ops x (dequeue_from ops at k).1 ≡ done k2)
          × Round k x xs k2
    round k x xs i served =
        let (e, q, same, sch, keeps) = dequeue_from-cons ops at k x xs i in
        let k1 = (dequeue_from ops at k).1 in
        let (k2, p, r) = restart_thread-Restarted ops x k1 (keeps served) in
        let s1 : state_restarted k1.scheduler ≡ state_restarted k.scheduler =
          ap (λ (o : Option (PerCore (Executor Q))). state_restarted o) sch in
        (
          k2,
          p,
          record {
            served = r.served;
            queue = rw (r.endpoints) (
                IsQueue-ext (k1.endpoints at).queue k1.tcbs k2.tcbs xs
                  (λ a h. ground (arith, r.tcbs a)) (λ a h. ground (arith, r.tcbs a)) q);
            scheduler = r.scheduler ∙ s1;
            state = ground (arith, r.tcbs x, s1);
            blocking = ground (arith, r.tcbs x);
            others = λ a ne.
                let state : (k2.tcbs a).state ≡ (k1.tcbs a).state = ground (arith, r.tcbs a) in
                let blocking : (k2.tcbs a).blocking_object ≡ (k1.tcbs a).blocking_object =
                  ground (arith, r.tcbs a) in
                (
                  state ∙ ap (λ (c : Tcb). c.state) (same a),
                  blocking ∙ ap (λ (c : Tcb). c.blocking_object) (same a),
                );
          },
        )

    Round-Emptied :
        (k k2 k' : Kernel Q) (x : ℕ) (xs : List ℕ)
        → has x xs ≡ false
        → Round k x xs k2
        → Emptied k2 k' xs
        → Emptied k k' (x ∷ xs)
    Round-Emptied k k2 k' x xs out r w =
        let (s, b) = w.others x out in
        record {
          queue = w.queue;
          restarted = (
            s ∙ r.state,
            b ∙ r.blocking,
            subst (λ (t : ThreadState). AllRestarted k'.tcbs t xs) r.scheduler w.restarted,
          );
          others = λ a h.
              let (s1, b1) = w.others a (ground arith) in
              let (s2, b2) = r.others a (ground arith) in (s1 ∙ s2, b1 ∙ b2);
        }

    restart_all-Emptied :
        (rounds : ℕ) (k : Kernel Q) (xs : List ℕ)
        → IsQueue (k.endpoints at).queue k.tcbs xs
        → IsServed k
        → length xs ≤ rounds
        → (k' : Kernel Q) × (restart_all ops rounds at k ≡ done (some k')) × Emptied k k' xs
    restart_all-Emptied rounds k [] i served fuel =
        let (e, q, m) = dequeue_from-nil ops at k i in
        (
          (dequeue_from ops at k).1,
          restart_all-none ops at rounds k e,
          record { queue = q; restarted = tt; others = λ a h. rw m (refl, refl) },
        )
    restart_all-Emptied zero k (x ∷ xs) i served fuel = absurd (omega arith)
    restart_all-Emptied (suc n) k (x ∷ xs) i served fuel =
        let (k2, e, r) = round k x xs i served in
        let (k', p, w) = restart_all-Emptied n k2 xs r.queue r.served (omega arith) in
        (
          k',
          restart_all-some ops at n x k (dequeue_from-cons ops at k x xs i).0
              ∙ ap (λ (o : Outcome Fault (Kernel Q)). o >>= restart_all ops n at) e
              ∙ p,
          Round-Emptied k k2 k' x xs i.distinct.0 r w,
        )

    cancel_all_ipc-idle :
        (rounds : ℕ) (k : Kernel Q)
        → is_idle (k.endpoints at).state ≡ true
        → cancel_all_ipc ops rounds at k ≡ done (some k)
    unfolding cancel_all_ipc
    cancel_all_ipc-idle rounds k h = elim (state-cases (k.endpoints at).state) [
      | inl e ↦ rw (e, cancel_all_ipc) refl
      | inr (inl e) ↦ absurd (ground (arith, e))
      | inr (inr e) ↦ absurd (ground (arith, e))
    ]

    cancel_all_ipc-busy :
        (rounds : ℕ) (k k1 : Kernel Q)
        → is_idle (k.endpoints at).state ≡ false
        → restart_all ops rounds at k ≡ done (some k1)
        → cancel_all_ipc ops rounds at k
          ≡ done (some (with_endpoint k1 at (record (k1.endpoints at) { state = idle })))
    unfolding cancel_all_ipc
    cancel_all_ipc-busy rounds k k1 h e1 = elim (state-cases (k.endpoints at).state) [
      | inl e ↦ absurd (ground (arith, e))
      | inr (inl e) ↦ rw (e, e1, cancel_all_ipc) refl
      | inr (inr e) ↦ rw (e, e1, cancel_all_ipc) refl
    ]

    -- With as many rounds as there are waiting threads, and on a core that has an executor if the
    -- executors are set up, `cancel_all_ipc` returns. The endpoint is then idle and its queue empty. Every thread that waited is inactive, or in the restart state
    -- where there is no scheduler, and waits on no object.
    pub cancel_all_ipc-IsEndpoint :
        (rounds : ℕ) (k : Kernel Q) (xs : List ℕ)
        → IsEndpoint k.tcbs at (k.endpoints at) xs
        → IsServed k
        → length xs ≤ rounds
        → (k' : Kernel Q) × (cancel_all_ipc ops rounds at k ≡ done (some k'))
          × IsEndpoint k'.tcbs at (k'.endpoints at) []
          × AllRestarted k'.tcbs (state_restarted k.scheduler) xs
    unfolding cancel_all_ipc
    cancel_all_ipc-IsEndpoint rounds k [] i served fuel =
        (k, cancel_all_ipc-idle rounds k i.idle_if_none, i, tt)
    cancel_all_ipc-IsEndpoint rounds k (x ∷ xs) i served fuel =
        let (k1, e, w) = restart_all-Emptied rounds k (x ∷ xs) i.queue served fuel in
        let ep : EndpointObj = record (k1.endpoints at) { state = idle } in
        (
          with_endpoint k1 at ep,
          cancel_all_ipc-busy rounds k k1 i.idle_if_none e,
          rw (update_self k1.endpoints at ep)
              (record { queue = w.queue; idle_if_none = refl; blocked = tt }),
          w.restarted,
        )
