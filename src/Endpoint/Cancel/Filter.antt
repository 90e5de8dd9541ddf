-- ===== src/Endpoint/Cancel/Filter.antt =====
-- The loop of `cancel_badged_sends`.
use chick.Common.{
  ℕ, zero, suc, ◌≡◌, ◌≢◌, ◌≤◌, refl, sym, ◌∙◌, ap, Bool, true, false, not, Option, some, none, List,
  [], ◌∷◌, ◌++◌, ◌==◌, arith, Bool-cases, inl, inr, length,
}
use mathlib.Core.Path.{subst}
use mathlib.Core.List.{append_assoc, append-nil}
use chick.Common.Chain.{has, IsDistinct, Seg}
use chick.Common.Chain
use chick.Thread.{Tcb, ThreadState, modify}
use chick.Thread.Queue.{TcbQueue, append}
use chick.Thread.Queue.Laws.{IsQueue, append-IsQueue}
use chick.Scheduler.{HeapOps}
use chick.Endpoint.{Kernel, with_tcbs}
use chick.Endpoint.Queue.{IsQueue-ext, append-unlinked}
use chick.Endpoint.Cancel.{restart_thread, restart_badged}
use chick.Endpoint.Cancel.Round.{state_restarted, Restarted, restart_thread-Restarted}
use chick.Endpoint.Served.{IsServed}
use chick.Common.Outcome.{done}
use chick.Endpoint.Cancel.All.{AllRestarted}
use chick.Endpoint.Cancel.Select.{select, has_badge, Ahead, Ahead-ext, append-outside, select-has}

module _ {Q : Type 0} (ops : HeapOps Q) (badge : ℕ) (f : ℕ → Bool) where
  -- The loop is at a point where the threads `ys` are kept and the threads `xs` are left.
  pub record Loop (q : TcbQueue) (p : Option ℕ) (k : Kernel Q) (ys xs : List ℕ) : Type 0 where
    pub served : IsServed k
    pub queue : IsQueue q k.tcbs ys
    pub ahead : Ahead k.tcbs p xs
    pub distinct : IsDistinct xs
    pub apart : (a : ℕ) → has a xs ≡ true → has a ys ≡ false
    pub badges : (a : ℕ) → has a xs ≡ true → has_badge badge k.tcbs a ≡ f a

  -- What the loop does from there.
  pub record Filtered (k : Kernel Q) (q' : TcbQueue) (k' : Kernel Q) (ys xs : List ℕ) : Type 0 where
    pub queue : IsQueue q' k'.tcbs (ys ++ select (λ a. not (f a)) xs)
    pub restarted : AllRestarted k'.tcbs (state_restarted k.scheduler) (select f xs)
    pub others :
        (a : ℕ)
        → has a (select f xs) ≡ false
        → ((k'.tcbs a).state ≡ (k.tcbs a).state)
          × ((k'.tcbs a).blocking_object ≡ (k.tcbs a).blocking_object)
    pub endpoints : k'.endpoints ≡ k.endpoints

  -- The thread has no links, just before it is restarted.
  abbrev unlinked_one : ℕ → Kernel Q → Kernel Q
  unlinked_one x k =
      with_tcbs k (modify k.tcbs x (λ c. record c { ep_next = none; ep_prev = none }))

  -- The thread is restarted without its links.
  One : ℕ → Kernel Q → Kernel Q → Type 0
  One x k k1 = Restarted ops x (unlinked_one x k) k1

  One-other : (x : ℕ) (k k1 : Kernel Q) (a : ℕ) → One x k k1 → x ≢ a → k1.tcbs a ≡ k.tcbs a
  unfolding One
  One-other x k k1 a r ne = ground (arith, r.tcbs a)

  One-Loop :
      (q : TcbQueue) (p : Option ℕ) (k k1 : Kernel Q) (ys : List ℕ) (x : ℕ) (xs : List ℕ)
      → One x k k1
      → Loop q p k ys (x ∷ xs)
      → Loop q (k.tcbs x).ep_next k1 ys xs
  unfolding One
  One-Loop q p k k1 ys x xs r l =
      let rest : (a : ℕ) → has a xs ≡ true → k1.tcbs a ≡ k.tcbs a =
        λ a i. One-other x k k1 a r (ground (arith, l.distinct)) in
      let kept : (a : ℕ) → has a ys ≡ true → k1.tcbs a ≡ k.tcbs a =
        λ a i. One-other x k k1 a r (ground (arith, l.apart x)) in
      record {
        served = r.served;
        queue =
            IsQueue-ext q k.tcbs k1.tcbs ys (λ a i. ap (λ (c : Tcb). c.ep_next) (kept a i))
              (λ a i. ap (λ (c : Tcb). c.ep_prev) (kept a i)) l.queue;
        ahead =
            Ahead-ext k.tcbs k1.tcbs (k.tcbs x).ep_next xs
              (λ a i. ap (λ (c : Tcb). c.ep_next) (rest a i)) l.ahead.1;
        distinct = l.distinct.1;
        apart = λ a i. l.apart a (ground arith);
        badges = λ a i.
            ap (λ (c : Tcb). c.ipc_state.badge == badge) (rest a i) ∙ l.badges a (ground arith);
      }

  append-Loop :
      (q : TcbQueue) (p : Option ℕ) (k : Kernel Q) (ys : List ℕ) (x : ℕ) (xs : List ℕ)
      → Loop q p k ys (x ∷ xs)
      → Loop
          (append x q k.tcbs).0
          (k.tcbs x).ep_next
          (with_tcbs k (append x q k.tcbs).1)
          (ys ++ x ∷ [])
          xs
  append-Loop q p k ys x xs l =
      let mem = (append x q k.tcbs).1 in
      let rest : (a : ℕ) → has a xs ≡ true → mem a ≡ k.tcbs a = λ a i.
        append-outside x q k.tcbs ys a l.queue (l.apart a (ground arith))
          (ground (arith, l.distinct)) in
      record {
        served = l.served;
        queue = append-IsQueue x q k.tcbs ys l.queue (l.apart x (ground arith));
        ahead =
            Ahead-ext k.tcbs mem (k.tcbs x).ep_next xs
              (λ a i. ap (λ (c : Tcb). c.ep_next) (rest a i)) l.ahead.1;
        distinct = l.distinct.1;
        apart = λ a i. ground (arith, Chain.has-append a ys (x ∷ []), l.apart a, l.distinct);
        badges = λ a i.
            ap (λ (c : Tcb). c.ipc_state.badge == badge) (rest a i) ∙ l.badges a (ground arith);
      }

  restart_badged-hit :
      (n x : ℕ) (q : TcbQueue) (k k1 : Kernel Q)
      → has_badge badge k.tcbs x ≡ true
      → restart_thread ops x (unlinked_one x k) ≡ done k1
      → restart_badged ops (suc n) badge (some x) q k
        ≡ restart_badged ops n badge (k.tcbs x).ep_next q k1
  unfolding restart_badged
  restart_badged-hit n x q k k1 e r = rw (e, r, restart_badged) refl

  restart_badged-miss :
      (n x : ℕ) (q : TcbQueue) (k : Kernel Q)
      → has_badge badge k.tcbs x ≡ false
      → restart_badged ops (suc n) badge (some x) q k
        ≡ restart_badged ops n badge
            (k.tcbs x).ep_next
            (append x q k.tcbs).0
            (with_tcbs k (append x q k.tcbs).1)
  unfolding restart_badged
  restart_badged-miss n x q k e = rw (e, restart_badged) refl

  hit-Filtered :
      (k k1 k' : Kernel Q) (q' : TcbQueue) (ys : List ℕ) (x : ℕ) (xs : List ℕ)
      → f x ≡ true
      → has x xs ≡ false
      → One x k k1
      → Filtered k1 q' k' ys xs
      → Filtered k q' k' ys (x ∷ xs)
  unfolding One
  hit-Filtered k k1 k' q' ys x xs e out r w =
      let (s, b) = w.others x (select-has f xs x out) in
      let state : (k1.tcbs x).state ≡ state_restarted k.scheduler = ground (arith, r.tcbs x) in
      let blocking : (k1.tcbs x).blocking_object ≡ none = ground (arith, r.tcbs x) in
      record {
        queue = rw e w.queue;
        restarted = rw e (
          s ∙ state,
          b ∙ blocking,
          subst (λ (t : ThreadState). AllRestarted k'.tcbs t (select f xs)) r.scheduler w.restarted,
        );
        others = λ a h.
            let h1 : has a (x ∷ select f xs) ≡ false = rw e at h in
            let (s1, b1) = w.others a (ground arith) in
            let same = One-other x k k1 a r (ground arith) in
            (s1 ∙ ap (λ (c : Tcb). c.state) same, b1 ∙ ap (λ (c : Tcb). c.blocking_object) same);
        endpoints = w.endpoints ∙ r.endpoints;
      }

  miss-Filtered :
      (q : TcbQueue) (k k' : Kernel Q) (q' : TcbQueue) (ys : List ℕ) (x : ℕ) (xs : List ℕ)
      → f x ≡ false
      → Filtered (with_tcbs k (append x q k.tcbs).1) q' k' (ys ++ x ∷ []) xs
      → Filtered k q' k' ys (x ∷ xs)
  miss-Filtered q k k' q' ys x xs e w = record {
    queue = rw e (
        subst (λ (zs : List ℕ). IsQueue q' k'.tcbs zs)
          (append_assoc ys (x ∷ []) (select (λ a. not (f a)) xs)) w.queue);
    restarted = rw e w.restarted;
    others = λ a h.
        let h1 : has a (select f xs) ≡ false = rw e at h in
        let (s1, b1) = w.others a h1 in
        let same = append-unlinked x q k.tcbs a in
        (s1 ∙ ap (λ (c : Tcb). c.state) same, b1 ∙ ap (λ (c : Tcb). c.blocking_object) same);
    endpoints = w.endpoints;
  }

  pub restart_badged-Filtered :
      (rounds : ℕ) (q : TcbQueue) (p : Option ℕ) (k : Kernel Q) (ys xs : List ℕ)
      → Loop q p k ys xs
      → length xs ≤ rounds
      → (q' : TcbQueue) × (k' : Kernel Q) × (restart_badged ops rounds badge p q k
          ≡ done (some (q', k')))
        × Filtered k q' k' ys xs
  unfolding restart_badged One
  restart_badged-Filtered rounds q p k ys [] l fuel = (
    q,
    k,
    rw (l.ahead, restart_badged) refl,
    record {
      queue = subst (λ (zs : List ℕ). IsQueue q k.tcbs zs) (sym (append-nil ys)) l.queue;
      restarted = tt;
      others = λ a h. (refl, refl);
      endpoints = refl;
    },
  )
  restart_badged-Filtered zero q p k ys (x ∷ xs) l fuel = absurd (omega arith)
  restart_badged-Filtered (suc n) q p k ys (x ∷ xs) l fuel =
      let b = l.badges x (ground arith) in
      let start = ap (λ (o : Option ℕ). restart_badged ops (suc n) badge o q k) l.ahead.0 in
      elim (Bool-cases (f x)) [
        | inl e ↦
            let (k1, o, one) = restart_thread-Restarted ops x (unlinked_one x k) l.served in
            let (q', k', r, w) =
              restart_badged-Filtered n q (k.tcbs x).ep_next k1 ys xs
                (One-Loop q p k k1 ys x xs one l) (omega arith) in
            (
              q',
              k',
              start ∙ restart_badged-hit n x q k k1 (b ∙ e) o ∙ r,
              hit-Filtered k k1 k' q' ys x xs e l.distinct.0 one w,
            )
        | inr e ↦
            let (q', k', r, w) =
              restart_badged-Filtered n (append x q k.tcbs).0 (k.tcbs x).ep_next
                (with_tcbs k (append x q k.tcbs).1) (ys ++ x ∷ []) xs (append-Loop q p k ys x xs l)
                (omega arith) in
            (
              q',
              k',
              start ∙ restart_badged-miss n x q k (b ∙ e) ∙ r,
              miss-Filtered q k k' q' ys x xs e w,
            )
      ]
