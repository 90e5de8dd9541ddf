-- ===== src/Endpoint/Served.antt =====
-- A core that the set-up of the executors covers: a call of its executor does not fail.
use chick.Common.{ℕ, ◌≡◌, refl, none, some, arith}
use chick.Common.Outcome.{Outcome, done}
use chick.Common.Store.{update}
use chick.Percore
use chick.Percore.{PerCore, Undefined, cpuid, get_unsafe}
use chick.Scheduler.{Executor, Machine, SchedError}
use chick.Endpoint.{Kernel, with_scheduler, put_back}

module _ {Q : Type 0} where
  -- The core has an executor, if the executors are set up.
  abbrev pub IsServed : Kernel Q → Type 0
  IsServed k =
      (cores : PerCore (Executor Q))
      → k.scheduler ≡ some cores
      → (exec : Executor Q) × (Percore.get k.core cores ≡ done exec)

  -- Writing the executor of the core back as it was changes nothing.
  same_cores :
      (ebx : ℕ) (cores : PerCore (Executor Q)) (exec : Executor Q)
      → Percore.get ebx cores ≡ done exec
      → record cores { cores = update cores.cores (cpuid ebx) (some exec) } ≡ cores
  unfolding Percore.get get_unsafe
  same_cores ebx cores exec e =
      let at : (i : ℕ) → update cores.cores (cpuid ebx) (some exec) i ≡ cores.cores i =
        λ i. ground arith in
      λ j. record cores { cores = λ i. at i j }

  -- A call that gives the executor back as it was changes the threads and the contexts alone.
  pub put_back-same :
      (k : Kernel Q) (cores : PerCore (Executor Q)) (m : Machine Q)
      → k.scheduler ≡ some cores
      → Percore.get k.core cores ≡ done m.exec
      → put_back k cores m ≡ record k { tcbs = m.tcbs; contexts = m.contexts }
  unfolding put_back
  put_back-same k cores m e g = rw (same_cores k.core cores m.exec g, e) refl

  pub put_back-IsServed :
      (k : Kernel Q) (cores : PerCore (Executor Q)) (m : Machine Q) (exec : Executor Q)
      → Percore.get k.core cores ≡ done exec
      → IsServed (put_back k cores m)
  unfolding put_back Percore.get get_unsafe
  put_back-IsServed k cores m exec g cores' e = (m.exec, ground (arith))

  -- What a call of the executor comes to.
  pub with_scheduler-none :
      (k : Kernel Q) (call : Machine Q → Machine Q × Outcome SchedError (Unit {0}))
      → k.scheduler ≡ none
      → with_scheduler k call ≡ done k
  unfolding with_scheduler
  with_scheduler-none k call e = rw e refl

  pub with_scheduler-some :
      (k : Kernel Q) (call : Machine Q → Machine Q × Outcome SchedError (Unit {0}))
      (cores : PerCore (Executor Q)) (exec : Executor Q)
      → k.scheduler ≡ some cores
      → Percore.get k.core cores ≡ done exec
      → with_scheduler k call
        ≡ done (
            put_back k cores
              (call (record { tcbs = k.tcbs; contexts = k.contexts; exec = exec })).0)
  unfolding with_scheduler
  with_scheduler-some k call cores exec e g = rw (e, g, with_scheduler) refl
