-- ===== src/Percore/Laws.antt =====
-- Which cores have a value, and which have an executor after the set-up.
use chick.Common.{
  ℕ, zero, suc, ◌+◌, ◌-◌, ◌≤◌, ◌<◌, ◌≡◌, ◌≢◌, refl, ◌⊎◌, ◌&&◌, none, some, ltb, leb, if◌then◌else◌,
  arith, Bool-cases, Option-cases, inl, inr,
}
use chick.Common.Bits.{shr, and-mask}
use chick.Common.Store.{update}
use chick.Common.Outcome.{done, err, panic}
use chick.Scheduler
use chick.Scheduler.{HeapOps, Executor}
use chick.Sync
use chick.Sync.{OnceLock, initialized}
use chick.Percore.{
  PerCore, uninitialized_memory, max_cpus, init_core, init_cores, new, cpuid, sysinfo, get, get_mut,
  init_scheduler,
}

module _ {A : Type 0} where
  init_cores-cores :
      (n i : ℕ) (d : A) (p : PerCore A) (j : ℕ)
      → (init_cores n i d p).cores j
        ≡ (if leb i j && (ltb j (i + n) && ltb j max_cpus) then some d else p.cores j)
  unfolding init_cores
  init_cores-cores zero i d p j = ground arith
  init_cores-cores (suc n) i d p j =
      ground (arith, init_cores-cores n (i + 1) d (init_core i d p) j)

  init_cores-count :
      (n i : ℕ) (d : A) (p : PerCore A)
      → i ≤ max_cpus
      → (init_cores n i d p).initialized_count
        ≡ p.initialized_count + (if leb (i + n) max_cpus then n else max_cpus - i)
  unfolding init_cores
  init_cores-count zero i d p low = ground arith
  init_cores-count (suc n) i d p low = elim (Bool-cases (ltb i max_cpus)) [
    | inl h ↦ ground (arith, init_cores-count n (i + 1) d (init_core i d p))
    | inr h ↦ ground (arith, init_cores-full n (i + 1) d (init_core i d p) (ground arith))
  ]
    where
      init_cores-full :
          (n i : ℕ) (d : A) (p : PerCore A)
          → max_cpus < i
          → (init_cores n i d p).initialized_count ≡ p.initialized_count
      init_cores-full zero i d p h = refl
      init_cores-full (suc n) i d p h =
          ground (arith, init_cores-full n (i + 1) d (init_core i d p))

  -- After `PerCore::new` for `n` cores the call of `get` on a core gives the default if the core is
  -- one of the `n`. On a later core below 16 it reads memory that is not initialised, and from core
  -- 16 on it panics. The count is that of the cores with a value.
  pub get-new :
      (n ebx : ℕ) (d : A)
      → (get ebx (new n d) ≡ (
          if ltb (cpuid ebx) max_cpus
          then (if ltb (cpuid ebx) n then done d else err uninitialized_memory)
          else panic))
        × ((new n d).initialized_count ≡ (if leb n max_cpus then n else max_cpus))
  unfolding get new
  get-new n ebx d =
      let p : PerCore A = record { cores = λ i. none; initialized_count = 0 } in
      (
        ground (arith, init_cores-cores n 0 d p (cpuid ebx)),
        ground (arith, init_cores-count n 0 d p),
      )

  -- A change of the value of one core through `get_mut` is seen by `get` on that core, and on no
  -- other core. It fails exactly if `get` fails, in the same way.
  pub get-get_mut :
      (ebx : ℕ) (f : A → A) (p : PerCore A)
      → ((a : A) × (p' : PerCore A) × (get ebx p ≡ done a)
          × (get_mut ebx f p ≡ done p')
          × (get ebx p' ≡ done (f a))
          × ((other : ℕ) → cpuid other ≢ cpuid ebx → get other p' ≡ get other p))
        ⊎ ((get ebx p ≡ err uninitialized_memory) × (get_mut ebx f p ≡ err uninitialized_memory))
        ⊎ ((get ebx p ≡ panic) × (get_mut ebx f p ≡ panic))
  unfolding get get_mut
  get-get_mut ebx f p = elim (Bool-cases (ltb (cpuid ebx) max_cpus)) [
    | inr h ↦ inr (inr (ground arith, ground arith))
    | inl h ↦ elim (Option-cases (p.cores (cpuid ebx))) [
      | inl e ↦ inr (inl (ground arith, ground arith))
      | inr (a, e) ↦
          let p' : PerCore A = record p { cores = update p.cores (cpuid ebx) (some (f a)) } in
          inl (a, p', ground arith, ground arith, ground arith, λ other ne. ground arith)
    ]
  ]

sysinfo-bounds : (eax : ℕ) → (0 < sysinfo eax) × (sysinfo eax ≤ 64)
unfolding sysinfo
sysinfo-bounds eax = omega (arith, and-mask 6 (shr eax 26))

module _ {Q : Type 0} (ops : HeapOps Q) where
  -- The set-up puts into the empty cell a new executor for each core that CPUID counts, from 1 to
  -- 64, but for 16 at most. The lookup of the executor of another core below 16 reads memory that
  -- is not initialised, and it panics on a core from 16 on. A second set-up changes nothing.
  pub get-init_scheduler :
      (eax eax' : ℕ)
      → let cell = init_scheduler ops eax Sync.new in
        (p : PerCore (Executor Q)) × (Sync.get cell ≡ some p)
        × ((ebx : ℕ)
            → get ebx p ≡ (
                if ltb (cpuid ebx) max_cpus
                then (if ltb (cpuid ebx) (sysinfo eax)
                    then done (Scheduler.new ops)
                    else err uninitialized_memory)
                else panic))
        × (0 < sysinfo eax)
        × (sysinfo eax ≤ 64)
        × (init_scheduler ops eax' cell ≡ cell)
  unfolding init_scheduler Sync.get
  get-init_scheduler eax eax' = (
    new (sysinfo eax) (Scheduler.new ops),
    ground arith,
    λ ebx. (get-new (sysinfo eax) ebx (Scheduler.new ops)).0,
    (sysinfo-bounds eax).0,
    (sysinfo-bounds eax).1,
    ground arith,
  )
