-- ===== src/Percore.antt =====
-- kernel/src/scheduler/percore.rs, kernel/src/scheduler/mod.rs, and what kernel/src/arch/x86_64/mod.rs
-- reads from the CPU: one value for each core, and the set-up of the executors.
-- A core without a value is memory that is not initialised; to read it is undefined behaviour,
-- which the model has as an error. What CPUID gives is an argument.
pub mod Laws
use chick.Common.{ℕ, zero, suc, ◌+◌, Bool, Option, none, some, ltb, if◌then◌else◌, bit_and}
use chick.Common.Bits.{shr}
use chick.Common.Store.{update}
use chick.Common.Outcome.{Outcome, done, err, panic}
use chick.Scheduler
use chick.Scheduler.{HeapOps, Executor}
use chick.Sync
use chick.Sync.{OnceLock}

abbrev pub max_cpus : ℕ
max_cpus = 16

pub record PerCore (A : Type 0) : Type 0 where
  pub cores : ℕ → Option A
  pub initialized_count : ℕ

pub data Undefined : Type 0 where
  uninitialized_memory : Undefined

module _ {A : Type 0} where
  -- The warning on a core out of bounds is left out.
  unfoldable pub init_core : ℕ → A → PerCore A → PerCore A
  init_core cpu_id v p =
      if ltb cpu_id max_cpus
      then record {
        cores = update p.cores cpu_id (some v);
        initialized_count = p.initialized_count + 1;
      }
      else p

  -- The loop of `PerCore::new`, from core `i` on, for `n` cores.
  unfoldable pub init_cores : ℕ → ℕ → A → PerCore A → PerCore A
  unfolding init_core
  init_cores zero i default p = p
  init_cores (suc n) i default p = init_cores n (i + 1) default (init_core i default p)

  unfoldable pub new : ℕ → A → PerCore A
  unfolding init_cores
  new n default = init_cores n 0 default (record { cores = λ i. none; initialized_count = 0 })

  unfoldable pub get_unsafe : ℕ → PerCore A → Outcome Undefined A
  get_unsafe i p =
      if ltb i max_cpus
      then elim (p.cores i) [ none ↦ err uninitialized_memory | some a ↦ done a ]
      else panic

-- `cpuid`, from the register that CPUID 1 gives.
unfoldable pub cpuid : ℕ → ℕ
cpuid ebx = bit_and (shr ebx 24) 0xff

-- `sysinfo().cores`, from the register that CPUID 4 gives.
unfoldable pub sysinfo : ℕ → ℕ
sysinfo eax = bit_and (shr eax 26) 0x3f + 1

module _ {A : Type 0} where
  -- A `u32` always fits into a `usize`.
  unfoldable pub get : ℕ → PerCore A → Outcome Undefined A
  unfolding get_unsafe cpuid
  get ebx p = get_unsafe (cpuid ebx) p

  -- `get_mut`, with what is done to the value.
  unfoldable pub get_mut : ℕ → (A → A) → PerCore A → Outcome Undefined (PerCore A)
  unfolding cpuid
  get_mut ebx f p =
      let i = cpuid ebx in
      if ltb i max_cpus
      then elim (p.cores i) [
        | none ↦ err uninitialized_memory
        | some a ↦ done (record p { cores = update p.cores i (some (f a)) })
      ]
      else panic

-- `init_scheduler`, on the cell `SCHEDULER`.
unfoldable pub init_scheduler :
    {Q : Type 0} → HeapOps Q → ℕ → OnceLock (PerCore (Executor Q)) → OnceLock (PerCore (Executor Q))
unfolding sysinfo new Sync.set
init_scheduler ops eax m = (Sync.set (new (sysinfo eax) (Scheduler.new ops)) m).0
