-- ===== src/Sync.antt =====
-- kernel/src/scheduler/sync.rs: `OnceLock`, a cell that is written once, shared by any number of
-- threads. Each access to the shared cell is one step, and the steps of the threads interleave in
-- any order. The acquire and release orderings of the atomic accesses are read as sequential
-- consistency. The function given to `get_or_init` may call the methods of the same cell.
pub mod Alone
pub mod Call
pub mod Deadlock
pub mod Invariant
pub mod Moves
pub mod Nested
pub mod Progress
pub mod Safety
pub mod Within
use chick.Common.{ℕ, ◌≡◌, ◌≢◌, Bool, true, false, Option, none, some, ◌==◌, if◌then◌else◌}
use chick.Common.Store.{update}

abbrev pub uninitialized : ℕ
uninitialized = 0

abbrev pub initializing : ℕ
initializing = 1

abbrev pub initialized : ℕ
initialized = 2

pub record OnceLock (A : Type 0) : Type 0 where
  pub once : ℕ
  pub value : Option A

-- `OnceLock::new`.
abbrev pub new : {A : Type 0} → OnceLock A
new = record { once = uninitialized; value = none }

-- `set` and `get`, as they run alone; the Boolean says whether the call succeeded.
unfoldable pub set : {A : Type 0} → A → OnceLock A → OnceLock A × Bool
set v m =
    if m.once == uninitialized
    then (record { once = initialized; value = some v }, true)
    else (m, false)

unfoldable pub get : {A : Type 0} → OnceLock A → Option A
get m = if m.once == initialized then m.value else none

-- What a call came to: `unwound` if the function given to it panicked, and `panicked` if an
-- `unwrap` did.
pub data Result (A : Type 0) : Type 0 where
  got : Option A → Result A
  value : A → Result A
  set_ok set_err : Result A
  unwound panicked : Result A

-- Where a thread stands, with the local variables that are live there. At `within p` the function
-- given to `get_or_init` has called a method of the same cell, and that call stands at `p`; `idle`
-- there is between two such calls. At `aborted` the function has panicked and the thread has stopped.
pub data Pc (A : Type 0) : Type 0 where
  idle : Pc A
  get_load : Pc A
  get_read : Pc A
  init_load : Pc A
  init_exchange : Pc A
  init_call : Pc A
  init_write : A → Pc A
  init_publish : A → Pc A
  init_wait : Pc A
  init_check : Pc A
  init_read : Pc A
  within : Pc A → Pc A
  aborted : Pc A
  set_exchange : A → Pc A
  set_write : A → Pc A
  set_publish : A → Pc A
  returned : Result A → Pc A

-- `as_ref().unwrap()`.
abbrev pub unwrap : {A : Type 0} → Option A → Result A
unwrap none = panicked
unwrap (some a) = value a

-- A step of one thread. Between calls a thread chooses any of the three methods. The function of
-- `get_or_init` calls methods of the cell, and returns any value or panics. A panic aborts, as the
-- release profile and the target of the build have it, or unwinds, and the guard then resets the cell.
pub data Move {A : Type 0} (m : OnceLock A) : Pc A → OnceLock A → Pc A → Type 0 where
  call_get : Move m idle m get_load
  call_init : Move m idle m init_load
  call_set : {v : A} → Move m idle m (set_exchange v)
  leave : {r : Result A} → Move m (returned r) m idle
  get_hit : m.once ≡ initialized → Move m get_load m get_read
  get_miss : m.once ≢ initialized → Move m get_load m (returned (got none))
  get_value : Move m get_read m (returned (got m.value))
  init_fast : m.once ≡ initialized → Move m init_load m init_read
  init_slow : m.once ≢ initialized → Move m init_load m init_exchange
  init_win :
      m.once ≡ uninitialized → Move m init_exchange (record m { once = initializing }) init_call
  init_lose : m.once ≢ uninitialized → Move m init_exchange m init_wait
  init_value : {v : A} → Move m init_call m (init_write v)
  init_within : Move m init_call m (within idle)
  within_ends : Move m (within idle) m init_call
  nested : {q p : Pc A} {m' : OnceLock A} → Move m q m' p → Move m (within q) m' (within p)
  init_abort : Move m init_call m aborted
  init_panic : Move m init_call (record m { once = uninitialized }) (returned unwound)
  init_store : {v : A} → Move m (init_write v) (record m { value = some v }) (init_publish v)
  init_done : {v : A} → Move m (init_publish v) (record m { once = initialized }) init_read
  init_spin : m.once ≡ initializing → Move m init_wait m init_wait
  init_leave : m.once ≢ initializing → Move m init_wait m init_check
  init_ready : m.once ≡ initialized → Move m init_check m init_read
  init_retry : m.once ≢ initialized → Move m init_check m init_load
  init_get : Move m init_read m (returned (unwrap m.value))
  set_win :
      {v : A}
      → m.once ≡ uninitialized
      → Move m (set_exchange v) (record m { once = initializing }) (set_write v)
  set_lose : {v : A} → m.once ≢ uninitialized → Move m (set_exchange v) m (returned set_err)
  set_store : {v : A} → Move m (set_write v) (record m { value = some v }) (set_publish v)
  set_done : {v : A} → Move m (set_publish v) (record m { once = initialized }) (returned set_ok)

pub record System (A : Type 0) : Type 0 where
  pub lock : OnceLock A
  pub pc : ℕ → Pc A

pub data Step {A : Type 0} (s : System A) : System A → Type 0 where
  pick :
      (i : ℕ) {m : OnceLock A} {p : Pc A}
      → Move s.lock (s.pc i) m p
      → Step s (record { lock = m; pc = update s.pc i p })

pub data Steps {A : Type 0} (s : System A) : System A → Type 0 where
  here : Steps s s
  next : {t u : System A} → Steps s t → Step t u → Steps s u

-- A new cell, and threads that have called nothing.
abbrev pub init : {A : Type 0} → System A
init = record { lock = new; pc = λ i. idle }
