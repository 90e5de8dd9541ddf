-- ===== src/Examples/Sync.antt =====
-- Two threads call `get_or_init` on one cell.
use chick.Common.{ℕ, ◌≡◌, ◌↔◌, refl, false, none, some, arith}
use chick.Sync.{OnceLock, Pc, Result, Move, System, pick, Steps, here, next, init, new, set}
use chick.Sync.Alone.{moved, Completes}
use chick.Sync.Safety.{Steps-trans, mutual_exclusion, returned-agree}
use chick.Sync.Progress.{get_or_init-Completes_iff}
use chick.Sync.Deadlock.{deadlocked}
use chick.Sync.Call.{Calls, set_result, set-Calls}

abbrev seven : ℕ
seven = 7

abbrev busy : OnceLock ℕ
busy = record { once = 1; value = none }

abbrev full : OnceLock ℕ
full = record { once = 2; value = some 7 }

-- Thread 0 runs the function, and thread 1 has lost the exchange.
abbrev contended : System ℕ
contended =
    moved
      (moved
        (moved
          (moved
            (moved (moved (moved init 0 new Pc.init_load) 1 new Pc.init_load) 0 new
              Pc.init_exchange)
            1 new Pc.init_exchange)
          0 busy Pc.init_call)
        1 busy Pc.init_wait)
      1 busy Pc.init_wait

contended_reached : Steps init contended
contended_reached =
    next
      (next
        (next
          (next
            (next (next (next here (pick 0 Move.call_init)) (pick 1 Move.call_init))
              (pick 0 (Move.init_slow (λ x. absurd (omega arith)))))
            (pick 1 (Move.init_slow (λ x. absurd (omega arith)))))
          (pick 0 (Move.init_win refl)))
        (pick 1 (Move.init_lose (λ x. absurd (omega arith)))))
      (pick 1 (Move.init_spin refl))

-- Thread 0 has returned 7.
abbrev first_done : System ℕ
first_done =
    moved
      (moved
        (moved (moved contended 0 busy (Pc.init_write 7)) 0 (record { once = 1; value = some 7 })
          (Pc.init_publish 7))
        0 full Pc.init_read)
      0 full (Pc.returned (Result.value 7))

first_done_reached : Steps contended first_done
first_done_reached =
    next
      (next (next (next here (pick 0 Move.init_value)) (pick 0 Move.init_store))
        (pick 0 Move.init_done))
      (pick 0 Move.init_get)

-- Then thread 1 has returned.
abbrev both_done : System ℕ
both_done =
    moved (moved (moved first_done 1 full Pc.init_check) 1 full Pc.init_read) 1 full
      (Pc.returned (Result.value 7))

both_done_reached : Steps first_done both_done
both_done_reached =
    next
      (next (next here (pick 1 (Move.init_leave (λ x. absurd (omega arith)))))
        (pick 1 (Move.init_ready refl)))
      (pick 1 Move.init_get)

mutual_exclusion_example : ◌≡◌ {A = ℕ} 0 0
mutual_exclusion_example = mutual_exclusion contended_reached 0 0 refl refl

returned-agree_example : seven ≡ seven
returned-agree_example =
    returned-agree (Steps-trans contended_reached first_done_reached) both_done_reached 0 1 refl
      refl refl refl

get_or_init-Completes_iff_example :
    Completes contended 1 ↔ ((j : ℕ) → deadlocked (contended.pc j) ≡ false)
get_or_init-Completes_iff_example = get_or_init-Completes_iff 5 contended_reached 1 refl

-- The function that thread 0 runs calls `get_or_init` for the same cell.
abbrev reentrant : System ℕ
reentrant = moved (moved contended 0 busy (Pc.within Pc.idle)) 0 busy (Pc.within Pc.init_load)

reentrant_reached : Steps init reentrant
reentrant_reached =
    next (next contended_reached (pick 0 Move.init_within)) (pick 0 (Move.nested Move.call_init))

reentrant_waits : ¬ Completes reentrant 1
reentrant_waits c =
    let live = (get_or_init-Completes_iff 5 reentrant_reached 1 refl).0 c 0 in absurd (cc)

set-Calls_example : (t : System ℕ) × Calls init 4 (set seven new).0 (set_result (set seven new).1) t
set-Calls_example = set-Calls init 4 7 refl
