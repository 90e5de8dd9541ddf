-- ===== src/Examples/Scheduler.antt =====
-- A core with two ready threads, as scheduler/executor.rs switches between them.
use chick.Common.{
  ℕ, zero, suc, ◌≡◌, ◌≤◌, ◌<◌, ◌⊎◌, refl, true, none, some, List, [], ◌∷◌, ◌==◌, if◌then◌else◌,
  arith,
}
use chick.Thread.{Tcbs, new, inactive, running, blocked_on_reply}
use chick.Scheduler.{
  max_tcb_per_core, Entry, Machine, restored, halted, schedule, is_blocked, is_inactive,
}
use chick.Scheduler.Heap.Sample.{list_heap, list_heap-IsHeap, size_list_heap}
use chick.Scheduler.Laws.{Earliest, schedule-Earliest}

abbrev entry : ℕ → ℕ → Entry
entry d t = record { deadline = d; tcb = t }

-- Thread 1 runs, threads 2 and 3 are ready, and thread 4 waits for a reply.
abbrev threads : Tcbs
threads t =
    if t == 1
    then new
    else if t == 4
    then record new { state = blocked_on_reply }
    else record new { state = inactive }

abbrev pub machine : Machine (List Entry)
machine = record {
  tcbs = threads;
  contexts = λ c. record { ticks = 10; ticks_consumed = 0; deadline = 20; thread = c };
  exec = record { ready = entry 9 2 ∷ entry 7 3 ∷ []; current = some (entry 8 1); idle = none };
}

abbrev repeat : ℕ → Entry → List Entry
repeat zero e = []
repeat (suc n) e = e ∷ repeat n e

-- The same core with a full heap.
abbrev full : Machine (List Entry)
full = record machine { exec = record (machine.exec) { ready = repeat 64 (entry 9 2) } }

open list_heap-IsHeap use {size, count}

room : size machine.exec.ready < max_tcb_per_core
room = rw (size_list_heap machine.exec.ready) (ground arith)

no_room : max_tcb_per_core ≤ size full.exec.ready
no_room = rw (size_list_heap full.exec.ready) (ground arith)

schedule-Earliest_example :
    ((e : Entry) × (m' : Machine (List Entry)) × (schedule list_heap machine ≡ restored m' e.tcb)
      × Earliest list_heap list_heap-IsHeap machine m' e)
    ⊎ ((t : ℕ) × (m' : Machine (List Entry)) × (size machine.exec.ready ≡ 0)
        × (machine.exec.idle ≡ some t)
        × (schedule list_heap machine ≡ restored m' t)
        × ((m'.tcbs t).state ≡ running))
    ⊎ ((size machine.exec.ready ≡ 0)
        × (machine.exec.idle ≡ none)
        × (schedule list_heap machine ≡ halted machine))
schedule-Earliest_example =
    schedule-Earliest list_heap list_heap-IsHeap machine (omega (arith, room))

blocked : is_blocked (threads 4).state ≡ true
unfolding is_blocked
blocked = refl

not_queued : is_inactive (threads 5).state ≡ true
unfolding is_inactive
not_queued = refl
