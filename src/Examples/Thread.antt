-- ===== src/Examples/Thread.antt =====
-- A queue of two threads of objects/tcb.rs.
use chick.Common.{◌≡◌, refl, none, some, [], ◌∷◌, ◌==◌, if◌then◌else◌}
use chick.Thread.{Tcbs, new}
use chick.Thread.Queue.{TcbQueue}
use chick.Thread.Queue.Fifo.{call_all, call_all-promised, appends, dequeues, removes}
use chick.Thread.Queue.Laws.{IsQueue}

-- Thread 1 and then thread 2.
abbrev pub queued : Tcbs
queued t =
    if t == 1
    then record new { ep_next = some 2 }
    else if t == 2
    then record new { ep_prev = some 1 }
    else new

abbrev pub queue : TcbQueue
queue = record { head = some 1; tail = some 2 }

pub queue-IsQueue : IsQueue queue queued (1 ∷ 2 ∷ [])
queue-IsQueue = record {
  distinct = (refl, (refl, tt));
  linked = (refl, refl, (refl, refl, (refl, refl)));
}

call_all-promised_example :
    let calls = appends 3 ∷ removes 2 ∷ dequeues ∷ dequeues ∷ dequeues ∷ [] in
    let (rs, q1, mem1) = call_all calls queue queued in
    (rs ≡ none ∷ none ∷ some 1 ∷ some 3 ∷ none ∷ []) × IsQueue q1 mem1 []
call_all-promised_example =
    call_all-promised (appends 3 ∷ removes 2 ∷ dequeues ∷ dequeues ∷ dequeues ∷ []) queue queued
      (1 ∷ 2 ∷ []) queue-IsQueue refl
