-- ===== src/Examples/Endpoint.antt =====
-- Two receivers, or two senders, that wait on the endpoint at 0x500 of objects/endpoint.rs.
use chick.Common.{
  Option, ◌≡◌, refl, sym, ap, true, false, none, some, List, [], ◌∷◌, ◌==◌, if◌then◌else◌, arith,
}
use chick.Common.Outcome.{done, release}
use chick.Thread.{Tcbs, ThreadState, new, inactive, blocked_on_receive, blocked_on_send}
use chick.Percore
use chick.Percore.{PerCore}
use chick.Scheduler.{Entry, Executor}
use chick.Scheduler.Heap.Sample.{list_heap}
use chick.Endpoint.{EndpointState, send, recv, Kernel}
use chick.Endpoint.Queue.{IsEndpoint}
use chick.Endpoint.Served.{IsServed}
use chick.Endpoint.Ipc.{send_ipc, receive_ipc}
use chick.Endpoint.Ipc.Blocking.{send_ipc-blocks, receive_ipc-blocks}
use chick.Endpoint.Ipc.Handover.{Received, send_ipc-delivers}
use chick.Endpoint.Ipc.Receive.{state_after, receive_ipc-delivers}
use chick.Endpoint.Cancel.{cancel_ipc, cancel_all_ipc, cancel_badged_sends}
use chick.Endpoint.Cancel.Badged.{cancel_badged_sends-IsEndpoint}
use chick.Endpoint.Cancel.Laws.{cancel_ipc-IsEndpoint}
use chick.Endpoint.Cancel.All.{AllRestarted, cancel_all_ipc-IsEndpoint}

-- Threads 1 and 2 wait in this order, in the state given; the others run.
abbrev threads : ThreadState → Tcbs
threads s t =
    if t == 1
    then record new { state = s; blocking_object = some 0x500; ep_next = some 2 }
    else if t == 2
    then record new { state = s; blocking_object = some 0x500; ep_prev = some 1 }
    else new

-- The executors of two cores, on the first of which the operations run.
abbrev cores : PerCore (Executor (List Entry))
cores = Percore.new 2 (record { ready = []; current = none; idle = none })

abbrev kernel : EndpointState → ThreadState → Kernel (List Entry)
kernel s t = record {
  tcbs = threads t;
  contexts = λ c. record { ticks = 10; ticks_consumed = 0; deadline = 20; thread = c };
  endpoints = λ at. record { state = s; queue = record { head = some 1; tail = some 2 } };
  scheduler = some cores;
  core = 0;
}

kernel-IsServed : (s : EndpointState) (t : ThreadState) → IsServed (kernel s t)
unfolding Percore.new Percore.init_cores Percore.init_core Percore.get Percore.get_unsafe
    Percore.cpuid
kernel-IsServed s t p e =
    let given : Option (PerCore (Executor (List Entry))) → PerCore (Executor (List Entry)) =
      λ o. elim o [ none ↦ cores | some c ↦ c ] in
    (
      record { ready = []; current = none; idle = none },
      ap (λ (o : Option (PerCore (Executor (List Entry)))). Percore.get 0 (given o)) (sym e),
    )

abbrev receiving : Kernel (List Entry)
receiving = kernel recv blocked_on_receive

abbrev sending : Kernel (List Entry)
sending = kernel send blocked_on_send

receiving-IsEndpoint : IsEndpoint receiving.tcbs 0x500 (receiving.endpoints 0x500) (1 ∷ (2 ∷ []))
receiving-IsEndpoint = record {
  queue = record {
    distinct = (refl, (refl, tt));
    linked = (refl, refl, (refl, refl, (refl, refl)));
  };
  idle_if_none = refl;
  blocked = (refl, refl, (refl, refl, tt));
}

sending-IsEndpoint : IsEndpoint sending.tcbs 0x500 (sending.endpoints 0x500) (1 ∷ (2 ∷ []))
sending-IsEndpoint = record {
  queue = record {
    distinct = (refl, (refl, tt));
    linked = (refl, refl, (refl, refl, (refl, refl)));
  };
  idle_if_none = refl;
  blocked = (refl, refl, (refl, refl, tt));
}

send_ipc-blocks_example :
    (k' : Kernel (List Entry)) × (send_ipc list_heap release true false 7 true false 3 0x500 sending
      ≡ done k')
    × IsEndpoint k'.tcbs 0x500 (k'.endpoints 0x500) (1 ∷ (2 ∷ (3 ∷ [])))
    × ((k'.endpoints 0x500).state ≡ send)
    × ((k'.tcbs 3).ipc_state
        ≡ record { badge = 7; can_grant = true; can_grant_reply = false; is_call = false })
send_ipc-blocks_example =
    send_ipc-blocks list_heap release false 7 true false 3 0x500 sending (1 ∷ (2 ∷ []))
      sending-IsEndpoint (ground arith) refl

receive_ipc-blocks_example :
    (k' : Kernel (List Entry)) × (receive_ipc list_heap release 3 0x500 true receiving ≡ done k')
    × IsEndpoint k'.tcbs 0x500 (k'.endpoints 0x500) (1 ∷ (2 ∷ (3 ∷ [])))
    × ((k'.endpoints 0x500).state ≡ recv)
receive_ipc-blocks_example =
    receive_ipc-blocks list_heap release 3 0x500 receiving (1 ∷ (2 ∷ [])) receiving-IsEndpoint
      (ground arith) refl

send_ipc-delivers_example :
    (k' : Kernel (List Entry)) × (send_ipc list_heap release true true 7 true false 3 0x500
        receiving
      ≡ done k')
    × IsEndpoint k'.tcbs 0x500 (k'.endpoints 0x500) (2 ∷ [])
    × Received list_heap receiving k' 3 1
    × ((k'.tcbs 1).state ≡ inactive)
    × (k'.scheduler ≡ receiving.scheduler)
send_ipc-delivers_example =
    send_ipc-delivers list_heap true true 7 true false 3 0x500 receiving 1 (2 ∷ [])
      receiving-IsEndpoint (kernel-IsServed recv blocked_on_receive) refl refl

receive_ipc-delivers_example :
    (k' : Kernel (List Entry)) × (receive_ipc list_heap release 3 0x500 true sending ≡ done k')
    × IsEndpoint k'.tcbs 0x500 (k'.endpoints 0x500) (2 ∷ [])
    × Received list_heap sending k' 1 3
    × ((k'.tcbs 1).state ≡ state_after list_heap (sending.tcbs 1).ipc_state)
    × (k'.scheduler ≡ sending.scheduler)
receive_ipc-delivers_example =
    receive_ipc-delivers list_heap true 3 0x500 sending 1 (2 ∷ []) sending-IsEndpoint
      (kernel-IsServed send blocked_on_send) refl refl

cancel_ipc-IsEndpoint_example :
    let k' = cancel_ipc 1 sending in
    IsEndpoint k'.tcbs 0x500 (k'.endpoints 0x500) (2 ∷ [])
    × ((k'.tcbs 1).state ≡ inactive)
    × ((k'.tcbs 1).blocking_object ≡ none)
    × ((k'.tcbs 1).ep_next ≡ none)
    × ((k'.tcbs 1).ep_prev ≡ none)
cancel_ipc-IsEndpoint_example = cancel_ipc-IsEndpoint 1 0x500 sending [] (2 ∷ []) sending-IsEndpoint

cancel_all_ipc-IsEndpoint_example :
    (k' : Kernel (List Entry)) × (cancel_all_ipc list_heap 2 0x500 sending ≡ done (some k'))
    × IsEndpoint k'.tcbs 0x500 (k'.endpoints 0x500) []
    × AllRestarted k'.tcbs inactive (1 ∷ (2 ∷ []))
cancel_all_ipc-IsEndpoint_example =
    cancel_all_ipc-IsEndpoint list_heap 0x500 2 sending (1 ∷ (2 ∷ [])) sending-IsEndpoint
      (kernel-IsServed send blocked_on_send) (ground arith)

-- The second sender has the badge 7.
abbrev badged : Kernel (List Entry)
badged = record sending {
  tcbs = λ t.
      if t == 2
      then record (threads blocked_on_send 2) { ipc_state = record (new.ipc_state) { badge = 7 } }
      else threads blocked_on_send t;
}

badged-IsEndpoint : IsEndpoint badged.tcbs 0x500 (badged.endpoints 0x500) (1 ∷ (2 ∷ []))
badged-IsEndpoint = record {
  queue = record {
    distinct = (refl, (refl, tt));
    linked = (refl, refl, (refl, refl, (refl, refl)));
  };
  idle_if_none = refl;
  blocked = (refl, refl, (refl, refl, tt));
}

cancel_badged_sends-IsEndpoint_example :
    (k' : Kernel (List Entry)) × (cancel_badged_sends list_heap 2 0x500 7 badged ≡ done (some k'))
    × IsEndpoint k'.tcbs 0x500 (k'.endpoints 0x500) (1 ∷ [])
    × AllRestarted k'.tcbs inactive (2 ∷ [])
cancel_badged_sends-IsEndpoint_example =
    cancel_badged_sends-IsEndpoint list_heap 2 0x500 7 badged (1 ∷ (2 ∷ [])) badged-IsEndpoint
      (kernel-IsServed send blocked_on_send) refl (ground arith)
