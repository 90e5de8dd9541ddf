-- ===== src/Examples/Percore.antt =====
-- Executors of three cores, on a CPU that counts three.
use chick.Common.{ℕ, ◌≡◌, ◌<◌, ◌≤◌, List, ltb, if◌then◌else◌, some}
use chick.Common.Outcome.{done, err, panic}
use chick.Scheduler
use chick.Scheduler.{Entry, Executor}
use chick.Scheduler.Heap.Sample.{list_heap}
use chick.Sync
use chick.Percore.{
  PerCore, new, cpuid, sysinfo, get, init_scheduler, max_cpus, uninitialized_memory,
}
use chick.Percore.Laws.{get-init_scheduler}

abbrev ten : ℕ
ten = 10

abbrev three : PerCore ℕ
unfolding new
three = new 3 ten

get-init_scheduler_example :
    let cell = init_scheduler list_heap 0x8000000 Sync.new in
    (p : PerCore (Executor (List Entry))) × (Sync.get cell ≡ some p)
    × ((ebx : ℕ)
        → get ebx p ≡ (
            if ltb (cpuid ebx) max_cpus
            then (if ltb (cpuid ebx) (sysinfo 0x8000000)
                then done (Scheduler.new list_heap)
                else err uninitialized_memory)
            else panic))
    × (0 < sysinfo 0x8000000)
    × (sysinfo 0x8000000 ≤ 64)
    × (init_scheduler list_heap 0 cell ≡ cell)
get-init_scheduler_example = get-init_scheduler list_heap 0x8000000 0
