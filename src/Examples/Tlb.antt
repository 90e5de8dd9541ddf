-- ===== src/Examples/Tlb.antt =====
-- A TLB of arch/x86_64/vspace/tlb.rs with a translation that is global.
use chick.Common.{◌≡◌, ◌/◌, refl, true, false, not, ◌&&◌, ◌||◌, [], ◌==◌}
use chick.Tlb.{
  Translation, Registers, Cpu, current, exec, flush_page, flush_all, invalidate_pcid,
  flush_all_non_global, dsb, isb, step, removed_by,
}
use chick.Tlb.Laws.{exec-cached}

abbrev zeros : Registers
zeros = record { rax = 0; rbx = 0; rcx = 0; rdx = 0 }

abbrev shared : Translation
shared = record { pcid = 5; page = 3; global = true }

abbrev cpu : Cpu
cpu = record {
  cr3 = 0x5005;
  cr4 = 0x20080;
  tmp = 0;
  regs = zeros;
  stack = [];
  cpuid = zeros;
  cached = λ e. true;
}

exec-cached_example :
    ((exec (flush_page 0x3000) cpu).cached shared
      ≡ (true && not (3 == 0x3000 / 4096 && (true || 5 == current 0x5005 0x20080))))
    × ((exec flush_all cpu).cached shared ≡ (true && (true || not (5 == current 0x5005 0x20080))))
    × ((exec flush_all_non_global cpu).cached shared ≡ false)
    × ((exec (invalidate_pcid 5) cpu).cached shared ≡ (true && not (false && (5 == 5 && 3 == 0))))
    × (exec dsb cpu ≡ cpu)
    × (exec isb cpu ≡ cpu)
exec-cached_example = exec-cached 0x3000 5 cpu shared

-- A global translation survives `flush_all`, and any other but that of page 0 `invalidate_pcid`.
survivors :
    ((exec flush_all cpu).cached shared ≡ true)
    × ((exec (invalidate_pcid 5) cpu).cached (record shared { global = false }) ≡ true)
unfolding exec step removed_by
survivors = (refl, refl)
