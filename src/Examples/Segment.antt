-- ===== src/Examples/Segment.antt =====
-- The table of arch/x86_64/interrupts/gdt.rs, on a processor in long mode.
use chick.Common.{◌+◌, ◌%◌, ◌^◌, ◌≡◌, ◌≢◌, bit_and}
use chick.Segment.{gdt, Msrs, init_syscall, syscall_selectors, sysret_selectors, load}
use chick.Segment.Laws.{init_syscall-selectors}
use chick.Segment.Sample.{counter, counter-IsGdt}

abbrev msrs : Msrs
msrs = record { star_sysret = 0; star_syscall = 0; lstar = 0; sfmask = 0; efer = 0x500 }

init_syscall-selectors_example :
    let s = (gdt counter).1 in
    let m' = init_syscall s 0xffff_8000_0010_0000 msrs in
    (syscall_selectors m' ≡ ((load s).cs, (load s).ss))
    × (bit_and m'.sfmask (2 ^ 9) ≡ 2 ^ 9)
    × (bit_and m'.sfmask (2 ^ 10) ≡ 2 ^ 10)
    × (m'.efer % 2 ≡ 1)
    × ((sysret_selectors m').1 ≡ s.user_data_selector)
    × ((sysret_selectors m').0 ≡ s.tss_selector + 3)
    × ((sysret_selectors m').0 ≢ s.user_code_selector)
init_syscall-selectors_example =
    init_syscall-selectors counter counter-IsGdt 0xffff_8000_0010_0000 msrs
