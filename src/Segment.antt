-- ===== src/Segment.antt =====
-- kernel/src/arch/x86_64/interrupts/gdt.rs and idt.rs, and `init_syscall` of
-- kernel/src/arch/x86_64/syscall.rs: the descriptor tables and the registers for system calls.
-- `GlobalDescriptorTable` of the crate x86_64 is a parameter: `GdtOps` are the functions that the code
-- calls, and `IsGdt` states what is relied on of them. The addresses of the stacks and of the handler
-- of system calls are arguments.
pub mod Laws
pub mod Sample
use chick.Common.{
  ℕ, ◌+◌, ◌-◌, ◌*◌, ◌/◌, ◌%◌, ◌^◌, ◌≡◌, Option, none, some, ◌==◌, if◌then◌else◌, bit_or,
}
use chick.Common.Bits.{shl}
use chick.Common.Store.{update}

pub data Descriptor : Type 0 where
  kernel_code_segment kernel_data_segment user_code_segment user_data_segment tss_segment :
      Descriptor

pub record GdtOps (G : Type 0) : Type 0 where
  pub new : G
  pub append : Descriptor → G → ℕ × G

-- The privilege that a selector of the descriptor asks for, and the entries that it takes.
abbrev pub privilege : Descriptor → ℕ
privilege user_code_segment = 3
privilege user_data_segment = 3
privilege _ = 0

abbrev pub width : Descriptor → ℕ
width tss_segment = 2
width _ = 1

-- `append` takes the next free entry, of which entry 0 is none, and gives its selector.
pub record IsGdt {G : Type 0} (ops : GdtOps G) : Type 0 where
  pub next : G → ℕ
  pub next-new : next ops.new ≡ 1
  pub selector : (d : Descriptor) (g : G) → (ops.append d g).0 ≡ next g * 8 + privilege d
  pub next-append : (d : Descriptor) (g : G) → next (ops.append d g).1 ≡ next g + width d

pub record Selectors : Type 0 where
  pub code_selector : ℕ
  pub data_selector : ℕ
  pub user_code_selector : ℕ
  pub user_data_selector : ℕ
  pub tss_selector : ℕ

-- `GDT`.
unfoldable pub gdt : {G : Type 0} → GdtOps G → G × Selectors
gdt ops =
    let (code_selector, gdt1) = ops.append kernel_code_segment ops.new in
    let (data_selector, gdt2) = ops.append kernel_data_segment gdt1 in
    let (user_code, gdt3) = ops.append user_code_segment gdt2 in
    let (user_data, gdt4) = ops.append user_data_segment gdt3 in
    let (tss_selector, gdt5) = ops.append tss_segment gdt4 in
    (
      gdt5,
      record {
        code_selector = code_selector;
        data_selector = data_selector;
        user_code_selector = user_code;
        user_data_selector = user_data;
        tss_selector = tss_selector;
      },
    )

-- The segment registers and the task register.
pub record Segments : Type 0 where
  pub cs : ℕ
  pub ss : ℕ
  pub ds : ℕ
  pub es : ℕ
  pub fs : ℕ
  pub gs : ℕ
  pub tr : ℕ

-- `gdt::load`, beside the load of the table itself.
unfoldable pub load : Selectors → Segments
load s = record {
  cs = s.code_selector;
  ss = s.data_selector;
  ds = s.data_selector;
  es = s.data_selector;
  fs = s.data_selector;
  gs = s.data_selector;
  tr = s.tss_selector;
}

pub data IstIndex : Type 0 where
  double_fault non_maskable_interrupt machine_check : IstIndex

-- The discriminants of `IstIndex`.
unfoldable pub ist_index : IstIndex → ℕ
ist_index double_fault = 0
ist_index non_maskable_interrupt = 1
ist_index machine_check = 2

abbrev pub stack_size : ℕ
stack_size = 4096 * 2

pub record Tss : Type 0 where
  pub interrupt_stack_table : ℕ → ℕ
  pub privilege_stack_table : ℕ → ℕ

-- `TSS`. `stack` gives the addresses of the four stacks, in the order of the code.
unfoldable pub tss : (ℕ → ℕ) → Tss
unfolding ist_index
tss stack =
    let ist0 = update (λ i. 0) (ist_index double_fault) (stack 0 + stack_size) in
    let ist1 = update ist0 (ist_index non_maskable_interrupt) (stack 1 + stack_size) in
    let ist2 = update ist1 (ist_index machine_check) (stack 2 + stack_size) in
    record {
      interrupt_stack_table = ist2;
      privilege_stack_table = update (λ i. 0) 0 (stack 3 + stack_size);
    }

pub data Handler : Type 0 where
  breakpoint_exception nmi_handler double_fault_handler page_fault machine_check_handler : Handler
  timer_handler : Handler

-- A handler, with the index of its stack in the table of the TSS if it has one.
pub record Gate : Type 0 where
  pub handler : Handler
  pub stack_index : Option ℕ

-- `IDT`: what stands at each vector. The fields of the table have the vectors that the processor
-- gives them.
unfoldable pub idt : ℕ → Option Gate
unfolding ist_index
idt vector =
    if vector == 3
    then some (record { handler = breakpoint_exception; stack_index = none })
    else if vector == 2
    then some
        (record { handler = nmi_handler; stack_index = some (ist_index non_maskable_interrupt) })
    else if vector == 8
    then some
        (record { handler = double_fault_handler; stack_index = some (ist_index double_fault) })
    else if vector == 14
    then some (record { handler = page_fault; stack_index = none })
    else if vector == 18
    then some
        (record { handler = machine_check_handler; stack_index = some (ist_index machine_check) })
    else if vector == 0x20
    then some (record { handler = timer_handler; stack_index = none })
    else none

-- The registers that `init_syscall` writes; STAR has a field for SYSRET and one for SYSCALL.
pub record Msrs : Type 0 where
  pub star_sysret : ℕ
  pub star_syscall : ℕ
  pub lstar : ℕ
  pub sfmask : ℕ
  pub efer : ℕ

-- `handler` is the address of `syscall_stub`, which is canonical.
unfoldable pub init_syscall : Selectors → ℕ → Msrs → Msrs
init_syscall s handler m =
    let efer1 = bit_or m.efer 1 in
    let efer2 = bit_or efer1 (shl 1 8) in
    let efer3 = bit_or efer2 (shl 1 10) in
    record {
      star_sysret = s.user_code_selector;
      star_syscall = s.code_selector;
      lstar = handler;
      sfmask = bit_or (shl 1 9) (shl 1 10);
      efer = efer3;
    }

-- The selectors that SYSCALL and SYSRET load into CS and SS, as the manuals of the processor say.
abbrev pub syscall_selectors : Msrs → ℕ × ℕ
syscall_selectors m = (m.star_syscall / 4 * 4, m.star_syscall + 8)

abbrev pub sysret_selectors : Msrs → ℕ × ℕ
sysret_selectors m = (bit_or (m.star_sysret + 16) 3, bit_or (m.star_sysret + 8) 3)
