-- ===== src/Tlb.antt =====
-- kernel/src/arch/x86_64/vspace/tlb.rs: the flushes of the TLB and the barriers, instruction by
-- instruction. What an instruction does to the TLB is as the manuals of the processor describe it.
pub mod Laws
use chick.Common.{
  ℕ, ◌+◌, ◌*◌, ◌/◌, ◌%◌, ◌^◌, Bool, true, false, not, ◌&&◌, ◌||◌, List, [], ◌∷◌, ◌==◌,
  if◌then◌else◌, bit_and, bit_or,
}
use chick.Common.Bits.{field, lnot, shl}

-- A translation of a page of 4 KiB in the TLB, under a process-context identifier.
pub record Translation : Type 0 where
  pub pcid : ℕ
  pub page : ℕ
  pub global : Bool

pub data Reg : Type 0 where
  rax rbx rcx rdx : Reg

pub record Registers : Type 0 where
  pub rax : ℕ
  pub rbx : ℕ
  pub rcx : ℕ
  pub rdx : ℕ

-- `tmp` is the register that the assembly names so. What CPUID gives is arbitrary.
pub record Cpu : Type 0 where
  pub cr3 : ℕ
  pub cr4 : ℕ
  pub tmp : ℕ
  pub regs : Registers
  pub stack : List ℕ
  pub cpuid : Registers
  pub cached : Translation → Bool

pub data Instruction : Type 0 where
  invlpg : (addr : ℕ) → Instruction
  mov_from_cr3 mov_to_cr3 mov_from_cr4 mov_to_cr4 : Instruction
  and_tmp : (mask : ℕ) → Instruction
  or_tmp : (mask : ℕ) → Instruction
  invpcid : (kind : ℕ) (pcid : ℕ) (addr : ℕ) → Instruction
  mfence xor_eax cpuid : Instruction
  push : Reg → Instruction
  pop : Reg → Instruction

-- The current identifier: the low bits of CR3 if CR4 enables identifiers, else 0.
abbrev pub current : ℕ → ℕ → ℕ
current cr3 cr4 = if field 17 1 cr4 == 1 then cr3 % 2 ^ 12 else 0

-- The bit of CR4 that enables global pages.
abbrev pub pge : ℕ → ℕ
pge cr4 = field 7 1 cr4

-- What the four kinds of INVPCID remove: the translations of an address or of an identifier that are
-- not global, all, and all that are not global.
unfoldable pub removed_by : ℕ → ℕ → ℕ → Translation → Bool
removed_by kind pcid addr e =
    if kind == 0
    then not e.global && (e.pcid == pcid && e.page == addr / 4096)
    else if kind == 1
    then not e.global && e.pcid == pcid
    else if kind == 2
    then true
    else not e.global

abbrev pub get_reg : Reg → Registers → ℕ
get_reg rax r = r.rax
get_reg rbx r = r.rbx
get_reg rcx r = r.rcx
get_reg rdx r = r.rdx

abbrev pub set_reg : Reg → ℕ → Registers → Registers
set_reg rax v r = record r { rax = v }
set_reg rbx v r = record r { rbx = v }
set_reg rcx v r = record r { rcx = v }
set_reg rdx v r = record r { rdx = v }

abbrev pub top : List ℕ → ℕ
top [] = 0
top (x ∷ xs) = x

abbrev pub below : List ℕ → List ℕ
below [] = []
below (x ∷ xs) = xs

unfoldable pub step : Instruction → Cpu → Cpu
unfolding removed_by
step (invlpg addr) c = record c {
  cached =
      λ e. c.cached e && not (e.page == addr / 4096 && (e.global || e.pcid == current c.cr3 c.cr4));
}
step mov_from_cr3 c = record c { tmp = c.cr3 }
step mov_to_cr3 c = record c {
  cr3 = c.tmp;
  cached = λ e. c.cached e && (e.global || not (e.pcid == current c.tmp c.cr4));
}
step mov_from_cr4 c = record c { tmp = c.cr4 }
step mov_to_cr4 c = record c { cr4 = c.tmp; cached = λ e. c.cached e && pge c.tmp == pge c.cr4 }
step (and_tmp mask) c = record c { tmp = bit_and c.tmp mask }
step (or_tmp mask) c = record c { tmp = bit_or c.tmp mask }
step (invpcid kind pcid addr) c = record c {
  cached = λ e. c.cached e && not (removed_by kind pcid addr e);
}
step mfence c = c
step xor_eax c = record c { regs = record (c.regs) { rax = 0 } }
step cpuid c = record c { regs = c.cpuid }
step (push r) c = record c { stack = get_reg r c.regs ∷ c.stack }
step (pop r) c = record c { regs = set_reg r (top c.stack) c.regs; stack = below c.stack }

unfoldable pub exec : List Instruction → Cpu → Cpu
unfolding step
exec [] c = c
exec (i ∷ is) c = exec is (step i c)

abbrev pub flush_page : ℕ → List Instruction
flush_page vaddr = invlpg vaddr ∷ []

abbrev pub flush_all : List Instruction
flush_all = mov_from_cr3 ∷ mov_to_cr3 ∷ []

abbrev pub invalidate_pcid : ℕ → List Instruction
invalidate_pcid pcid = invpcid 0 pcid 0 ∷ []

abbrev pub flush_all_non_global : List Instruction
flush_all_non_global =
    mov_from_cr4 ∷ and_tmp (lnot (shl 1 7)) ∷ mov_to_cr4 ∷ or_tmp (shl 1 7) ∷ mov_to_cr4 ∷ []

abbrev pub dsb : List Instruction
dsb = mfence ∷ []

abbrev pub isb : List Instruction
isb =
    push rax
    ∷ push rbx
    ∷ push rcx
    ∷ push rdx
    ∷ xor_eax
    ∷ cpuid
    ∷ pop rdx
    ∷ pop rcx
    ∷ pop rbx
    ∷ pop rax
    ∷ []
