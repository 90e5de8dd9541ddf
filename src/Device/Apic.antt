-- ===== src/Device/Apic.antt =====
-- kernel/src/arch/x86_64/apic.rs and constants/apic.rs: the interrupt controllers. What CPUID gives
-- is an argument, and so is `VirtAddr::new` of the crate x86_64, which is `none` where it panics.
use chick.Common.{ℕ, ◌+◌, ◌*◌, ◌/◌, ◌%◌, ◌^◌, Bool, true, false, not, ◌==◌, Option, bit_and, bit_or}
use chick.Common.Bits.{shl}
use chick.Common.Outcome.{Outcome, done, assert, expect, Profile, ◌>>=◌, ◌>>◌}
use chick.Device.{Bus, store32, load32, write, read}
use chick.Common.Checked.{checked_add}
use chick.Device.Pic

pub data ApicRegister : Type 0 where
  lapic_sivr lapic_eoi lapic_lvtt lapic_tdcr lapic_ticr lapic_tccr : ApicRegister
  io_apic_id ioapic_version ioapic_arb_id ioapic_redirection_table_base : ApicRegister

-- The discriminants of `ApicRegister`.
unfoldable pub register : ApicRegister → ℕ
register lapic_sivr = 0xf0
register lapic_eoi = 0xb0
register lapic_lvtt = 0x320
register lapic_tdcr = 0x3e0
register lapic_ticr = 0x380
register lapic_tccr = 0x390
register io_apic_id = 0x0
register ioapic_version = 0x1
register ioapic_arb_id = 0x2
register ioapic_redirection_table_base = 0x10

pub data ApicValue : Type 0 where
  tdcr_divide_by_1 svr_enable : ApicValue

-- The discriminants of `ApicValue`.
unfoldable pub value : ApicValue → ℕ
value tdcr_divide_by_1 = 0x1
value svr_enable = 0x100

pub record Apic : Type 0 where
  pub io_apic_addr : ℕ
  pub lapic_addr : ℕ

abbrev pub new : Apic
new = record { io_apic_addr = 0; lapic_addr = 0 }

-- `has_apic`, from the register that CPUID 1 gives.
unfoldable pub has_apic : ℕ → Bool
has_apic edx = let apic_bit = shl 1 9 in not (bit_and edx apic_bit == 0)

-- `ptr.offset(r as isize / 4)` for a pointer to u32.
unfoldable pub offset : ℕ → ApicRegister → ℕ
unfolding register
offset addr r = addr + register r / 4 * 4

unfoldable pub enable_io_apic : ℕ → Bus → Bus
unfolding write
enable_io_apic addr bus = write (store32 addr 0x12) bus

unfoldable pub enable_lapic : ℕ → Bus → Bus
unfolding read write offset value
enable_lapic addr bus =
    let svr = offset addr lapic_sivr in
    let (old, bus1) = read (load32 svr) bus in
    write (store32 svr (bit_or old (value svr_enable))) bus1

-- The sum is on 64 bits.
unfoldable pub map_apic : {E : Type 0} → Profile → (ℕ → Option ℕ) → ℕ → ℕ → Outcome E ℕ
unfolding checked_add
map_apic profile virt_addr paddr vspace_offset = do
  addr ← checked_add profile 64 paddr vspace_offset
  expect (virt_addr addr)

unfoldable pub init : {E : Type 0} → Profile → (ℕ → Option ℕ) → ℕ → ℕ → Bus → Outcome E (Apic × Bus)
unfolding has_apic map_apic enable_io_apic enable_lapic Pic.disable
init profile virt_addr edx vspace_offset bus = do
  assert (has_apic edx)
  let bus1 = Pic.disable Pic.new bus
  io_apic_addr ← map_apic profile virt_addr 0xfec0_0000 vspace_offset
  lapic_addr ← map_apic profile virt_addr 0xfee0_0000 vspace_offset
  let bus2 = enable_io_apic io_apic_addr bus1
  let bus3 = enable_lapic lapic_addr bus2
  done (record { io_apic_addr = io_apic_addr; lapic_addr = lapic_addr }, bus3)

unfoldable pub ioapic_read : ℕ → Apic → Bus → ℕ × Bus
unfolding read write
ioapic_read reg a bus =
    let base = a.io_apic_addr in read (load32 (base + 4 * 4)) (write (store32 base reg) bus)

unfoldable pub ioapic_write : ℕ → ℕ → Apic → Bus → Bus
unfolding write
ioapic_write reg v a bus =
    let base = a.io_apic_addr in write (store32 (base + 4 * 4) v) (write (store32 base reg) bus)

-- `periodic as u32`.
unfoldable pub flag : Bool → ℕ
flag true = 1
flag false = 0

-- The result, which is the number of ticks, is left out.
unfoldable pub init_counter : Bool → ℕ → Apic → Bus → Bus
unfolding write offset value flag
init_counter periodic ticks a bus =
    let bus1 =
      write
        (store32 (offset a.lapic_addr lapic_lvtt) (bit_or 0x20 (shl (flag periodic) 17 % 2 ^ 32)))
        bus in
    let bus2 = write (store32 (offset a.lapic_addr lapic_tdcr) (value tdcr_divide_by_1)) bus1 in
    write (store32 (offset a.lapic_addr lapic_ticr) ticks) bus2

unfoldable pub read_counter : Apic → Bus → ℕ × Bus
unfolding read offset
read_counter a bus = read (load32 (offset a.lapic_addr lapic_tccr)) bus

unfoldable pub end_interrupt : Apic → Bus → Bus
unfolding write offset
end_interrupt a bus = write (store32 (offset a.lapic_addr lapic_eoi) 0) bus
