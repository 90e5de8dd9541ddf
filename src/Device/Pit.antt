-- ===== src/Device/Pit.antt =====
-- kernel/src/arch/x86_64/pit.rs: the interval timer. Its methods compute in f64; `frequency` is what
-- the code uses of that, the integral part of 1000 divided by the milliseconds.
pub mod Laws
use chick.Common.{ℕ, zero, suc, ◌+◌, ◌-◌, ◌/◌, ◌%◌, ◌^◌, ◌==◌, if◌then◌else◌, bit_and, bit_or}
use chick.Common.Bits.{shl, shr}
use chick.Common.Outcome.{Outcome, done, panic, ◌>>=◌}
use chick.Device.{Bus, out8, in8, write, read}

abbrev pub frequence_hz : ℕ
frequence_hz = 1193182

abbrev pub command_port_address : ℕ
command_port_address = 0x43

abbrev pub data_port_address : ℕ
data_port_address = 0x40

pub data Mode : Type 0 where
  interrupt_on_terminal_count rate_generator : Mode

-- The discriminants of `Mode`.
unfoldable pub mode_byte : Mode → ℕ
mode_byte interrupt_on_terminal_count = 0
mode_byte rate_generator = 2

pub record Pit : Type 0 where
  pub command_port : ℕ
  pub data_port : ℕ

-- `frequence as u64`: the quotient by zero is infinite, and a cast saturates.
unfoldable pub frequency : ℕ → ℕ
frequency zero = 2 ^ 64 - 1
frequency (suc m) = 1000 / suc m

-- `reload_value`: an integer division by zero panics.
unfoldable pub reload_value : {E : Type 0} → ℕ → Outcome E ℕ
unfolding frequency
reload_value millis =
    if frequency millis == 0 then panic else done (frequence_hz / frequency millis % 2 ^ 16)

unfoldable pub new : {E : Type 0} → ℕ → Bus → Outcome E (Pit × Bus)
unfolding reload_value write
new millis bus = do
  let command_port = command_port_address
  let data_port = data_port_address
  reload ← reload_value millis
  let reload_value_low = bit_and reload 0xff % 2 ^ 8
  let reload_value_high = shr reload 8 % 2 ^ 8
  let bus1 = write (out8 command_port 0x30) bus
  let bus2 = write (out8 data_port reload_value_low) bus1
  let bus3 = write (out8 data_port reload_value_high) bus2
  done (record { command_port = command_port; data_port = data_port }, bus3)

unfoldable pub set_mode : Mode → Pit → Bus → Bus
unfolding mode_byte write
set_mode m p bus = write (out8 p.command_port (mode_byte m)) bus

-- The shift is on 16 bits.
unfoldable pub read_count : Pit → Bus → ℕ × Bus
unfolding write read
read_count p bus =
    let bus1 = write (out8 p.command_port 0) bus in
    let (low_byte, bus2) = read (in8 p.data_port) bus1 in
    let (high_byte, bus3) = read (in8 p.data_port) bus2 in
    (bit_or (shl high_byte 8 % 2 ^ 16) low_byte, bus3)
