-- ===== src/Endpoint/Ipc/Transfer.antt =====
-- The message registers that a transfer copies.
use chick.Common.{
  ℕ, zero, suc, ◌≤◌, ◌<◌, leb, ◌&&◌, ◌≡◌, ◌≢◌, refl, ◌+◌, Bool, ltb, ◌==◌, if◌then◌else◌, arith,
}
use chick.Common.Store.{update}
use chick.Common.Outcome.{done, panic, debug, release}
use chick.Thread.{Tcb, Tcbs, get_mr, set_mr}
use chick.Endpoint.Ipc.{transfer_registers, do_ipc_transfer}

abbrev registers : Tcb → ℕ → ℕ
registers c = c.context.registers

-- A register of a thread replaced.
abbrev set_register_of : Tcb → ℕ → ℕ → Tcb
set_register_of c i v = record c {
  context = record (c.context) { registers = update c.context.registers i v };
}

get_mr-lem : (c : Tcb) (i : ℕ) → i < 15 → get_mr release c i ≡ done (registers c i)
unfolding get_mr
get_mr-lem c i h = ground arith

set_mr-lem : (c : Tcb) (i v : ℕ) → i < 15 → set_mr release c i v ≡ done (set_register_of c i v)
unfolding set_mr
set_mr-lem c i v h = ground arith

module _ (sender receiver : ℕ) (ne : sender ≢ receiver) where
  -- The receiver has `count` of the sender's registers from `i` on, and nothing else has changed.
  record Copied (count i : ℕ) (mem mem' : Tcbs) : Type 0 where
    copied :
        (j : ℕ)
        → registers (mem' receiver) j ≡ (
            if leb i j && ltb j (i + count)
            then registers (mem sender) j
            else registers (mem receiver) j)
    kept :
        (a : ℕ)
        → mem' a ≡ (if receiver == a then record (mem a) { context = (mem' a).context } else mem a)

  transfer_registers-Copied :
      (count i : ℕ) (mem : Tcbs)
      → i + count ≤ 15
      → (mem' : Tcbs) × (transfer_registers release sender receiver count i mem ≡ done mem')
        × Copied count i mem mem'
  unfolding transfer_registers
  transfer_registers-Copied zero i mem fits =
      (mem, refl, record { copied = λ j. ground arith; kept = λ a. ground arith })
  transfer_registers-Copied (suc count) i mem fits =
      let mem1 : Tcbs =
        update mem receiver (set_register_of (mem receiver) i (registers (mem sender) i)) in
      let (mem', e, c) = transfer_registers-Copied count (i + 1) mem1 (omega arith) in
      (
        mem',
        rw
            (
              (let first : 0 + i ≡ i = omega arith in first),
              get_mr-lem (mem sender) i (omega arith),
              set_mr-lem (mem receiver) i (registers (mem sender) i) (omega arith),
            )
            e,
        record { copied = λ j. ground (arith, c.copied j); kept = λ a. ground (arith, c.kept a) },
      )

-- The receiver has the sender's first four registers, and nothing else has changed.
pub record Transferred (sender receiver : ℕ) (mem mem' : Tcbs) : Type 0 where
  pub copied :
      (i : ℕ)
      → (mem' receiver).context.registers i
        ≡ (if ltb i 4 then (mem sender).context.registers i else (mem receiver).context.registers i)
  pub kept :
      (a : ℕ)
      → mem' a ≡ (if receiver == a then record (mem a) { context = (mem' a).context } else mem a)

pub do_ipc_transfer-Transferred :
    (sender receiver badge : ℕ) (can_grant : Bool) (mem : Tcbs)
    → sender ≢ receiver
    → (mem' : Tcbs) × (do_ipc_transfer release sender receiver badge can_grant mem ≡ done mem')
      × Transferred sender receiver mem mem'
unfolding do_ipc_transfer
do_ipc_transfer-Transferred sender receiver badge can_grant mem ne =
    let mem1 : Tcbs = update mem receiver (set_register_of (mem receiver) 0 badge) in
    let (mem', e, c) = transfer_registers-Copied sender receiver ne 4 0 mem1 (omega arith) in
    (
      mem',
      rw (set_mr-lem (mem receiver) 0 badge (omega arith)) e,
      record { copied = λ i. ground (arith, c.copied i); kept = λ a. ground (arith, c.kept a) },
    )

-- Every transfer panics in a debug build: `set_mr` asserts that the index is above 0, and `MR1` is
-- register 0.
pub do_ipc_transfer-debug :
    (sender receiver badge : ℕ) (can_grant : Bool) (mem : Tcbs)
    → do_ipc_transfer debug sender receiver badge can_grant mem ≡ panic
unfolding do_ipc_transfer set_mr
do_ipc_transfer-debug sender receiver badge can_grant mem = refl
