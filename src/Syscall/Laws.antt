-- ===== src/Syscall/Laws.antt =====
-- What the handler does for each number.
use chick.Common.{ℕ, ◌+◌, ◌*◌, ◌%◌, ◌^◌, ◌≡◌, ◌<◌, refl, ◌∙◌, ap, false, ◌==◌, if◌then◌else◌, arith}
use chick.Common.Outcome.{done, err, panic}
use chick.Syscall.{
  Syscall, attach_irq, create_task, remove_task, task_sleep, map_memory, unmap_memory, grant_memory,
  send, receive, ipc_call, invalid, discriminant, is_named, is_number, Conversion, unknown_syscall,
  from_u64, handler,
}

module _ (from_u8 : ℕ → Syscall) (c : Conversion from_u8) where
  -- The handler sees the low byte of the number only. Of the named calls `CreateTask` returns, and
  -- does nothing; the nine others panic. Every other number is an error that carries the byte.
  pub handler-lem :
      (id : ℕ)
      → let b = id % 256 in
        handler from_u8 id
        ≡ (if b == 1 then done tt else if is_number b then panic else err (unknown_syscall b))
  unfolding handler
  handler-lem id = ground (
    arith,
    c.number attach_irq,
    c.number create_task,
    c.number remove_task,
    c.number task_sleep,
    c.number map_memory,
    c.number unmap_memory,
    c.number grant_memory,
    c.number send,
    c.number receive,
    c.number ipc_call,
    c.catch_all (id % 256),
  )

  -- The number of a call, with any higher bytes, gives back the call: a named one, or an unknown
  -- one that carries a byte that is no number of a named one.
  pub from_u64-discriminant :
      (s : Syscall) (high : ℕ)
      → discriminant s < 256
      → (is_named s ≡ false → is_number (discriminant s) ≡ false)
      → from_u64 from_u8 (high * 256 + discriminant s) ≡ s
  unfolding from_u64
  from_u64-discriminant s high small other =
      ap from_u8 (let e : (high * 256 + discriminant s) % 2 ^ 8 ≡ discriminant s = omega arith in e)
      ∙ named s small other
    where
      named :
          (s : Syscall)
          → discriminant s < 256
          → (is_named s ≡ false → is_number (discriminant s) ≡ false)
          → from_u8 (discriminant s) ≡ s
      named (invalid id) small other = c.catch_all id small (other refl)
      named attach_irq small other = c.number attach_irq refl
      named create_task small other = c.number create_task refl
      named remove_task small other = c.number remove_task refl
      named task_sleep small other = c.number task_sleep refl
      named map_memory small other = c.number map_memory refl
      named unmap_memory small other = c.number unmap_memory refl
      named grant_memory small other = c.number grant_memory refl
      named send small other = c.number send refl
      named receive small other = c.number receive refl
      named ipc_call small other = c.number ipc_call refl
