-- ===== src/Thread/Queue.antt =====
-- kernel/src/objects/tcb.rs: `TcbQueue`, the queue of threads that wait on an endpoint. Its
-- nodes are the TCBs themselves.
pub mod Fifo
pub mod Laws
use chick.Common.{ℕ, Bool, Option, none, some, is_none}
use chick.Thread.{Tcb, Tcbs, modify}

pub record TcbQueue : Type 0 where
  pub head : Option ℕ
  pub tail : Option ℕ

-- `TcbQueue::new`.
abbrev pub empty : TcbQueue
empty = record { head = none; tail = none }

unfoldable pub is_empty : TcbQueue → Bool
is_empty q = is_none q.head

unfoldable pub append : ℕ → TcbQueue → Tcbs → TcbQueue × Tcbs
append tcb q mem =
    let mem1 = modify mem tcb (λ c. record c { ep_next = none; ep_prev = q.tail }) in
    elim q.tail [
      | some tail ↦
          (record q { tail = some tcb }, modify mem1 tail (λ c. record c { ep_next = some tcb }))
      | none ↦ (record { head = some tcb; tail = some tcb }, mem1)
    ]

unfoldable pub dequeue_head : TcbQueue → Tcbs → Option ℕ × TcbQueue × Tcbs
dequeue_head q mem = elim q.head [
  | none ↦ (none, q, mem)
  | some head ↦
      let unlinked =
        λ (m : Tcbs). modify m head (λ c. record c { ep_next = none; ep_prev = none }) in
      elim (mem head).ep_next [
        | some new_head ↦ (
          some head,
          record q { head = some new_head },
          unlinked (modify mem new_head (λ c. record c { ep_prev = none })),
        )
        | none ↦ (some head, record { head = none; tail = none }, unlinked mem)
      ]
]

-- The two matches of `remove`: on `prev`, and then on `next`.
unfoldable pub unlink_prev : Option ℕ → Option ℕ → TcbQueue → Tcbs → TcbQueue × Tcbs
unlink_prev (some prev) next q mem = (q, modify mem prev (λ c. record c { ep_next = next }))
unlink_prev none next q mem = (record q { head = next }, mem)

unfoldable pub unlink_next : Option ℕ → Option ℕ → TcbQueue → Tcbs → TcbQueue × Tcbs
unlink_next prev (some next) q mem = (q, modify mem next (λ c. record c { ep_prev = prev }))
unlink_next prev none q mem = (record q { tail = prev }, mem)

unfoldable pub remove : ℕ → TcbQueue → Tcbs → TcbQueue × Tcbs
unfolding unlink_prev unlink_next
remove tcb q mem =
    let prev = (mem tcb).ep_prev in
    let next = (mem tcb).ep_next in
    let (q1, mem1) = unlink_prev prev next q mem in
    let (q2, mem2) = unlink_next prev next q1 mem1 in
    (q2, modify mem2 tcb (λ c. record c { ep_next = none; ep_prev = none }))
