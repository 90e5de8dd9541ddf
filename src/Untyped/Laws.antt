-- ===== src/Untyped/Laws.antt =====
-- Retyping hands out memory within the untyped object, one range per slot, and records it.
use chick.Common.{
  ℕ, ◌+◌, ◌-◌, ◌*◌, ◌^◌, ◌≤◌, ◌<◌, ◌≡◌, inl, inr, ◌≢◌, refl, sym, ap, ◌∙◌, Bool, false, some, List,
  [], ◌∷◌, length, arith, Option-cases,
}
use mathlib.Core.Path.{subst}
use native.Mathlib.Decide.{dec_lt}
use native.Mathlib.Nat.{suc-mul}
use chick.Common.Chain.{has, IsDistinct}
use chick.Common.Store.{update, update_self}
use chick.Common.Outcome.{Outcome, done, err, panic, Profile, Outcome-cases, ◌>>=◌}
use chick.Common.Checked.{checked_add, checked_add-done}
use chick.Error.{SysError}
use chick.Objects.{CapRaw, ObjType}
use chick.Frame
use chick.Frame.{FrameSize, from_bits}
use chick.Cnode
use chick.Cnode.Laws.{mint-panic}
use chick.Cnode.{Slots}
use chick.VSpace
use chick.Untyped.{
  mint, size, free_offset, set_free_offset, object_size, object_alignment, alignup, checked,
  is_device, Memory, new_cap, fill, retype,
}

-- The slots hold capabilities of the type, to consecutive ranges of memory from the address on.
abbrev pub Placed : Slots → ObjType → ℕ → ℕ → List ℕ → Type 0
Placed mem t addr obj_size [] = Unit {0}
Placed mem t addr obj_size (slot ∷ slots) =
    ((mem slot).cap_type ≡ t)
    × ((mem slot).paddr ≡ addr)
    × Placed mem t (addr + obj_size) obj_size slots

module _ (profile : Profile) where
  new_cap-lem :
      (t : ObjType) (bits obj_size : ℕ) (device : Bool) (addr : ℕ) (cleared : List (ℕ × ℕ))
      (cap : CapRaw) (c : List (ℕ × ℕ))
      → new_cap profile t bits obj_size device addr cleared ≡ done (cap, c)
      → (cap.cap_type ≡ t) × (cap.paddr ≡ addr)
  unfolding new_cap mint Cnode.mint Frame.mint VSpace.mint
  new_cap-lem t bits obj_size device addr cleared cap c h = ground arith

  -- Capabilities of nodes with more than one slot are never made: the guard is 64 bits less the
  -- radix, and `CNodeCap::mint` asserts that both together have at most 32.
  new_cap-cnode :
      (bits obj_size : ℕ) (device : Bool) (addr : ℕ) (cleared : List (ℕ × ℕ))
      → 6 < bits
      → bits ≤ 48
      → new_cap profile ObjType.cnode bits obj_size device addr cleared ≡ panic
  unfolding new_cap
  new_cap-cnode bits obj_size device addr cleared low high =
      rw (mint-panic addr (bits - 6) (64 - (bits - 6)) 0 16 (omega arith)) refl

  -- A round whose address is a word.
  fill_step :
      (t : ObjType) (bits s : ℕ) (device : Bool) (base free i slot : ℕ) (slots : List ℕ)
      (m : Memory) (x : Outcome SysError (CapRaw × List (ℕ × ℕ)))
      → base + free + i * s < 2 ^ 64
      → new_cap profile t bits s device (base + free + i * s) m.cleared ≡ x
      → fill profile t bits s device base free i (slot ∷ slots) m ≡ (
          x >>= λ (cap, c).
          fill profile t bits s device base free
            (i + 1)
            slots
            (record { slots = update m.slots slot cap; cleared = c }))
  unfolding fill
  fill_step t bits s device base free i slot slots m x fits e =
      rw
        (
          checked_add-done SysError profile 64 base free (omega arith),
          checked_add-done SysError profile 64 (base + free) (i * s) fits,
          e,
        )
        refl

  pub fill-Placed :
      (t : ObjType) (bits s : ℕ) (device : Bool) (base free i : ℕ) (slots : List ℕ) (m m' : Memory)
      → fill profile t bits s device base free i slots m ≡ done m'
      → IsDistinct slots
      → 0 < s
      → base + free + (i * s + length slots * s) ≤ 2 ^ 64
      → Placed m'.slots t (base + free + i * s) s slots
        × ((a : ℕ) → has a slots ≡ false → m'.slots a ≡ m.slots a)
  unfolding fill
  fill-Placed t bits s device base free i [] m m' h d pos fits = (tt, λ a out. ground (arith, h))
  fill-Placed t bits s device base free i (slot ∷ slots) m m' h d pos fits =
      let addr = base + free + i * s in
      let word : addr < 2 ^ 64 = omega (arith, suc-mul (length slots) s) in
      elim (Outcome-cases (new_cap profile t bits s device addr m.cleared)) [
        | inl ((cap, c), e) ↦
            let m1 : Memory = record { slots = update m.slots slot cap; cleared = c } in
            let rest : fill profile t bits s device base free (i + 1) slots m1 ≡ done m' =
              sym (fill_step t bits s device base free i slot slots m (done (cap, c)) word e) ∙ h in
            let (p, kept) =
              fill-Placed t bits s device base free (i + 1) slots m1 m' rest d.1 pos
                (omega (arith, suc-mul i s, suc-mul (length slots) s)) in
            let (ty, ad) = new_cap-lem t bits s device addr m.cleared cap c e in
            let at_slot : m'.slots slot ≡ cap = kept slot d.0 ∙ update_self m.slots slot cap in
            (
              (
                ap (λ (x : CapRaw). x.cap_type) at_slot ∙ ty,
                ap (λ (x : CapRaw). x.paddr) at_slot ∙ ad,
                subst (λ (x : ℕ). Placed m'.slots t x s slots) (omega (arith, suc-mul i s)) p,
              ),
              λ a out. kept a (ground arith) ∙ ground arith,
            )
        | inr (inl (x, e)) ↦
            (let q = sym (fill_step t bits s device base free i slot slots m (err x) word e) ∙ h in
              absurd (cc))
        | inr (inr e) ↦
            (let q = sym (fill_step t bits s device base free i slot slots m panic word e) ∙ h in
              absurd (cc))
      ]

  -- A node of more than one slot is not made.
  fill-cnode :
      (bits s : ℕ) (device : Bool) (base free slot : ℕ) (slots : List ℕ) (m m' : Memory)
      → 6 < bits
      → bits ≤ 48
      → fill profile ObjType.cnode bits s device base free 0 (slot ∷ slots) m ≢ done m'
  unfolding fill
  fill-cnode bits s device base free slot slots m m' low high h =
      elim (Outcome-cases (checked_add {E = SysError} profile 64 base free)) [
        | inr (inl (x, e)) ↦ (let q = rw e at h in absurd (cc))
        | inr (inr e) ↦ (let q = rw e at h in absurd (cc))
        | inl (first, e) ↦
            elim (Outcome-cases (checked_add {E = SysError} profile 64 first (0 * s))) [
              | inr (inl (x, f)) ↦ (let q = rw (e, f) at h in absurd (cc))
              | inr (inr f) ↦ (let q = rw (e, f) at h in absurd (cc))
              | inl (addr, f) ↦
                  (let q = rw (e, f, new_cap-cnode bits s device addr m.cleared low high) at h in
                    absurd (cc))
            ]
      ]

  module _ (self : ℕ) (t : ObjType) (bits : ℕ) (slots : List ℕ) (m : Memory) where
    -- Where the free memory starts, rounded up to the alignment of the type.
    abbrev pub free : ℕ
    free = alignup (free_offset (m.slots self)) (object_alignment t bits)

    -- What a retype that succeeds has tested and done.
    pub record Retyped (m' : Memory) (s : ℕ) (m1 : Memory) : Type 0 where
      pub sized : object_size t bits ≡ some s
      pub fits : free + length slots * s ≤ size (m.slots self)
      pub filled :
          fill profile t bits s (is_device (m.slots self)) (m.slots self).paddr free 0 slots m
          ≡ done m1
      pub updated :
          (a : ℕ)
          → m'.slots a
            ≡ update m1.slots self (set_free_offset (free + length slots * s) (m1.slots self)) a

    pub retype-Retyped :
        (m' : Memory)
        → retype profile self t bits slots m ≡ done m'
        → (s : ℕ) × (m1 : Memory) × Retyped m' s m1
    unfolding retype checked
    retype-Retyped m' h = elim (Option-cases (object_size t bits)) [
      | inl n ↦ absurd (ground arith)
      | inr (s, e) ↦
          elim (Outcome-cases (
            fill profile t bits s (is_device (m.slots self)) (m.slots self).paddr free 0 slots m)) [
              | inl (m1, f) ↦ (
                s,
                m1,
                record {
                  sized = e;
                  fits = (ground arith);
                  filled = f;
                  updated = λ a. ground arith;
                },
              )
              | inr (inl (x, f)) ↦ absurd (ground arith)
              | inr (inr f) ↦ absurd (ground arith)
            ]
    ]

  object_size-cnode :
      (bits s : ℕ) → object_size ObjType.cnode bits ≡ some s → (6 ≤ bits) × (bits ≤ 48)
  unfolding object_size
  object_size-cnode bits s h = ground (arith, h)

  -- No retype to capability nodes succeeds, unless the node has a single slot or there is none to
  -- make: the guard is 64 bits less the radix, and `CNodeCap::mint` asserts that both together have
  -- at most 32.
  pub retype-cnode :
      (self bits slot : ℕ) (slots : List ℕ) (m m' : Memory)
      → retype profile self ObjType.cnode bits (slot ∷ slots) m ≡ done m'
      → bits ≡ 6
  unfolding fill
  retype-cnode self bits slot slots m m' h =
      let (s, m1, r) = retype-Retyped self ObjType.cnode bits (slot ∷ slots) m m' h in
      let (low, high) = object_size-cnode bits s r.sized in
      elim (dec_lt 6 bits) [
        | no small ↦ omega arith
        | yes big ↦ absurd (
            fill-cnode bits s (is_device (m.slots self)) (m.slots self).paddr
              (free self ObjType.cnode bits (slot ∷ slots) m) slot slots m m1 big high r.filled)
      ]
