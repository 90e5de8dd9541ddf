-- ===== src/Cspace/Laws.antt =====
-- The lookup finds the slot that the address describes, bit field by bit field, and ends.
use chick.Common.{
  ℕ, ◌+◌, ◌-◌, ◌*◌, ◌/◌, ◌%◌, ◌^◌, ◌≤◌, ◌<◌, ◌≡◌, ◌≢◌, inl, inr, ◌∙◌, some, ◌==◌, if◌then◌else◌,
  arith, Bool-cases, bit_and,
}
use native.Mathlib.Nat.{mod-lt, one-le-pow}
use chick.Common.Bits.{shr, mask, and-mask}
use chick.Common.Outcome.{done, debug}
use chick.Objects.{CapRaw, ObjType}
use chick.Cnode.{Slots, try_from_slot, radix_bits, guard_bits, slot_at, slot_size}
use chick.Cnode.Laws.{size-pow}
use chick.Cspace.{ResolveResult, Progress, slot_index, proceed, resolve_round}

abbrev pub level_bits : CapRaw → ℕ
level_bits raw = radix_bits raw + guard_bits raw

-- The node at `current` takes bits of an address of `n` bits: it takes some and not too many, and
-- the highest of them are its guard.
pub record Matches (cptr : ℕ) (mem : Slots) (current n : ℕ) : Type 0 where
  pub is_node : (mem current).cap_type ≡ ObjType.cnode
  pub takes_some : 0 < level_bits (mem current)
  pub fits : level_bits (mem current) ≤ n
  pub guard_matches :
      cptr / 2 ^ (n - guard_bits (mem current)) % 2 ^ guard_bits (mem current) ≡ (mem current).arg2

-- The slot of the node that the bits behind the guard count off.
abbrev pub child : ℕ → Slots → ℕ → ℕ → ℕ
child cptr mem current n =
    (mem current).paddr
    + cptr / 2 ^ (n - level_bits (mem current)) % 2 ^ radix_bits (mem current) * slot_size

-- What an address of `n` bits means from a node on: the slot, and the bits that are left.
pub data Resolves (cptr : ℕ) (mem : Slots) : ℕ → ℕ → ResolveResult → Type 0 where
  at_end :
      {current n : ℕ}
      → Matches cptr mem current n
      → n ≡ level_bits (mem current)
      → Resolves cptr mem current n (record { slot = child cptr mem current n; bits_remaining = 0 })
  at_leaf :
      {current n : ℕ}
      → Matches cptr mem current n
      → level_bits (mem current) < n
      → (mem (child cptr mem current n)).cap_type ≢ ObjType.cnode
      → Resolves cptr mem current n (record {
        slot = child cptr mem current n;
        bits_remaining = n - level_bits (mem current);
      })
  below :
      {current n : ℕ} {r : ResolveResult}
      → Matches cptr mem current n
      → level_bits (mem current) < n
      → (mem (child cptr mem current n)).cap_type ≡ ObjType.cnode
      → Resolves cptr mem (child cptr mem current n) (n - level_bits (mem current)) r
      → Resolves cptr mem current n r

guard-lem :
    (cptr n g : ℕ)
    → g ≤ n
    → n < 64
    → (if g == 0
        then 0
        else bit_and (shr cptr (bit_and ((n + 2 ^ 64 - g) % 2 ^ 64) (mask 6))) (mask g))
      ≡ cptr / 2 ^ (n - g) % 2 ^ g
guard-lem cptr n g h small =
    let shift : bit_and ((n + 2 ^ 64 - g) % 2 ^ 64) (mask 6) ≡ n - g =
      and-mask 6 ((n + 2 ^ 64 - g) % 2 ^ 64) ∙ omega arith in
    rw (shift, and-mask g (shr cptr (n - g)))
      (elim (Bool-cases (g == 0)) [ inl z ↦ ground arith | inr p ↦ ground arith ])

index-lem :
    (cptr k radix : ℕ) → k < 64 → slot_index debug cptr k radix ≡ done (cptr / 2 ^ k % 2 ^ radix)
unfolding slot_index
index-lem cptr k radix small = ground (arith, and-mask radix (cptr / 2 ^ k))

slot-lem :
    (raw : CapRaw) (i : ℕ)
    → i < 2 ^ radix_bits raw
    → slot_at raw i ≡ some (raw.paddr + i * slot_size)
unfolding slot_at
slot-lem raw i h = rw (size-pow raw) (ground arith)

module _ (cptr n : ℕ) (mem : Slots) (current : ℕ) (small : n < 64) where
  -- A round at a node that matches goes on with the slot that the address counts off.
  pub round-Matches :
      Matches cptr mem current n
      → resolve_round debug current cptr n mem
        ≡ done (proceed (child cptr mem current n) n (level_bits (mem current)) mem)
  unfolding resolve_round try_from_slot
  round-Matches m =
      let c = mem current in
      let index = cptr / 2 ^ (n - level_bits c) in
      ground (
        arith,
        guard-lem cptr n (guard_bits c) (omega (arith, m.fits)) small,
        index-lem cptr (n - level_bits c) (radix_bits c) (omega arith),
        slot-lem c (index % 2 ^ radix_bits c)
            (mod-lt index (one-le-pow (radix_bits c) 2 (ground arith))),
      )

  -- A round that ends without an error is at a node that matches.
  pub round-done :
      (p : Progress) → resolve_round debug current cptr n mem ≡ done p → Matches cptr mem current n
  unfolding resolve_round try_from_slot
  round-done p h =
      let c = mem current in
      let fits : level_bits c ≤ n = ground arith in
      record {
        is_node = ground arith;
        takes_some = ground arith;
        fits = fits;
        guard_matches = ground (arith, guard-lem cptr n (guard_bits c) (omega arith) small);
      }
