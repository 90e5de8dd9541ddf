-- ===== src/VSpace/Map/Laws.antt =====
-- What a walk finds after a mapping, and what a mapping leaves alone.
use chick.Common.{ℕ, ◌≡◌, ◌↔◌, Bool, true, ◌⊎◌, inl, inr, refl, arith, Bool-cases, ltb, ◌^◌}
use chick.Common.Outcome.{done, err}
use chick.Error.{VSpaceError}
use chick.Objects.{CapRaw}
use chick.Paging.{VmAttributes}
use chick.Paging.Entry.{new_page, new_large_page, new_huge_page}
use chick.Paging.Entry.Laws.{
  IsFrameAddr, IsFlags, new_page-IsFlags, new_large_page-IsFlags, new_huge_page-IsFlags,
  is_present-field, is_page-huge,
}
use chick.Frame.{FrameSize, small, large, huge, is_aligned, size, vm_attributes}
use chick.VSpace.{Mmu, walk, mapped_page, not_mapped_at, write_entry, flush_page}
use chick.VSpace.Leaf.{
  leaf_level, leaf_table, leaf, leaf_index, new_leaf, IsSeparate, Avoids, walk-write_entry,
  walk-flush_page,
}
use chick.VSpace.Map.{map_4k, map_2m, map_1g, map_sized, map_frame}

module _ (offset root vaddr p : ℕ) (attr : VmAttributes) (m : Mmu) (fits : IsFrameAddr p) where
  walk-map_4k :
      IsSeparate offset root vaddr m small
      → (map_4k offset root vaddr p attr m).1 ≡ done tt
      → let m' = (map_4k offset root vaddr p attr m).0 in
        (walk offset root vaddr m' ≡ done (mapped_page p small 1))
        × (leaf offset root vaddr m' small ≡ new_page p attr)
  unfolding walk map_4k write_entry flush_page
  walk-map_4k sep h = (
    ground (arith, new_page-IsFlags p attr fits, is_present-field (new_page p attr)),
    ground arith,
  )

  walk-map_2m :
      IsSeparate offset root vaddr m large
      → (map_2m offset root vaddr p attr m).1 ≡ done tt
      → let m' = (map_2m offset root vaddr p attr m).0 in
        (walk offset root vaddr m' ≡ done (mapped_page p large 2))
        × (leaf offset root vaddr m' large ≡ new_large_page p attr)
  unfolding walk map_2m write_entry flush_page
  walk-map_2m sep h = (
    ground (
      arith,
      new_large_page-IsFlags p attr fits,
      is_present-field (new_large_page p attr),
      is_page-huge (new_large_page p attr),
    ),
    ground arith,
  )

  walk-map_1g :
      IsSeparate offset root vaddr m huge
      → (map_1g offset root vaddr p attr m).1 ≡ done tt
      → let m' = (map_1g offset root vaddr p attr m).0 in
        (walk offset root vaddr m' ≡ done (mapped_page p huge 3))
        × (leaf offset root vaddr m' huge ≡ new_huge_page p attr)
  unfolding walk map_1g write_entry flush_page
  walk-map_1g sep h = (
    ground (
      arith,
      new_huge_page-IsFlags p attr fits,
      is_present-field (new_huge_page p attr),
      is_page-huge (new_huge_page p attr),
    ),
    ground arith,
  )

module _ (offset root vaddr p : ℕ) (attr : VmAttributes) (m : Mmu) (fits : IsFrameAddr p) where
  walk-map_sized :
      (s : FrameSize)
      → IsSeparate offset root vaddr m s
      → (map_sized offset root vaddr p attr m s).1 ≡ done tt
      → let m' = (map_sized offset root vaddr p attr m s).0 in
        (walk offset root vaddr m' ≡ done (mapped_page p s (leaf_level s)))
        × ((h : ℕ) × IsFlags attr h (leaf offset root vaddr m' s))
  unfolding map_sized
  walk-map_sized small sep h =
      let (w, l) = walk-map_4k offset root vaddr p attr m fits sep h in
      (w, (0, rw l (new_page-IsFlags p attr fits).1))
  walk-map_sized large sep h =
      let (w, l) = walk-map_2m offset root vaddr p attr m fits sep h in
      (w, (1, rw l (new_large_page-IsFlags p attr fits).1))
  walk-map_sized huge sep h =
      let (w, l) = walk-map_1g offset root vaddr p attr m fits sep h in
      (w, (1, rw l (new_huge_page-IsFlags p attr fits).1))

-- When `map_frame` succeeds, a walk of the address finds the frame at its physical address, size
-- and level, and the entry has the flags that the capability's rights and cache policy ask. This
-- needs that the table written is none of the tables above it, and that the frame's address is
-- one that an entry can hold.
pub walk-map_frame :
    (offset root vaddr : ℕ) (frame : CapRaw) (user : Bool) (m : Mmu)
    → IsFrameAddr frame.paddr
    → IsSeparate offset root vaddr m (size frame)
    → (map_frame offset root vaddr frame user m).1 ≡ done tt
    → let m' = (map_frame offset root vaddr frame user m).0 in
      (walk offset root vaddr m'
        ≡ done (mapped_page frame.paddr (size frame) (leaf_level (size frame))))
      × ((h : ℕ) × IsFlags (vm_attributes user frame) h (leaf offset root vaddr m' (size frame)))
unfolding map_frame
walk-map_frame offset root vaddr frame user m fits sep h =
    elim (Bool-cases (ltb frame.paddr (2 ^ 52))) [
      | inl e ↦ rw e (
          walk-map_sized offset root vaddr frame.paddr (vm_attributes user frame) m fits
            (size frame) sep (rw e at h))
      | inr e ↦ (let q = rw e at h in absurd (cc))
    ]

-- `map_sized` succeeds exactly when both addresses are aligned to the size, the virtual address
-- is canonical and a walk ends without a page at the level of the size.
pub map_sized-done_iff :
    (offset root vaddr p : ℕ) (attr : VmAttributes) (m : Mmu) (s : FrameSize)
    → ((map_sized offset root vaddr p attr m s).1 ≡ done tt) ↔ (
        (is_aligned s vaddr ≡ true)
        × (is_aligned s p ≡ true)
        × (walk offset root vaddr m ≡ done (not_mapped_at (leaf_level s))))
unfolding map_sized map_4k map_2m map_1g walk
map_sized-done_iff offset root vaddr p attr m small = ground arith
map_sized-done_iff offset root vaddr p attr m large = ground arith
map_sized-done_iff offset root vaddr p attr m huge = ground arith

-- A mapping either succeeds, writes the one leaf entry and flushes the address, or it fails and
-- changes nothing.
pub map_sized-cases :
    (offset root vaddr p : ℕ) (attr : VmAttributes) (m : Mmu) (s : FrameSize)
    → let (m', r) = map_sized offset root vaddr p attr m s in
      ((r ≡ done tt)
        × (m'
            ≡ flush_page vaddr (
                write_entry
                  (leaf_table offset root vaddr m s)
                  (leaf_index vaddr s)
                  (new_leaf s p attr)
                  m)))
      ⊎ ((e : VSpaceError) × (r ≡ err e) × (m' ≡ m))
unfolding map_sized map_4k map_2m map_1g
map_sized-cases offset root vaddr p attr m small = ground arith
map_sized-cases offset root vaddr p attr m large = ground arith
map_sized-cases offset root vaddr p attr m huge = ground arith

-- Mapping a frame leaves alone every other address whose walk does not read the entry written.
pub walk-map_frame_ne :
    (offset root vaddr other : ℕ) (frame : CapRaw) (user : Bool) (m : Mmu)
    → Avoids offset root other m
        (leaf_table offset root vaddr m (size frame))
        (leaf_index vaddr (size frame))
    → walk offset root other (map_frame offset root vaddr frame user m).0 ≡ walk offset root other m
unfolding map_frame
walk-map_frame_ne offset root vaddr other frame user m avoids =
    elim (Bool-cases (ltb frame.paddr (2 ^ 52))) [
      | inr n ↦ rw n refl
      | inl low ↦
          rw low
            (elim (map_sized-cases offset root vaddr frame.paddr (vm_attributes user frame) m
              (size frame)) [
                | inl (d, e) ↦
                    rw (e, walk-flush_page offset root other)
                      (walk-write_entry offset root other _ _ _ m avoids)
                | inr (x, d, e) ↦ rw e refl
              ])
    ]

-- The state after a mapping that succeeds.
pub map_frame-done :
    (offset root vaddr : ℕ) (frame : CapRaw) (user : Bool) (m : Mmu)
    → (map_frame offset root vaddr frame user m).1 ≡ done tt
    → (map_frame offset root vaddr frame user m).0
      ≡ flush_page vaddr (
          write_entry
            (leaf_table offset root vaddr m (size frame))
            (leaf_index vaddr (size frame))
            (new_leaf (size frame) frame.paddr (vm_attributes user frame))
            m)
unfolding map_frame
map_frame-done offset root vaddr frame user m h = elim (Bool-cases (ltb frame.paddr (2 ^ 52))) [
  | inr n ↦ (let q = rw n at h in absurd (cc))
  | inl low ↦
      rw low
        (elim (map_sized-cases offset root vaddr frame.paddr (vm_attributes user frame) m
          (size frame)) [
            | inl (d, e) ↦ e
            | inr (x, d, e) ↦ (let q = rw (low, d) at h in absurd (cc))
          ])
]
