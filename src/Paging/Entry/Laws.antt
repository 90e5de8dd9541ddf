-- ===== src/Paging/Entry/Laws.antt =====
-- Entries keep the address and the flags that they are built from.
use chick.Common.{
  ℕ, ◌≡◌, refl, true, not, bit_and, bit_or, ◌==◌, if◌then◌else◌, ◌^◌, ◌*◌, ◌/◌, ◌%◌, ◌<◌, arith,
  ◌∙◌,
}
use chick.Common.Bits.{
  field, field-and, field-or, and-mask, and-low, and-shr, and-zero, or-zero, zero-or,
}
use chick.Objects.CapRights
use chick.Objects.CapRights.{includes}
use chick.Paging.{VmAttributes, policy_bits}
use chick.Paging.Entry.{
  addr_mask, huge_page, build_flags, new_table, new_page, entry_paddr, is_present as present_test,
  is_page, is_table, pdpt, page_directory, new_large_page, new_huge_page,
}

-- `e & ADDR_MASK` is bits 12 to 51 of `e`, in place.
pub entry_paddr-field : (e : ℕ) → entry_paddr e ≡ field 12 40 e * 2 ^ 12
unfolding entry_paddr
entry_paddr-field e = omega (
  arith,
  and-shr 12 e addr_mask,
  and-mask 40 (e / 2 ^ 12),
  and-low 12 e addr_mask,
  and-zero (e % 2 ^ 12),
)

-- What the flags of a word say; `huge` is the bit that makes a page of an upper entry.
pub record IsFlags (attr : VmAttributes) (huge e : ℕ) : Type 0 where
  pub is_present : field 0 1 e ≡ 1
  pub can_write : field 1 1 e ≡ (if includes attr.rights CapRights.write then 1 else 0)
  pub is_user : field 2 1 e ≡ (if attr.user then 1 else 0)
  pub cache : field 3 2 e ≡ policy_bits attr.cache
  pub is_huge : field 7 1 e ≡ huge
  pub is_global : field 8 1 e ≡ (if attr.global then 1 else 0)
  pub no_execute : field 63 1 e ≡ (if includes attr.rights CapRights.execute then 0 else 1)

build_flags-no_address : (attr : VmAttributes) → field 12 40 (build_flags attr) ≡ 0
unfolding build_flags
build_flags-no_address attr = ground arith

build_flags-IsFlags : (attr : VmAttributes) → IsFlags attr 0 (build_flags attr)
unfolding build_flags
build_flags-IsFlags attr = record {
  is_present = ground arith;
  can_write = ground arith;
  is_user = ground arith;
  cache = ground arith;
  is_huge = ground arith;
  is_global = ground arith;
  no_execute = ground arith;
}

-- With `HUGE_PAGE` added the other flags stay.
huge-IsFlags : (attr : VmAttributes) → IsFlags attr 1 (bit_or (build_flags attr) huge_page)
huge-IsFlags attr = record {
  is_present = rw (field-or 0 1 (build_flags attr) huge_page, f.is_present);
  can_write = rw (field-or 1 1 (build_flags attr) huge_page, or-zero) f.can_write;
  is_user = rw (field-or 2 1 (build_flags attr) huge_page, or-zero) f.is_user;
  cache = rw (field-or 3 2 (build_flags attr) huge_page, or-zero) f.cache;
  is_huge = rw (field-or 7 1 (build_flags attr) huge_page, f.is_huge);
  is_global = rw (field-or 8 1 (build_flags attr) huge_page, or-zero) f.is_global;
  no_execute = rw (field-or 63 1 (build_flags attr) huge_page, or-zero) f.no_execute;
}
  where
    f : IsFlags attr 0 (build_flags attr)
    f = build_flags-IsFlags attr

module _ (p f : ℕ) where
  -- A field outside the address comes from the flags, the address from the address.
  field-outside :
      (k w : ℕ) → field k w addr_mask ≡ 0 → field k w (bit_or (bit_and p addr_mask) f) ≡ field k w f
  field-outside k w h =
      rw (field-or k w (bit_and p addr_mask) f, field-and k w p addr_mask, h, and-zero)
        (zero-or (field k w f))

  entry_paddr-or :
      field 12 40 f ≡ 0 → entry_paddr (bit_or (bit_and p addr_mask) f) ≡ field 12 40 p * 2 ^ 12
  entry_paddr-or h =
      rw
        (
          entry_paddr-field (bit_or (bit_and p addr_mask) f),
          field-or 12 40 (bit_and p addr_mask) f,
          field-and 12 40 p addr_mask,
          h,
          and-mask 40 (field 12 40 p),
          or-zero,
        )
        (omega arith)

  entry-IsFlags :
      {attr : VmAttributes} {huge : ℕ}
      → IsFlags attr huge f
      → IsFlags attr huge (bit_or (bit_and p addr_mask) f)
  entry-IsFlags s = record {
    is_present = field-outside 0 1 refl ∙ s.is_present;
    can_write = field-outside 1 1 refl ∙ s.can_write;
    is_user = field-outside 2 1 refl ∙ s.is_user;
    cache = field-outside 3 2 refl ∙ s.cache;
    is_huge = field-outside 7 1 refl ∙ s.is_huge;
    is_global = field-outside 8 1 refl ∙ s.is_global;
    no_execute = field-outside 63 1 refl ∙ s.no_execute;
  }

-- An address that an entry can hold: aligned to 4 KiB and below 2 ^ 52.
abbrev pub IsFrameAddr : ℕ → Type 0
IsFrameAddr p = (p % 4096 ≡ 0) × (p < 2 ^ 52)

module _ (p : ℕ) (attr : VmAttributes) (fits : IsFrameAddr p) where
  -- A 4 KiB entry gives back the address of the frame that it is built from, and its flags say
  -- what the attributes ask: present, writable, user, global, executable and cache policy.
  pub new_page-IsFlags : (entry_paddr (new_page p attr) ≡ p) × IsFlags attr 0 (new_page p attr)
  unfolding new_page
  new_page-IsFlags = (
    entry_paddr-or p (build_flags attr) (build_flags-no_address attr) ∙ omega arith,
    entry-IsFlags p (build_flags attr) (build_flags-IsFlags attr),
  )

  huge-no_address : field 12 40 (bit_or (build_flags attr) huge_page) ≡ 0
  huge-no_address = rw (field-or 12 40 (build_flags attr) huge_page, build_flags-no_address attr)

  -- The same for a 2 MiB page, whose entry also has `HUGE_PAGE`.
  pub new_large_page-IsFlags :
      (entry_paddr (new_large_page p attr) ≡ p) × IsFlags attr 1 (new_large_page p attr)
  unfolding new_large_page
  new_large_page-IsFlags = (
    entry_paddr-or p (bit_or (build_flags attr) huge_page) huge-no_address ∙ omega arith,
    entry-IsFlags p (bit_or (build_flags attr) huge_page) (huge-IsFlags attr),
  )

  -- The same for a 1 GiB page.
  pub new_huge_page-IsFlags :
      (entry_paddr (new_huge_page p attr) ≡ p) × IsFlags attr 1 (new_huge_page p attr)
  unfolding new_huge_page
  new_huge_page-IsFlags = (
    entry_paddr-or p (bit_or (build_flags attr) huge_page) huge-no_address ∙ omega arith,
    entry-IsFlags p (bit_or (build_flags attr) huge_page) (huge-IsFlags attr),
  )

-- The tests that the walks make, read from the fields.
pub is_present-field : (e : ℕ) → present_test e ≡ not (field 0 1 e == 0)
unfolding present_test
is_present-field e = rw (and-mask 1 e) (ground arith)

huge-field : (e : ℕ) → (bit_and e huge_page == 0) ≡ (field 7 1 e == 0)
huge-field e = ground (
  arith,
  and-shr 7 e huge_page,
  and-mask 1 (e / 2 ^ 7),
  and-low 7 e huge_page,
  and-zero (e % 2 ^ 7),
)

-- At a level that has pages and tables, `HUGE_PAGE` tells which a present entry is.
pub is_page-huge :
    (e : ℕ)
    → present_test e ≡ true
    → (is_page pdpt e ≡ not (field 7 1 e == 0))
      × (is_page page_directory e ≡ not (field 7 1 e == 0))
      × (is_table pdpt e ≡ (field 7 1 e == 0))
      × (is_table page_directory e ≡ (field 7 1 e == 0))
unfolding is_page is_table
is_page-huge e h = rw (h, huge-field e) (refl, refl, refl, refl)

module _ (p : ℕ) where
  table_field :
      (k w : ℕ)
      → field k w (new_table p)
        ≡ bit_or
            (bit_or (bit_or (field k w (bit_and p addr_mask)) (field k w 1)) (field k w 2))
            (field k w 4)
  unfolding new_table
  table_field k w = rw (
    field-or k w (bit_or (bit_or (bit_and p addr_mask) 1) 2) 4,
    field-or k w (bit_or (bit_and p addr_mask) 1) 2,
    field-or k w (bit_and p addr_mask) 1,
  )

  -- A table entry is present, no page, and gives back the address of the table.
  pub new_table-is_table :
      IsFrameAddr p
      → (entry_paddr (new_table p) ≡ p)
        × (field 0 1 (new_table p) ≡ 1)
        × (field 7 1 (new_table p) ≡ 0)
  new_table-is_table fits = (
    rw
        (
          entry_paddr-field (new_table p),
          table_field 12 40,
          field-and 12 40 p addr_mask,
          and-mask 40 (field 12 40 p),
          or-zero,
          or-zero,
          or-zero,
        )
        (omega arith),
    rw (table_field 0 1, field-and 0 1 p addr_mask, and-zero),
    rw (table_field 7 1, field-and 7 1 p addr_mask, and-zero),
  )
