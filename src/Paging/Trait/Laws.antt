-- ===== src/Paging/Trait/Laws.antt =====
-- The four entry types behind their trait.
use chick.Common.{
  ◌≡◌, ◌≢◌, ◌⊎◌, inl, inr, refl, ℕ, true, false, bit_and, ◌==◌, none, arith, Bool-cases,
}
use chick.Paging.Entry.{
  Level, pml4, pdpt, page_directory, pt, present, is_present as present_at, is_table as table_at,
  is_page as page_at, entry_paddr, invalid as invalid_entry,
}
use chick.Paging.Trait.{entry_of, next_level, page_bits}

-- The four implementations are one function of the level: they agree with the tests by which the
-- walks read entries.
pub entry_of-tests :
    (l : Level) (e : ℕ)
    → ((entry_of l).is_present e ≡ present_at e)
      × ((entry_of l).is_table e ≡ table_at l e)
      × ((entry_of l).is_page e ≡ page_at l e)
      × ((entry_of l).paddr e ≡ entry_paddr e)
      × ((entry_of l).invalid ≡ invalid_entry)
unfolding present_at table_at page_at entry_paddr
entry_of-tests pml4 e = (refl, refl, refl, refl, refl)
entry_of-tests pdpt e = (refl, refl, refl, refl, refl)
entry_of-tests page_directory e = (refl, refl, refl, refl, refl)
entry_of-tests pt e = (refl, refl, refl, refl, refl)

-- At every level a present entry is a table or a page and never both, an absent entry is neither,
-- and an invalid entry is absent. An entry is a page only at a level that maps pages, and a table
-- only at a level that has a level below.
pub entry_of-cases :
    (l : Level) (e : ℕ)
    → let t = entry_of l in
      (((t.is_present e ≡ true) × (t.is_table e ≡ true) × (t.is_page e ≡ false))
        ⊎ ((t.is_present e ≡ true) × (t.is_table e ≡ false) × (t.is_page e ≡ true))
        ⊎ ((t.is_present e ≡ false) × (t.is_table e ≡ false) × (t.is_page e ≡ false)))
      × (t.is_present t.invalid ≡ false)
      × ((t.is_page e ≡ false) ⊎ (page_bits l ≢ none))
      × ((t.is_table e ≡ false) ⊎ (next_level l ≢ none))
entry_of-cases l e = (kinds l, absent l, pages l, tables l)
  where
    kinds :
        (l : Level)
        → let t = entry_of l in
          ((t.is_present e ≡ true) × (t.is_table e ≡ true) × (t.is_page e ≡ false))
          ⊎ ((t.is_present e ≡ true) × (t.is_table e ≡ false) × (t.is_page e ≡ true))
          ⊎ ((t.is_present e ≡ false) × (t.is_table e ≡ false) × (t.is_page e ≡ false))
    kinds l = elim (Bool-cases (bit_and e present == 0)) [
      | inl p ↦ inr (inr (ground (arith, p)))
      | inr p ↦ elim (Bool-cases ((entry_of l).is_table e)) [
        | inl q ↦ inl (ground (arith, p), q, ground (arith, p, q))
        | inr q ↦ inr (inl (ground (arith, p), q, ground (arith, p, q)))
      ]
    ]

    absent : (l : Level) → (entry_of l).is_present (entry_of l).invalid ≡ false
    absent l = ground arith

    pages : (l : Level) → ((entry_of l).is_page e ≡ false) ⊎ (page_bits l ≢ none)
    pages pml4 = inl refl
    pages pdpt = inr (λ n. cc)
    pages page_directory = inr (λ n. cc)
    pages pt = inr (λ n. cc)

    tables : (l : Level) → ((entry_of l).is_table e ≡ false) ⊎ (next_level l ≢ none)
    tables pml4 = inr (λ n. cc)
    tables pdpt = inr (λ n. cc)
    tables page_directory = inr (λ n. cc)
    tables pt = inl refl
