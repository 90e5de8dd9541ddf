-- ===== src/Tlb/Laws.antt =====
-- Which translations the flushes leave in the TLB.
use chick.Common.{ℕ, ◌/◌, ◌≡◌, refl, false, not, ◌&&◌, ◌||◌, ◌==◌, arith, bit_and, bit_or}
use chick.Common.Bits.{field, lnot, field-or, field-and, or-one, and-zero}
use chick.Tlb.{
  Translation, Cpu, current, pge, exec, flush_page, flush_all, invalidate_pcid,
  flush_all_non_global, dsb, isb, step, removed_by,
}

cr4-pge : (x : ℕ) → (pge (bit_or x 128) ≡ 1) × (pge (bit_and x (lnot 128)) ≡ 0)
cr4-pge x = (
  rw (field-or 7 1 x 128) (or-one (field 7 1 x) (omega arith)),
  rw (field-and 7 1 x (lnot 128)) (and-zero (field 7 1 x)),
)

-- The second write of CR4 changes the bit for global pages, which empties the TLB.
flush_all_non_global-cached :
    (c : Cpu) (e : Translation) → (exec flush_all_non_global c).cached e ≡ false
unfolding exec step
flush_all_non_global-cached c e =
    let cleared : pge (bit_and c.cr4 (lnot 128)) ≡ 0 = (cr4-pge c.cr4).1 in
    let set : pge (bit_or (bit_and c.cr4 (lnot 128)) 128) ≡ 1 =
      (cr4-pge (bit_and c.cr4 (lnot 128))).0 in
    ground (arith, cleared, set)

-- What the flushes leave in the TLB. `flush_page`: all but the translations of the page that are
-- global or of the current identifier. `flush_all`: all but those of the current identifier that are
-- not global, so global ones stay. `flush_all_non_global`: nothing, so global ones go too.
-- `invalidate_pcid`: all but the translation of page 0 of the identifier, so the others of the
-- identifier stay. The two barriers change neither the TLB nor a register nor the stack.
pub exec-cached :
    (vaddr pcid : ℕ) (c : Cpu) (e : Translation)
    → ((exec (flush_page vaddr) c).cached e ≡ (
        c.cached e && not (e.page == vaddr / 4096 && (e.global || e.pcid == current c.cr3 c.cr4))))
      × ((exec flush_all c).cached e
          ≡ (c.cached e && (e.global || not (e.pcid == current c.cr3 c.cr4))))
      × ((exec flush_all_non_global c).cached e ≡ false)
      × ((exec (invalidate_pcid pcid) c).cached e
          ≡ (c.cached e && not (not e.global && (e.pcid == pcid && e.page == 0))))
      × (exec dsb c ≡ c)
      × (exec isb c ≡ c)
unfolding exec step removed_by
exec-cached vaddr pcid c e = (refl, refl, flush_all_non_global-cached c e, refl, refl, refl)
