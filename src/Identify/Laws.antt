-- ===== src/Identify/Laws.antt =====
-- What `identify` tells the thread.
use chick.Common.{ℕ, ◌≡◌, ◌≢◌, ◌^◌, ◌<◌, refl, List, [], ◌∷◌, lt→ltb, arith}
use chick.Common.Outcome.{Outcome, done, panic, debug, release}
use chick.Error.{SysError}
use chick.Objects.{
  CapRaw, null_object, tcb_object, endpoint_object, vspace_object, frame_object, untyped_object,
}
use chick.Thread.{Tcb, set_mr, mr1, mr2, mr3, mr4, mr5, mr6}
use chick.Frame
use chick.Frame.{flag, bits}
use chick.VSpace
use chick.Endpoint
use chick.Untyped
use chick.Identify.{
  cap_type, paddr, identify_null, identify_tcb, identify_endpoint, identify_vspace,
  identify_untyped, identify_frame,
}

set_mr-debug : (tcb : Tcb) (mr : ℕ) → set_mr debug tcb mr1 mr ≡ panic
unfolding set_mr
set_mr-debug tcb mr = refl

-- In a debug build no `identify` returns: it sets the first message register, the one with index 0,
-- and `TrapFrame::set_mr` asserts that the index is above 0.
pub identify-debug :
    (raw : CapRaw) (tcb : Tcb)
    → (identify_null debug raw tcb ≡ panic)
      × (identify_tcb debug raw tcb ≡ panic)
      × (identify_endpoint debug raw tcb ≡ panic)
      × (identify_vspace debug raw tcb ≡ panic)
      × (identify_untyped debug raw tcb ≡ panic)
      × (identify_frame debug raw tcb ≡ panic)
unfolding identify_null identify_tcb identify_endpoint identify_vspace identify_untyped
    identify_frame
identify-debug raw tcb = (
  rw (set_mr-debug tcb (cap_type null_object)),
  rw (set_mr-debug tcb (cap_type tcb_object)),
  rw (set_mr-debug tcb (cap_type endpoint_object)),
  rw (set_mr-debug tcb (cap_type vspace_object)),
  rw (set_mr-debug tcb (cap_type untyped_object)),
  rw (set_mr-debug tcb (cap_type frame_object)),
)

-- The message registers hold the values, from the first register on, and the other registers are as
-- before.
abbrev pub Holds : Tcb → List ℕ → List ℕ → Type 0
Holds t [] vs = Unit {0}
Holds t (r ∷ rs) [] = Unit {0}
Holds t (r ∷ rs) (v ∷ vs) = (t.context.registers r ≡ v) × Holds t rs vs

-- The register is not one of those that hold the values.
abbrev pub Skips : ℕ → List ℕ → List ℕ → Type 0
Skips i [] vs = Unit {0}
Skips i (r ∷ rs) [] = Unit {0}
Skips i (r ∷ rs) (v ∷ vs) = (i ≢ r) × Skips i rs vs

-- The message registers in order.
abbrev pub mrs : List ℕ
mrs = mr1 ∷ (mr2 ∷ (mr3 ∷ (mr4 ∷ (mr5 ∷ (mr6 ∷ [])))))

-- The call returned the number of values, put these into the message registers, and changed no
-- other register.
abbrev pub Reports : Outcome SysError (ℕ × Tcb) → Tcb → ℕ → List ℕ → Type 0
Reports o tcb n vs =
    (t : Tcb) × (o ≡ done (n, t))
    × Holds t mrs vs
    × ((r : ℕ) → Skips r mrs vs → t.context.registers r ≡ tcb.context.registers r)

module _ (raw : CapRaw) (tcb : Tcb) (h : raw.paddr < 2 ^ 52) where
  paddr_fits : paddr raw ≡ done raw.paddr
  unfolding paddr
  paddr_fits = rw (lt→ltb raw.paddr (2 ^ 52) h) refl

  null-Reports : Reports (identify_null release raw tcb) tcb 1 (cap_type null_object ∷ [])
  unfolding identify_null set_mr
  null-Reports = (_, refl, (refl, tt), λ r k. ground arith)

  tcb-Reports : Reports (identify_tcb release raw tcb) tcb 1 (cap_type tcb_object ∷ [])
  unfolding identify_tcb set_mr
  tcb-Reports = (_, refl, (refl, tt), λ r k. ground arith)

  endpoint-Reports :
      Reports
        (identify_endpoint release raw tcb)
        tcb
        4
        (cap_type endpoint_object ∷ (raw.paddr ∷ (Endpoint.badge raw ∷ (raw.rights ∷ []))))
  unfolding identify_endpoint set_mr
  endpoint-Reports =
      rw (paddr_fits) (_, refl, (refl, (refl, (refl, (refl, tt)))), λ r k. ground arith)

  vspace-Reports : Reports (identify_vspace release raw tcb) tcb 4 (
      cap_type vspace_object ∷ (raw.paddr ∷ (VSpace.asid raw ∷ (flag (VSpace.is_active raw) ∷ []))))
  unfolding identify_vspace set_mr
  vspace-Reports =
      rw (paddr_fits) (_, refl, (refl, (refl, (refl, (refl, tt)))), λ r k. ground arith)

  untyped-Reports : Reports (identify_untyped release raw tcb) tcb 5 (
      cap_type untyped_object
      ∷ (raw.paddr
          ∷ (Untyped.bit_size raw
              ∷ (flag (Untyped.is_device raw) ∷ (Untyped.free_offset raw ∷ [])))))
  unfolding identify_untyped set_mr
  untyped-Reports =
      rw (paddr_fits) (_, refl, (refl, (refl, (refl, (refl, (refl, tt))))), λ r k. ground arith)

  frame-Reports : Reports (identify_frame release raw tcb) tcb 6 (
      cap_type frame_object
      ∷ (raw.paddr
          ∷ (bits (Frame.size raw)
              ∷ (flag (Frame.is_device raw)
                  ∷ (Frame.mapped_vaddr raw ∷ (Frame.mapped_asid raw ∷ []))))))
  unfolding identify_frame set_mr
  frame-Reports =
      rw (paddr_fits)
        (_, refl, (refl, (refl, (refl, (refl, (refl, (refl, tt)))))), λ r k. ground arith)

  -- In a release build `identify` of every capability type puts the type and then the fields of the
  -- capability into the message registers, returns their number, and changes no other register, for
  -- capabilities to an address of at most 52 bits.
  pub identify-Reports :
      Reports (identify_null release raw tcb) tcb 1 (0 ∷ [])
      × Reports (identify_tcb release raw tcb) tcb 1 (3 ∷ [])
      × Reports
          (identify_endpoint release raw tcb)
          tcb
          4
          (5 ∷ (raw.paddr ∷ (Endpoint.badge raw ∷ (raw.rights ∷ []))))
      × Reports
          (identify_vspace release raw tcb)
          tcb
          4
          (9 ∷ (raw.paddr ∷ (VSpace.asid raw ∷ (flag (VSpace.is_active raw) ∷ []))))
      × Reports (identify_untyped release raw tcb) tcb 5 (
          1
          ∷ (raw.paddr
              ∷ (Untyped.bit_size raw
                  ∷ (flag (Untyped.is_device raw) ∷ (Untyped.free_offset raw ∷ [])))))
      × Reports (identify_frame release raw tcb) tcb 6 (
          4
          ∷ (raw.paddr
              ∷ (bits (Frame.size raw)
                  ∷ (flag (Frame.is_device raw)
                      ∷ (Frame.mapped_vaddr raw ∷ (Frame.mapped_asid raw ∷ []))))))
  identify-Reports =
      (null-Reports, tcb-Reports, endpoint-Reports, vspace-Reports, untyped-Reports, frame-Reports)
