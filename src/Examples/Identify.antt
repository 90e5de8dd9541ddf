-- ===== src/Examples/Identify.antt =====
-- `identify` of a badged endpoint, and of a frame.
use chick.Common.{[], ◌∷◌, arith}
use chick.Common.Outcome.{release}
use chick.Objects.{CapRaw}
use chick.Thread.{new}
use chick.Frame
use chick.Frame.{flag, bits}
use chick.VSpace
use chick.Endpoint
use chick.Untyped
use chick.Identify.{
  identify_null, identify_tcb, identify_endpoint, identify_vspace, identify_untyped, identify_frame,
}
use chick.Identify.Laws.{Reports, identify-Reports}

abbrev badged : CapRaw
unfolding Endpoint.mint
badged = Endpoint.mint 0x5000 7 0x20

identify-Reports_example :
    Reports (identify_null release badged new) new 1 (0 ∷ [])
    × Reports (identify_tcb release badged new) new 1 (3 ∷ [])
    × Reports
        (identify_endpoint release badged new)
        new
        4
        (5 ∷ (0x5000 ∷ (Endpoint.badge badged ∷ (badged.rights ∷ []))))
    × Reports
        (identify_vspace release badged new)
        new
        4
        (9 ∷ (0x5000 ∷ (VSpace.asid badged ∷ (flag (VSpace.is_active badged) ∷ []))))
    × Reports (identify_untyped release badged new) new 5 (
        1
        ∷ (0x5000
            ∷ (Untyped.bit_size badged
                ∷ (flag (Untyped.is_device badged) ∷ (Untyped.free_offset badged ∷ [])))))
    × Reports (identify_frame release badged new) new 6 (
        4
        ∷ (0x5000
            ∷ (bits (Frame.size badged)
                ∷ (flag (Frame.is_device badged)
                    ∷ (Frame.mapped_vaddr badged ∷ (Frame.mapped_asid badged ∷ []))))))
unfolding badged
identify-Reports_example = identify-Reports badged new (omega arith)
