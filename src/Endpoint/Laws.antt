-- ===== src/Endpoint/Laws.antt =====
-- Endpoint capabilities give back what they are minted with.
use chick.Common.{ℕ, ◌≡◌, ◌%◌, ◌/◌, ◌^◌, refl, ◌∙◌, arith, bit_and}
use chick.Common.Bits.{and-mask, mask}
use chick.Objects.CapRights
use chick.Objects.CapRights.{includes}
use chick.Endpoint.{mint, badge, can_send, can_receive, can_grant}

-- A minted capability has the low 28 bits of the badge, the address of the endpoint and the
-- rights; it may send, receive or grant exactly if the rights include that.
pub mint-badge :
    (paddr b rights : ℕ)
    → let raw = mint paddr b rights in
      (badge raw ≡ b % 2 ^ 28)
      × (raw.paddr ≡ paddr)
      × (can_send raw ≡ includes rights CapRights.send)
      × (can_receive raw ≡ includes rights CapRights.receive)
      × (can_grant raw ≡ includes rights CapRights.grant)
unfolding mint badge can_send can_receive can_grant
mint-badge paddr b rights =
    (and-mask 28 (bit_and b (mask 28) / 1) ∙ omega (arith, and-mask 28 b), refl, refl, refl, refl)
