-- ===== src/Cnode/Spec/Mint.antt =====
-- What the source specifies of `CNodeCap::mint`.
use chick.Common.{ℕ, ◌≡◌, ◌≢◌, ◌∙◌, sym, arith}
use chick.Common.Outcome.{done}
use chick.Objects.{CapRaw, ObjType}
use chick.Cnode.{mint, radix_bits, guard_bits}
use chick.Cnode.Laws.{mint-fields}
use chick.Cnode.Spec.{MintValid, CnodeCapWellFormed}

mint-cap_type :
    (addr radix guard_width guard rights : ℕ) (raw : CapRaw)
    → mint addr radix guard_width guard rights ≡ done raw
    → raw.cap_type ≡ ObjType.cnode
unfolding mint
mint-cap_type addr radix guard_width guard rights raw e = ground arith

-- For valid widths and an address other than 0, `mint` returns a capability that is well formed;
-- the radix and the guard bits can be extracted from it, and it has the address, the guard and the
-- rights.
pub mint-CnodeCapWellFormed :
    (addr radix guard_width guard rights : ℕ)
    → MintValid radix guard_width
    → addr ≢ 0
    → (raw : CapRaw) × (mint addr radix guard_width guard rights ≡ done raw)
      × CnodeCapWellFormed raw
      × (radix_bits raw ≡ radix)
      × (guard_bits raw ≡ guard_width)
      × (raw.paddr ≡ addr)
      × (raw.arg2 ≡ guard)
      × (raw.rights ≡ rights)
unfolding radix_bits guard_bits mint
mint-CnodeCapWellFormed addr radix guard_width guard rights valid ne =
    let (raw, e, r, g, s, p, a, i) =
      mint-fields addr radix guard_width guard rights (omega arith) in
    (
      raw,
      e,
      record {
        cap_type = mint-cap_type addr radix guard_width guard rights raw e;
        depth = omega (arith, r, g);
        paddr = λ z. ne (sym p ∙ z);
      },
      r ∙ omega arith,
      g ∙ omega arith,
      p,
      a,
      i,
    )
