-- ===== src/Examples/Frame.antt =====
-- Capabilities of objects/frame.rs.
use chick.Common.{◌≡◌, refl, true, false}
use chick.Objects.{CapRaw}
use chick.Paging.{uncacheable}
use chick.Frame.{large, mint_with_cache, is_mapped}

abbrev frame : CapRaw
unfolding mint_with_cache
frame = mint_with_cache 0x200000 large true uncacheable 7

frame_not_mapped : is_mapped frame ≡ false
unfolding is_mapped mint_with_cache
frame_not_mapped = refl
