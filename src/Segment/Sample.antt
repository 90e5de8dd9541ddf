-- ===== src/Segment/Sample.antt =====
-- A table that meets `IsGdt`: the number of its next free entry.
use chick.Common.{ℕ, ◌+◌, ◌*◌, refl}
use chick.Segment.{GdtOps, IsGdt, privilege, width}

abbrev pub counter : GdtOps ℕ
counter = record { new = 1; append = λ d g. (g * 8 + privilege d, g + width d) }

pub counter-IsGdt : IsGdt counter
counter-IsGdt = record {
  next = λ g. g;
  next-new = refl;
  selector = λ d g. refl;
  next-append = λ d g. refl;
}
