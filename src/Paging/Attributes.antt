-- ===== src/Paging/Attributes.antt =====
-- kernel/src/vspace.rs: the constructors of `VMAttributes`.
use chick.Common.{ℕ, true, false}
use chick.Paging.{VmAttributes, write_back, uncacheable, rw_rights}

-- `VMAttributes::default`, `kernel`, `user` and `device`.
abbrev pub default : VmAttributes
default = record { rights = rw_rights; cache = write_back; global = false; user = true }

abbrev pub kernel : ℕ → VmAttributes
kernel rights = record { rights = rights; cache = write_back; global = true; user = false }

abbrev pub user : ℕ → VmAttributes
user rights = record { rights = rights; cache = write_back; global = false; user = true }

abbrev pub device : VmAttributes
device = record { rights = rw_rights; cache = uncacheable; global = false; user = false }
