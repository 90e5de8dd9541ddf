-- ===== src/Error.antt =====
-- kernel/src/error.rs: system errors, errors of page table operations, and the conversion.
use chick.Common.{ℕ, Bool, true, false}

pub data SysError : Type 0 where
  none_error cspace_not_found capability_type_error lookup_error unable_to_derive : SysError
  slot_not_empty slot_empty unsupported_syscall_op vspace_cap_mapped : SysError
  vspace_cap_not_mapped vspace_table_miss vspace_slot_occupied vspace_permission_error : SysError
  invalid_value size_too_small out_of_memory frame_already_mapped frame_not_mapped : SysError
  invalid_operation alignment_error range_error revoke_failed delete_failed : SysError

-- `self as usize`: the discriminants count up from `None = 0`.
pub as_code : SysError → ℕ
as_code none_error = 0
as_code cspace_not_found = 1
as_code capability_type_error = 2
as_code lookup_error = 3
as_code unable_to_derive = 4
as_code slot_not_empty = 5
as_code slot_empty = 6
as_code unsupported_syscall_op = 7
as_code vspace_cap_mapped = 8
as_code vspace_cap_not_mapped = 9
as_code vspace_table_miss = 10
as_code vspace_slot_occupied = 11
as_code vspace_permission_error = 12
as_code invalid_value = 13
as_code size_too_small = 14
as_code out_of_memory = 15
as_code frame_already_mapped = 16
as_code frame_not_mapped = 17
as_code invalid_operation = 18
as_code alignment_error = 19
as_code range_error = 20
as_code revoke_failed = 21
as_code delete_failed = 22

pub is_ok : SysError → Bool
is_ok none_error = true
is_ok _ = false

pub data VSpaceError : Type 0 where
  invalid_vaddr misaligned_paddr misaligned_vaddr already_mapped not_mapped : VSpaceError
  missing_table unsupported_page_size invalid_asid allocation_failed : VSpaceError

-- `From<VSpaceError> for SysError`.
pub from : VSpaceError → SysError
from invalid_vaddr = invalid_value
from misaligned_paddr = invalid_value
from misaligned_vaddr = invalid_value
from already_mapped = frame_already_mapped
from not_mapped = lookup_error
from missing_table = lookup_error
from unsupported_page_size = invalid_value
from invalid_asid = invalid_value
from allocation_failed = out_of_memory
