-- ===== src/Errors.antt =====
-- ErrorCode, its numbers and its categories: include/DetourModKit/error.hpp. An error's label and detail
-- words are for logs and are not modelled.
pub mod Names
use Prim.Native.String.{String}
use detour_mod_kit.Base.{ℕ, ◌/◌, ◌%◌, List, [], ◌∷◌}

pub data ErrorCategory : Type 0 where
  general hook scan memory rtti manifest lifecycle : ErrorCategory

pub data ErrorCode : Type 0 where
  ok invalid_arg out_of_memory bad_pattern null_chain unknown : ErrorCode
  allocator_not_available invalid_target_address invalid_detour_function : ErrorCode
  invalid_trampoline_pointer hook_already_exists hook_not_found shutdown_in_progress : ErrorCode
  backend_failed enable_failed disable_failed invalid_hook_state invalid_object : ErrorCode
  vmt_hook_not_found method_already_hooked method_not_found target_already_hooked_in_process :
      ErrorCode
  reentrant_call_rejected target_prologue_unsafe unknown_error : ErrorCode
  empty_candidates no_match all_patterns_invalid prologue_fallback_not_applicable invalid_range :
      ErrorCode
  decode_failed unexpected_shape operand_out_of_range null_input prefix_not_found : ErrorCode
  region_too_small unreadable_displacement implausible_target empty_query string_not_found :
      ErrorCode
  string_ambiguous no_reference ambiguous_reference function_not_found store_not_found : ErrorCode
  prologue_identity_rejected export_not_found export_forwarded : ErrorCode
  null_target_address null_source_bytes size_too_large protection_change_failed : ErrorCode
  protection_restore_failed read_faulted write_faulted : ErrorCode
  bad_slot_address unreadable_slot no_rtti bad_descriptor heal_no_match heal_ambiguous : ErrorCode
  missing_header malformed_line file_open_failed file_write_failed : ErrorCode
  process_mismatch instance_already_running session_already_active system_call_failed : ErrorCode

unfoldable pub to_number : ErrorCode → ℕ
to_number ok = 0x0000
to_number invalid_arg = 0x0001
to_number out_of_memory = 0x0002
to_number bad_pattern = 0x0003
to_number null_chain = 0x0004
to_number unknown = 0x0005
to_number allocator_not_available = 0x0100
to_number invalid_target_address = 0x0101
to_number invalid_detour_function = 0x0102
to_number invalid_trampoline_pointer = 0x0103
to_number hook_already_exists = 0x0104
to_number hook_not_found = 0x0105
to_number shutdown_in_progress = 0x0106
to_number backend_failed = 0x0107
to_number enable_failed = 0x0108
to_number disable_failed = 0x0109
to_number invalid_hook_state = 0x010a
to_number invalid_object = 0x010b
to_number vmt_hook_not_found = 0x010c
to_number method_already_hooked = 0x010d
to_number method_not_found = 0x010e
to_number target_already_hooked_in_process = 0x010f
to_number reentrant_call_rejected = 0x0110
to_number target_prologue_unsafe = 0x0111
to_number unknown_error = 0x0112
to_number empty_candidates = 0x0200
to_number no_match = 0x0201
to_number all_patterns_invalid = 0x0202
to_number prologue_fallback_not_applicable = 0x0203
to_number invalid_range = 0x0204
to_number decode_failed = 0x0205
to_number unexpected_shape = 0x0206
to_number operand_out_of_range = 0x0207
to_number null_input = 0x0208
to_number prefix_not_found = 0x0209
to_number region_too_small = 0x020a
to_number unreadable_displacement = 0x020b
to_number implausible_target = 0x020c
to_number empty_query = 0x020d
to_number string_not_found = 0x020e
to_number string_ambiguous = 0x020f
to_number no_reference = 0x0210
to_number ambiguous_reference = 0x0211
to_number function_not_found = 0x0212
to_number store_not_found = 0x0213
to_number prologue_identity_rejected = 0x0214
to_number export_not_found = 0x0215
to_number export_forwarded = 0x0216
to_number null_target_address = 0x0300
to_number null_source_bytes = 0x0301
to_number size_too_large = 0x0302
to_number protection_change_failed = 0x0303
to_number protection_restore_failed = 0x0304
to_number read_faulted = 0x0305
to_number write_faulted = 0x0306
to_number bad_slot_address = 0x0400
to_number unreadable_slot = 0x0401
to_number no_rtti = 0x0402
to_number bad_descriptor = 0x0403
to_number heal_no_match = 0x0404
to_number heal_ambiguous = 0x0405
to_number missing_header = 0x0500
to_number malformed_line = 0x0501
to_number file_open_failed = 0x0502
to_number file_write_failed = 0x0503
to_number process_mismatch = 0x0600
to_number instance_already_running = 0x0601
to_number session_already_active = 0x0602
to_number system_call_failed = 0x0603

-- The high byte of a code.
unfoldable pub category : ErrorCode → ℕ
unfolding to_number
category code = to_number code / 256 % 256

unfoldable pub category_number : ErrorCategory → ℕ
category_number general = 0x00
category_number hook = 0x01
category_number scan = 0x02
category_number memory = 0x03
category_number rtti = 0x04
category_number manifest = 0x05
category_number lifecycle = 0x06

unfoldable pub to_string : ErrorCode → String
to_string ok = "Ok"
to_string invalid_arg = "InvalidArg"
to_string out_of_memory = "OutOfMemory"
to_string bad_pattern = "BadPattern"
to_string null_chain = "NullChain"
to_string unknown = "Unknown"
to_string allocator_not_available = "AllocatorNotAvailable"
to_string invalid_target_address = "InvalidTargetAddress"
to_string invalid_detour_function = "InvalidDetourFunction"
to_string invalid_trampoline_pointer = "InvalidTrampolinePointer"
to_string hook_already_exists = "HookAlreadyExists"
to_string hook_not_found = "HookNotFound"
to_string shutdown_in_progress = "ShutdownInProgress"
to_string backend_failed = "BackendFailed"
to_string enable_failed = "EnableFailed"
to_string disable_failed = "DisableFailed"
to_string invalid_hook_state = "InvalidHookState"
to_string invalid_object = "InvalidObject"
to_string vmt_hook_not_found = "VmtHookNotFound"
to_string method_already_hooked = "MethodAlreadyHooked"
to_string method_not_found = "MethodNotFound"
to_string target_already_hooked_in_process = "TargetAlreadyHookedInProcess"
to_string reentrant_call_rejected = "ReentrantCallRejected"
to_string target_prologue_unsafe = "TargetPrologueUnsafe"
to_string unknown_error = "UnknownError"
to_string empty_candidates = "EmptyCandidates"
to_string no_match = "NoMatch"
to_string all_patterns_invalid = "AllPatternsInvalid"
to_string prologue_fallback_not_applicable = "PrologueFallbackNotApplicable"
to_string invalid_range = "InvalidRange"
to_string decode_failed = "DecodeFailed"
to_string unexpected_shape = "UnexpectedShape"
to_string operand_out_of_range = "OperandOutOfRange"
to_string null_input = "NullInput"
to_string prefix_not_found = "PrefixNotFound"
to_string region_too_small = "RegionTooSmall"
to_string unreadable_displacement = "UnreadableDisplacement"
to_string implausible_target = "ImplausibleTarget"
to_string empty_query = "EmptyQuery"
to_string string_not_found = "StringNotFound"
to_string string_ambiguous = "StringAmbiguous"
to_string no_reference = "NoReference"
to_string ambiguous_reference = "AmbiguousReference"
to_string function_not_found = "FunctionNotFound"
to_string store_not_found = "StoreNotFound"
to_string prologue_identity_rejected = "PrologueIdentityRejected"
to_string export_not_found = "ExportNotFound"
to_string export_forwarded = "ExportForwarded"
to_string null_target_address = "NullTargetAddress"
to_string null_source_bytes = "NullSourceBytes"
to_string size_too_large = "SizeTooLarge"
to_string protection_change_failed = "ProtectionChangeFailed"
to_string protection_restore_failed = "ProtectionRestoreFailed"
to_string read_faulted = "ReadFaulted"
to_string write_faulted = "WriteFaulted"
to_string bad_slot_address = "BadSlotAddress"
to_string unreadable_slot = "UnreadableSlot"
to_string no_rtti = "NoRtti"
to_string bad_descriptor = "BadDescriptor"
to_string heal_no_match = "HealNoMatch"
to_string heal_ambiguous = "HealAmbiguous"
to_string missing_header = "MissingHeader"
to_string malformed_line = "MalformedLine"
to_string file_open_failed = "FileOpenFailed"
to_string file_write_failed = "FileWriteFailed"
to_string process_mismatch = "ProcessMismatch"
to_string instance_already_running = "InstanceAlreadyRunning"
to_string session_already_active = "SessionAlreadyActive"
to_string system_call_failed = "SystemCallFailed"

-- `Result<T>`, whose error keeps only its code.
pub data Result {ℓ} (A : Type ℓ) : Type ℓ where
  value : A → Result A
  failure : ErrorCode → Result A
