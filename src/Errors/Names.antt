-- ===== src/Errors/Names.antt =====
-- The numbers of the error codes.

use detour_mod_kit.Base.{
  ℕ, ◌≡◌, refl, sym, ap, ◌∙◌, List, [], ◌∷◌, Option, none, some, ◌==◌, if◌then◌else◌,
}
use detour_mod_kit.Errors.{
  ErrorCode, to_number, ok, invalid_arg, out_of_memory, bad_pattern, null_chain, unknown,
  allocator_not_available, invalid_target_address, invalid_detour_function,
  invalid_trampoline_pointer, hook_already_exists, hook_not_found, shutdown_in_progress,
  backend_failed, enable_failed, disable_failed, invalid_hook_state, invalid_object,
  vmt_hook_not_found, method_already_hooked, method_not_found, target_already_hooked_in_process,
  reentrant_call_rejected, target_prologue_unsafe, unknown_error, empty_candidates, no_match,
  all_patterns_invalid, prologue_fallback_not_applicable, invalid_range, decode_failed,
  unexpected_shape, operand_out_of_range, null_input, prefix_not_found, region_too_small,
  unreadable_displacement, implausible_target, empty_query, string_not_found, string_ambiguous,
  no_reference, ambiguous_reference, function_not_found, store_not_found,
  prologue_identity_rejected, export_not_found, export_forwarded, null_target_address,
  null_source_bytes, size_too_large, protection_change_failed, protection_restore_failed,
  read_faulted, write_faulted, bad_slot_address, unreadable_slot, no_rtti, bad_descriptor,
  heal_no_match, heal_ambiguous, missing_header, malformed_line, file_open_failed,
  file_write_failed, process_mismatch, instance_already_running, session_already_active,
  system_call_failed,
}

all_codes : List ErrorCode
all_codes =
    ok ∷ invalid_arg ∷ out_of_memory ∷ bad_pattern ∷ null_chain ∷ unknown ∷ allocator_not_available
    ∷ invalid_target_address ∷ invalid_detour_function ∷ invalid_trampoline_pointer
    ∷ hook_already_exists ∷ hook_not_found ∷ shutdown_in_progress ∷ backend_failed ∷ enable_failed
    ∷ disable_failed ∷ invalid_hook_state ∷ invalid_object ∷ vmt_hook_not_found
    ∷ method_already_hooked ∷ method_not_found ∷ target_already_hooked_in_process
    ∷ reentrant_call_rejected ∷ target_prologue_unsafe ∷ unknown_error ∷ empty_candidates ∷ no_match
    ∷ all_patterns_invalid ∷ prologue_fallback_not_applicable ∷ invalid_range ∷ decode_failed
    ∷ unexpected_shape ∷ operand_out_of_range ∷ null_input ∷ prefix_not_found ∷ region_too_small
    ∷ unreadable_displacement ∷ implausible_target ∷ empty_query ∷ string_not_found
    ∷ string_ambiguous ∷ no_reference ∷ ambiguous_reference ∷ function_not_found ∷ store_not_found
    ∷ prologue_identity_rejected ∷ export_not_found ∷ export_forwarded ∷ null_target_address
    ∷ null_source_bytes ∷ size_too_large ∷ protection_change_failed ∷ protection_restore_failed
    ∷ read_faulted ∷ write_faulted ∷ bad_slot_address ∷ unreadable_slot ∷ no_rtti ∷ bad_descriptor
    ∷ heal_no_match ∷ heal_ambiguous ∷ missing_header ∷ malformed_line ∷ file_open_failed
    ∷ file_write_failed ∷ process_mismatch ∷ instance_already_running ∷ session_already_active
    ∷ system_call_failed ∷ []

find_number : ℕ → List ErrorCode → Option ErrorCode
unfolding to_number
find_number n [] = none
find_number n (c ∷ cs) = if to_number c == n then some c else find_number n cs

find_number-to_number : (c : ErrorCode) → find_number (to_number c) all_codes ≡ some c
unfolding find_number all_codes
find_number-to_number ok = refl
find_number-to_number _ = refl

-- No two error codes have the same number.
pub to_number-injective : (c d : ErrorCode) → to_number c ≡ to_number d → c ≡ d
to_number-injective c d h =
    let same : some c ≡ some d =
      sym (find_number-to_number c)
      ∙ ap (λ n. find_number n all_codes) h
      ∙ find_number-to_number d in
    cc
