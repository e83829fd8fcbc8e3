-- ===== src/Memory/Rip.antt =====
-- The RIP-relative resolvers.
pub mod Target
pub mod Occurs
pub mod Search
use detour_mod_kit.Base.{
  ℕ, zero, suc, ◌+◌, ◌-◌, ◌*◌, ◌%◌, ◌^◌, Bool, true, false, ◌&&◌, ◌||◌, List, [], ◌∷◌, Option, none,
  some, ltb, leb, ◌==◌, if◌then◌else◌, length,
}
use detour_mod_kit.Base.Int.{ℤ, pos, negsuc}
use detour_mod_kit.Text.{text_eq}
use detour_mod_kit.Errors.{
  ErrorCode, null_input, invalid_arg, unreadable_displacement, implausible_target, region_too_small,
  prefix_not_found, Result, value, failure,
}
use detour_mod_kit.Memory.{word, Memory, is_plausible_ptr, to_word, read_bytes, guarded_read}

abbrev pub max_x86_instruction_length : ℕ
max_x86_instruction_length = 15

unfoldable pub is_valid_rip_relative_layout : ℕ → ℕ → Bool
is_valid_rip_relative_layout displacement_offset instruction_length =
    leb instruction_length max_x86_instruction_length
    && leb displacement_offset instruction_length
    && leb 4 (instruction_length - displacement_offset)

-- A 32-bit pattern sign-extended to 64 bits.
abbrev pub sign_extend : ℕ → ℕ
sign_extend d = if ltb d (2 ^ 31) then d else d + (word - 2 ^ 32)

screened : ℕ → Result ℕ
screened target = if is_plausible_ptr target then value target else failure implausible_target

displaced : ℕ → Option ℕ → Result ℕ
unfolding screened
displaced next none = failure unreadable_displacement
displaced next (some d) = screened ((next + sign_extend d) % word)

unfoldable pub resolve_rip_relative : Memory → ℕ → ℕ → ℕ → Result ℕ
unfolding displaced
resolve_rip_relative mem instruction displacement_offset instruction_length =
    let displacement = guarded_read mem 4 ((instruction + displacement_offset) % word) in
    if instruction == 0
    then failure null_input
    else if is_valid_rip_relative_layout displacement_offset instruction_length
    then displaced (instruction + instruction_length) displacement
    else failure invalid_arg

plausible : ℕ → Option ℕ
plausible resolved = if is_plausible_ptr resolved then some resolved else none

-- Of a ladder's candidate. The next instruction's address is taken as signed, which adds alike.
candidate_displaced : ℕ → Option ℕ → Option ℕ
unfolding plausible
candidate_displaced next none = none
candidate_displaced next (some d) = plausible ((next + sign_extend d) % word)

unfoldable pub resolve_rip_relative_candidate : Memory → ℕ → ℤ → ℕ → Option ℕ
unfolding candidate_displaced
resolve_rip_relative_candidate mem found displacement_at instruction_length =
    candidate_displaced ((found + instruction_length) % word)
      (guarded_read mem 4 ((found + to_word displacement_at) % word))

unfoldable pub resolve_direct : ℕ → ℤ → Option ℕ
unfolding plausible
resolve_direct found walk_back = plausible ((found + to_word walk_back) % word)

-- Whether the opcode prefix stands at an address: its first byte, then `memcmp` of the others. These
-- reads are not guarded, and `none` is their fault.
compare_rest : List ℕ → Option (List ℕ) → Option Bool
compare_rest rest none = none
compare_rest rest (some bs) = some (text_eq bs rest)

unfoldable pub prefix_at : Memory → List ℕ → ℕ → Option Bool
unfolding compare_rest
prefix_at mem [] address = some true
prefix_at mem (first ∷ rest) address = elim (mem address) [
  | none ↦ none
  | some b ↦
      let tail = compare_rest rest (read_bytes mem (address + 1) (length rest)) in
      if b == first then tail else some false
]

-- The error behind the loop.
unfoldable pub why : Option ErrorCode → ErrorCode
why none = prefix_not_found
why (some c) = c

abbrev continue_with : Result ℕ → (ErrorCode → Option (Result ℕ)) → Option (Result ℕ)
continue_with (value t) next = some (value t)
continue_with (failure c) next = next c

-- The loop from index `i`, with the rounds that are left and the last failure.
unfoldable pub find_loop : Memory → ℕ → List ℕ → ℕ → ℕ → ℕ → Option ErrorCode → Option (Result ℕ)
find_loop mem base prefix len zero i last = some (failure (why last))
find_loop mem base prefix len (suc n) i last = elim (prefix_at mem prefix (base + i)) [
  | none ↦ none
  | some false ↦ find_loop mem base prefix len n (i + 1) last
  | some true ↦
      continue_with (resolve_rip_relative mem (base + i) (length prefix) len)
        (λ c. find_loop mem base prefix len n (i + 1) (some c))
]

unfoldable pub find_and_resolve_rip_relative : Memory → ℕ → ℕ → List ℕ → ℕ → Option (Result ℕ)
find_and_resolve_rip_relative mem base size prefix len =
    let min_bytes = length prefix + 4 in
    if base == 0 || length prefix == 0
    then some (failure null_input)
    else if is_valid_rip_relative_layout (length prefix) len
    then if ltb size min_bytes
      then some (failure region_too_small)
      else find_loop mem base prefix len (size - min_bytes + 1) 0 none
    else some (failure invalid_arg)
