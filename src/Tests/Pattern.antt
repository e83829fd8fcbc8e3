-- ===== src/Tests/Pattern.antt =====
-- The pattern core on two patterns and a window.
use detour_mod_kit.Base.{ℕ, ◌≤◌, ◌≡◌, ◌↔◌, refl, true, List, [], ◌∷◌, some, arith}
use detour_mod_kit.Text.{Text, codes}
use detour_mod_kit.Pattern.{
  PatternBuffer, PatternJump, empty, invalid_token, duplicate_offset, invalid_jump, size,
  max_pattern_bytes, hex_digit, is_token_space, is_decimal, byte_frequency_class,
}
use detour_mod_kit.Pattern.Jump.{parse_jump_token, strip_brackets, number, take_number}
use detour_mod_kit.Pattern.Jump.Accepts.{JumpForm, parse_jump_token_iff}
use detour_mod_kit.Pattern.Anchor.{select_anchor, select_pattern_anchor}
use detour_mod_kit.Pattern.Anchor.Rarest.{Rarest, select_anchor-Rarest}
use detour_mod_kit.Pattern.Parse.{
  parsed, rejected, fixed_array, heap_backed, add_byte, add_jump, tokens, byte_token, classify,
  parse_marker, parse_jump, parse_byte, parse_token, parse_tokens, finish, parse_pattern_into,
  parse_pattern, parse_aob,
}
use detour_mod_kit.Pattern.Parse.Shape.{WellFormed}
use detour_mod_kit.Pattern.Parse.Invariant.{parse_pattern-WellFormed}
use detour_mod_kit.Pattern.Parse.Agreement.{parse_pattern_into_agree}
use detour_mod_kit.Pattern.Match.{
  matches_buffer_at, search_at, try_segments_at, run_matches_at, byte_agrees, min_match_length,
}
use detour_mod_kit.Pattern.Match.Placement.{Placed}
use detour_mod_kit.Pattern.Match.Budget.{
  matches_buffer_at_iff, matches_buffer_at-Placed, matches_buffer_at-one_gap,
}

abbrev sample_text : Text
sample_text = codes "48 8B 4? [2-4] | ?? C3"

abbrev sample_gap : PatternJump
sample_gap = record { position = 3; min_skip = 2; max_skip = 4 }

abbrev sample : PatternBuffer
sample = record {
  bytes = 0x48 ∷ 0x8B ∷ 0x40 ∷ 0x00 ∷ 0xC3 ∷ [];
  mask = 0xFF ∷ 0xFF ∷ 0xF0 ∷ 0x00 ∷ 0xFF ∷ [];
  offset = 3;
  anchor = 1;
  jumps = sample_gap ∷ [];
}

abbrev window : List ℕ
window = 0x48 ∷ 0x8B ∷ 0x4D ∷ 0x01 ∷ 0x02 ∷ 0x03 ∷ 0xFF ∷ 0xC3 ∷ 0x90 ∷ []

parse_pattern-sample : parse_pattern sample_text ≡ parsed sample
unfolding parse_pattern parse_pattern_into parse_tokens parse_token parse_marker parse_jump
    parse_byte add_byte add_jump tokens byte_token classify finish is_token_space hex_digit
    is_decimal parse_jump_token strip_brackets number take_number select_anchor byte_frequency_class
parse_pattern-sample = refl

parse_aob-sample : parse_aob sample_text ≡ some sample
unfolding parse_aob parse_pattern_into parse_tokens parse_token parse_marker parse_jump parse_byte
    add_byte add_jump tokens byte_token classify finish is_token_space hex_digit is_decimal
    parse_jump_token strip_brackets number take_number select_pattern_anchor byte_frequency_class
parse_aob-sample = refl

refusals :
    (parse_pattern (codes " \t") ≡ rejected empty)
    × (parse_pattern (codes "48 8") ≡ rejected invalid_token)
    × (parse_pattern (codes "48 | 8B | C3") ≡ rejected duplicate_offset)
    × (parse_pattern (codes "48 [4-2] C3") ≡ rejected invalid_jump)
    × (parse_pattern (codes "48 [1] [2] C3") ≡ rejected invalid_jump)
    × (parse_pattern (codes "48 [1]") ≡ rejected invalid_jump)
    × (parse_pattern (codes "48 [257] C3") ≡ rejected invalid_jump)
unfolding parse_pattern parse_pattern_into parse_tokens parse_token parse_marker parse_jump
    parse_byte add_byte add_jump tokens byte_token classify finish is_token_space hex_digit
    is_decimal parse_jump_token strip_brackets number take_number
refusals = (refl, refl, refl, refl, refl, refl, refl)

matches_buffer_at-window : matches_buffer_at sample window ≡ true
unfolding matches_buffer_at search_at try_segments_at run_matches_at byte_agrees min_match_length
matches_buffer_at-window = refl

parse_pattern-WellFormed_example : WellFormed fixed_array sample
parse_pattern-WellFormed_example = parse_pattern-WellFormed sample_text sample parse_pattern-sample

parse_pattern_into_agree_example : (parse_pattern_into fixed_array sample_text ≡ parsed sample) ↔ (
    (parse_pattern_into heap_backed sample_text ≡ parsed sample)
    × (size sample ≤ max_pattern_bytes))
parse_pattern_into_agree_example = parse_pattern_into_agree sample_text sample

matches_buffer_at-Placed_example : Placed sample window 1 0 0
matches_buffer_at-Placed_example = matches_buffer_at-Placed sample window matches_buffer_at-window

matches_buffer_at_iff_example :
    (matches_buffer_at sample window ≡ true) ↔ Placed sample window 1 0 0
matches_buffer_at_iff_example = matches_buffer_at_iff sample window (omega arith) (omega arith)

matches_buffer_at-one_gap_example :
    (matches_buffer_at sample window ≡ true) ↔ Placed sample window 1 0 0
matches_buffer_at-one_gap_example =
    matches_buffer_at-one_gap fixed_array sample window
      (parse_pattern-WellFormed sample_text sample parse_pattern-sample) (omega arith)

select_anchor-Rarest_example : Rarest sample 3 128 (select_anchor sample)
select_anchor-Rarest_example = select_anchor-Rarest sample

parse_jump_token_iff_example :
    (parse_jump_token (codes "[2-4]") ≡ some (2, 4)) ↔ JumpForm (codes "[2-4]") 2 4
parse_jump_token_iff_example = parse_jump_token_iff (codes "[2-4]") 2 4
