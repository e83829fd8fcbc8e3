-- ===== src/Pattern.antt =====
-- The AOB pattern core: include/DetourModKit/detail/pattern_core.hpp and the runtime side of the
-- same grammar in src/internal/scan_engine.cpp. Here are the data types, the limits and the
-- character classes. A char is its code, a byte a number below 256. A fixed array with a count of
-- its valid entries is the list of those entries, so `length` and `jump_count` are lengths of lists.
pub mod Jump
pub mod Parse
pub mod Anchor
pub mod Match
use detour_mod_kit.Base.{
  ℕ, ◌-◌, ◌+◌, Bool, ◌&&◌, ◌||◌, List, [], Option, none, some, ltb, leb, ◌==◌, if◌then◌else◌,
  length,
}

abbrev pub max_pattern_bytes : ℕ
max_pattern_bytes = 128

abbrev pub no_anchor : ℕ
no_anchor = max_pattern_bytes

abbrev pub max_pattern_jumps : ℕ
max_pattern_jumps = 8

abbrev pub max_jump_span : ℕ
max_jump_span = 256

abbrev pub segment_match_step_budget : ℕ
segment_match_step_budget = 65536

pub record PatternJump : Type 0 where
  pub position : ℕ
  pub min_skip : ℕ
  pub max_skip : ℕ

-- Every status but `Ok`, which is the `ok` of a parse's result.
pub data PatternError : Type 0 where
  empty invalid_token too_long duplicate_offset invalid_jump too_many_jumps : PatternError

-- PatternBuffer and EnginePattern have the same fields.
pub record PatternBuffer : Type 0 where
  pub bytes : List ℕ
  pub mask : List ℕ
  pub offset : ℕ
  pub anchor : ℕ
  pub jumps : List PatternJump

abbrev pub size : PatternBuffer → ℕ
size b = length b.bytes

abbrev pub jump_count : PatternBuffer → ℕ
jump_count b = length b.jumps

abbrev within : ℕ → ℕ → ℕ → Bool
within lo hi c = leb lo c && leb c hi

-- `none` is the source's -1.
unfoldable pub hex_digit : ℕ → Option ℕ
hex_digit ch =
    if within b'0' b'9' ch
    then some (ch - b'0')
    else if within b'a' b'f' ch
    then some (ch - b'a' + 10)
    else if within b'A' b'F' ch
    then some (ch - b'A' + 10)
    else none

-- Space, tab, CR, LF, form feed, vertical tab.
unfoldable pub is_token_space : ℕ → Bool
is_token_space ch = ch == 32 || ch == 9 || ch == 13 || ch == 10 || ch == 12 || ch == 11

unfoldable pub is_decimal : ℕ → Bool
is_decimal ch = within b'0' b'9' ch

unfoldable pub byte_frequency_class : ℕ → ℕ
byte_frequency_class value =
    if value == 0x00
    then 10
    else if value == 0xCC || value == 0x90
    then 9
    else if value == 0xFF || value == 0x48
    then 8
    else if value == 0x8B || value == 0x89 || value == 0x0F
    then 7
    else if value == 0xE8 || value == 0xE9 || value == 0x83
    then 6
    else if value == 0xC3
    then 5
    else 0
