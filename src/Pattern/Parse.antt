-- ===== src/Pattern/Parse.antt =====
-- `parse_pattern_into` and its two storage sinks. The C++ template takes the sink as a class; here a
-- sink is named by its kind, and both store into a PatternBuffer. A fixed-array sink has a byte cap,
-- the heap-backed one of the engine has none. Running out of memory is not modelled.
pub mod Shape
pub mod Invariant
pub mod Agreement
use detour_mod_kit.Base.{
  ℕ, zero, suc, ◌+◌, ◌*◌, ◌%◌, Bool, true, false, not, ◌&&◌, ◌||◌, List, [], ◌∷◌, ◌++◌, Option,
  none, ◌≡◌, refl, some, ltb, leb, ◌==◌, if◌then◌else◌, length,
}
use detour_mod_kit.Pattern.{
  PatternJump, PatternError, empty, invalid_token, too_long, duplicate_offset, invalid_jump,
  too_many_jumps, PatternBuffer, size, jump_count, max_pattern_bytes, no_anchor, max_pattern_jumps,
  hex_digit, is_token_space,
}
use detour_mod_kit.Pattern.Jump.{parse_jump_token}
use detour_mod_kit.Pattern.Anchor.{select_anchor, select_pattern_anchor}

pub data Parsed {ℓ} (A : Type ℓ) : Type ℓ where
  rejected : PatternError → Parsed A
  parsed : A → Parsed A

infixl 5 ◌>>=◌
abbrev pub ◌>>=◌ {ℓ κ} : {A : Type ℓ} {B : Type κ} → Parsed A → (A → Parsed B) → Parsed B
rejected why >>= next = rejected why
parsed a >>= next = next a

pub >>=-eq-parsed {ℓ κ} :
    {A : Type ℓ} {B : Type κ} (first : Parsed A) (next : A → Parsed B) {last : B}
    → (first >>= next) ≡ parsed last
    → (a : A) × (first ≡ parsed a) × (next a ≡ parsed last)
>>=-eq-parsed (rejected why) next h = cc
>>=-eq-parsed (parsed a) next h = (a, refl, h)

abbrev or_fail {ℓ} : {A : Type ℓ} → Option A → PatternError → Parsed A
or_fail none e = rejected e
or_fail (some a) e = parsed a

abbrev guard : Bool → PatternError → Parsed (Unit {0})
guard true e = rejected e
guard false e = parsed tt

-- PatternBufferSink (fixed arrays) and EnginePatternSink (vectors).
pub data SinkKind : Type 0 where
  fixed_array heap_backed : SinkKind

abbrev at_byte_cap : SinkKind → ℕ → Bool
at_byte_cap fixed_array n = leb max_pattern_bytes n
at_byte_cap heap_backed n = false

unfoldable pub add_byte : SinkKind → PatternBuffer → ℕ → ℕ → Option PatternBuffer
add_byte k b value mask_value =
    if at_byte_cap k (size b)
    then none
    else some (record b { bytes = b.bytes ++ value ∷ []; mask = b.mask ++ mask_value ∷ [] })

unfoldable pub add_jump : PatternBuffer → PatternJump → Option PatternBuffer
add_jump b jump =
    if leb max_pattern_jumps (jump_count b)
    then none
    else some (record b { jumps = b.jumps ++ jump ∷ [] })

abbrev pub set_offset : PatternBuffer → ℕ → PatternBuffer
set_offset b position = record b { offset = position }

-- The cursor's two loops: a maximal run of characters that are no spaces is one token.
starts_token : List ℕ → Bool
starts_token [] = false
starts_token (c ∷ cs) = not (is_token_space c)

push_char : Bool → ℕ → List (List ℕ) → List (List ℕ)
push_char joined c [] = (c ∷ []) ∷ []
push_char joined c (t ∷ ts) = if joined then (c ∷ t) ∷ ts else (c ∷ []) ∷ t ∷ ts

unfoldable pub tokens : List ℕ → List (List ℕ)
unfolding starts_token push_char
tokens [] = []
tokens (c ∷ cs) =
    let rest = tokens cs in if is_token_space c then rest else push_char (starts_token cs) c rest

-- The two digits of a byte token: (value, mask).
nibbles : Option ℕ → Option ℕ → Bool → Bool → Option (ℕ × ℕ)
nibbles (some high) (some low) q r = some ((high * 16 + low) % 256, 0xFF)
nibbles (some high) none q r = if r then some (high * 16 % 256, 0xF0) else none
nibbles none (some low) q r = if q then some (low % 256, 0x0F) else none
nibbles none none q r = none

unfoldable pub byte_token : List ℕ → Option (ℕ × ℕ)
unfolding nibbles
byte_token [] = none
byte_token (a ∷ []) = if a == b'?' then some (0, 0) else none
byte_token (a ∷ b ∷ []) =
    if a == b'?' && b == b'?'
    then some (0, 0)
    else nibbles (hex_digit a) (hex_digit b) (a == b'?') (b == b'?')
byte_token (a ∷ b ∷ c ∷ cs) = none

-- The locals of the loop, with the sink.
pub record ParseState : Type 0 where
  pub offset_marked : Bool
  pub last_boundary : ℕ
  pub sink : PatternBuffer

pub data TokenClass : Type 0 where
  marker jump fixed : TokenClass

unfoldable pub classify : List ℕ → TokenClass
classify [] = fixed
classify (c ∷ []) = if c == b'|' then marker else if c == b'[' then jump else fixed
classify (c ∷ d ∷ cs) = if c == b'[' then jump else fixed

unfoldable pub parse_marker : ParseState → Parsed ParseState
parse_marker s =
    if s.offset_marked
    then rejected duplicate_offset
    else parsed (record s { offset_marked = true; sink = set_offset s.sink (size s.sink) })

unfoldable pub parse_jump : List ℕ → ParseState → Parsed ParseState
parse_jump token s = do
  r ← or_fail (parse_jump_token token) invalid_jump
  _ ← guard (size s.sink == 0 || size s.sink == s.last_boundary) invalid_jump
  b ←
      or_fail (add_jump s.sink (record { position = size s.sink; min_skip = r.0; max_skip = r.1 }))
        too_many_jumps
  parsed (record s { last_boundary = size b; sink = b })

unfoldable pub parse_byte : SinkKind → List ℕ → ParseState → Parsed ParseState
parse_byte k token s = do
  cell ← or_fail (byte_token token) invalid_token
  b ← or_fail (add_byte k s.sink cell.0 cell.1) too_long
  parsed (record s { sink = b })

-- One round of the loop, at the token that the cursor has passed.
unfoldable pub parse_token : SinkKind → List ℕ → ParseState → Parsed ParseState
parse_token k token s = elim (classify token) [
  | marker ↦ parse_marker s
  | jump ↦ parse_jump token s
  | fixed ↦ parse_byte k token s
]

unfoldable pub parse_tokens : SinkKind → List (List ℕ) → ParseState → Parsed ParseState
parse_tokens k [] s = parsed s
parse_tokens k (t ∷ ts) s = do s' ← parse_token k t s; parse_tokens k ts s'

-- The tests behind the loop.
unfoldable pub finish : ParseState → Parsed PatternBuffer
finish s = do
  _ ← guard (size s.sink == 0) empty
  _ ← guard (ltb 0 (jump_count s.sink) && s.last_boundary == size s.sink) invalid_jump
  parsed s.sink

abbrev pub initial : ParseState
initial = record {
  offset_marked = false;
  last_boundary = 0;
  sink = record { bytes = []; mask = []; offset = 0; anchor = no_anchor; jumps = [] };
}

unfoldable pub parse_pattern_into : SinkKind → List ℕ → Parsed PatternBuffer
parse_pattern_into k dsl = do s ← parse_tokens k (tokens dsl) initial; finish s

unfoldable pub parse_pattern : List ℕ → Parsed PatternBuffer
parse_pattern dsl = do
  b ← parse_pattern_into fixed_array dsl
  parsed (record b { anchor = select_anchor b })

-- `none` for every failure.
unfoldable pub parse_aob : List ℕ → Option PatternBuffer
parse_aob dsl = elim (parse_pattern_into heap_backed dsl) [
  | parsed b ↦ some (record b { anchor = select_pattern_anchor b })
  | rejected _ ↦ none
]
