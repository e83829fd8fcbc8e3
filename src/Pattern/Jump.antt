-- ===== src/Pattern/Jump.antt =====
-- `parse_jump_token`: the bounded jump tokens `[X]` and `[X-Y]`.
pub mod Accepts
use detour_mod_kit.Base.{
  ℕ, ◌+◌, ◌-◌, ◌*◌, Bool, true, false, not, ◌||◌, ◌&&◌, List, [], ◌∷◌, Option, none, some, ltb,
  ◌==◌, if◌then◌else◌, ◌>>=◌,
}
use detour_mod_kit.Pattern.{max_jump_span, is_decimal}

-- A token that opens with '[' and closes with ']' around at least one character: what is between.
-- `init_last` is `token.substr(1, size - 2)` with the test of `token.back()`.
init_last : List ℕ → Option (List ℕ)
init_last [] = none
init_last (c ∷ []) = if c == b']' then some [] else none
init_last (c ∷ d ∷ cs) = do rest ← init_last (d ∷ cs); some (c ∷ rest)

unfoldable pub strip_brackets : List ℕ → Option (List ℕ)
unfolding init_last
strip_brackets [] = none
strip_brackets (open_bracket ∷ cs) = if open_bracket == b'[' then init_last cs else none

-- The inner `while`: the digits from the cursor on, folded into the accumulator, which must not
-- pass `max_jump_span` after any digit. The second part is the rest of the token.
unfoldable pub take_number : ℕ → List ℕ → Option (ℕ × List ℕ)
take_number acc [] = some (acc, [])
take_number acc (c ∷ cs) =
    let next = acc * 10 + (c - b'0') in
    let more = take_number next cs in
    if is_decimal c then if ltb max_jump_span next then none else more else some (acc, c ∷ cs)

-- At least one digit, then as many as there are.
unfoldable pub number : List ℕ → Option (ℕ × List ℕ)
unfolding take_number
number [] = none
number (c ∷ cs) = if is_decimal c then take_number 0 (c ∷ cs) else none

-- After the last bound: no trailing character, and no inverted range.
finish : ℕ → ℕ → List ℕ → Option (ℕ × ℕ)
finish mn mx [] = if ltb mx mn then none else some (mn, mx)
finish mn mx (c ∷ cs) = none

-- After the first bound.
upper : ℕ → List ℕ → Option (ℕ × ℕ)
unfolding finish number
upper mn [] = finish mn mn []
upper mn (c ∷ cs) = if c == b'-' then number cs >>= (λ r. finish mn r.0 r.1) else none

bounds : List ℕ → Option (ℕ × ℕ)
unfolding upper number
bounds inner = number inner >>= λ r. upper r.0 r.1

-- JumpParse with `ok == false` is `none`. An empty inner text has no number, which is the source's
-- test `token.size() < 3`.
unfoldable pub parse_jump_token : List ℕ → Option (ℕ × ℕ)
unfolding strip_brackets bounds
parse_jump_token token = strip_brackets token >>= bounds
