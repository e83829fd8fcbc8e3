-- ===== src/Pattern/Parse/Agreement.antt =====
-- One grammar, two storages: the fixed arrays and the engine's vectors parse alike, up to the cap.
use detour_mod_kit.Base.{
  ℕ, ◌≤◌, ◌≡◌, ◌↔◌, List, [], ◌∷◌, arith, length-concat, Option-cases, inl, inr,
}
use detour_mod_kit.Pattern.{PatternBuffer, size, max_pattern_bytes}
use detour_mod_kit.Pattern.Parse.{
  parsed, >>=-eq-parsed, fixed_array, heap_backed, add_byte, byte_token, ParseState, parse_marker,
  parse_jump, parse_byte, parse_token, parse_tokens, finish, initial, parse_pattern_into, tokens,
}
use detour_mod_kit.Pattern.Parse.Invariant.{parse_jump-eq-parsed, parse_pattern_into-WellFormed}

-- No token takes a byte away.
parse_jump-size-le :
    (t : List ℕ) (s s' : ParseState) → parse_jump t s ≡ parsed s' → size s.sink ≤ size s'.sink
parse_jump-size-le t s s' e =
    let (mn, mx, h, apart, room, eq) = parse_jump-eq-parsed t s s' e in rw eq (omega arith)

parse_byte-size-le :
    (t : List ℕ) (s s' : ParseState)
    → parse_byte heap_backed t s ≡ parsed s'
    → size s.sink ≤ size s'.sink
unfolding parse_byte add_byte
parse_byte-size-le t s s' e = elim (Option-cases (byte_token t)) [
  | inl missing ↦ absurd (ground arith)
  | inr ((value, m), h) ↦ ground (arith, length-concat s.sink.bytes value)
]

parse_token-size-le :
    (t : List ℕ) (s s' : ParseState)
    → parse_token heap_backed t s ≡ parsed s'
    → size s.sink ≤ size s'.sink
unfolding parse_token parse_marker
parse_token-size-le t s s' e = ground (arith, parse_jump-size-le t s s', parse_byte-size-le t s s')

parse_tokens-size-le :
    (ts : List (List ℕ)) (s s' : ParseState)
    → parse_tokens heap_backed ts s ≡ parsed s'
    → size s.sink ≤ size s'.sink
unfolding parse_tokens
parse_tokens-size-le [] s s' e = ground arith
parse_tokens-size-le (t ∷ ts) s s' e =
    let (m, h, rest) =
      >>=-eq-parsed (parse_token heap_backed t s) (parse_tokens heap_backed ts) e in
    omega (arith, parse_token-size-le t s m h, parse_tokens-size-le ts m s' rest)

-- Each way, token by token.
parse_byte-heap :
    (t : List ℕ) (s s' : ParseState)
    → parse_byte fixed_array t s ≡ parsed s'
    → parse_byte heap_backed t s ≡ parsed s'
unfolding parse_byte add_byte
parse_byte-heap t s s' e = ground arith

parse_byte-fixed :
    (t : List ℕ) (s s' : ParseState)
    → parse_byte heap_backed t s ≡ parsed s'
    → size s'.sink ≤ max_pattern_bytes
    → parse_byte fixed_array t s ≡ parsed s'
unfolding parse_byte add_byte
parse_byte-fixed t s s' e h = elim (Option-cases (byte_token t)) [
  | inl missing ↦ absurd (ground arith)
  | inr ((value, m), k) ↦ ground (arith, length-concat s.sink.bytes value)
]

parse_token-heap :
    (t : List ℕ) (s s' : ParseState)
    → parse_token fixed_array t s ≡ parsed s'
    → parse_token heap_backed t s ≡ parsed s'
unfolding parse_token
parse_token-heap t s s' e = ground (arith, parse_byte-heap t s s')

parse_token-fixed :
    (t : List ℕ) (s s' : ParseState)
    → parse_token heap_backed t s ≡ parsed s'
    → size s'.sink ≤ max_pattern_bytes
    → parse_token fixed_array t s ≡ parsed s'
unfolding parse_token
parse_token-fixed t s s' e h = ground (arith, parse_byte-fixed t s s')

parse_tokens-heap :
    (ts : List (List ℕ)) (s s' : ParseState)
    → parse_tokens fixed_array ts s ≡ parsed s'
    → parse_tokens heap_backed ts s ≡ parsed s'
unfolding parse_tokens
parse_tokens-heap [] s s' e = e
parse_tokens-heap (t ∷ ts) s s' e =
    let (m, h, rest) =
      >>=-eq-parsed (parse_token fixed_array t s) (parse_tokens fixed_array ts) e in
    rw (parse_token-heap t s m h) (parse_tokens-heap ts m s' rest)

parse_tokens-fixed :
    (ts : List (List ℕ)) (s s' : ParseState)
    → parse_tokens heap_backed ts s ≡ parsed s'
    → size s'.sink ≤ max_pattern_bytes
    → parse_tokens fixed_array ts s ≡ parsed s'
unfolding parse_tokens
parse_tokens-fixed [] s s' e h = e
parse_tokens-fixed (t ∷ ts) s s' e h =
    let (m, p, rest) =
      >>=-eq-parsed (parse_token heap_backed t s) (parse_tokens heap_backed ts) e in
    rw (parse_token-fixed t s m p (omega (arith, parse_tokens-size-le ts m s' rest)))
      (parse_tokens-fixed ts m s' rest h)

finish-eq-parsed : (s : ParseState) (b : PatternBuffer) → finish s ≡ parsed b → b ≡ s.sink
unfolding finish
finish-eq-parsed s b e = ground arith

-- A text parses into the fixed arrays exactly when it parses into the engine's vectors with at most
-- 128 bytes, and to the same bytes, masks, gaps and offset.
pub parse_pattern_into_agree :
    (dsl : List ℕ) (b : PatternBuffer)
    → (parse_pattern_into fixed_array dsl ≡ parsed b)
      ↔ ((parse_pattern_into heap_backed dsl ≡ parsed b) × (size b ≤ max_pattern_bytes))
unfolding parse_pattern_into
parse_pattern_into_agree dsl b = (there, back)
  where
    there :
        parse_pattern_into fixed_array dsl ≡ parsed b
        → (parse_pattern_into heap_backed dsl ≡ parsed b) × (size b ≤ max_pattern_bytes)
    there e =
        let (s, h, f) = >>=-eq-parsed (parse_tokens fixed_array (tokens dsl) initial) finish e in
        (
          rw (parse_tokens-heap (tokens dsl) initial s h) f,
          (parse_pattern_into-WellFormed fixed_array dsl b e).byte_cap,
        )

    back :
        (parse_pattern_into heap_backed dsl ≡ parsed b) × (size b ≤ max_pattern_bytes)
        → parse_pattern_into fixed_array dsl ≡ parsed b
    back (e, small) =
        let (s, h, f) = >>=-eq-parsed (parse_tokens heap_backed (tokens dsl) initial) finish e in
        rw (parse_tokens-fixed (tokens dsl) initial s h (rw (← finish-eq-parsed s b f) small)) f
