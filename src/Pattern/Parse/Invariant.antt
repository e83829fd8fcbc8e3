-- ===== src/Pattern/Parse/Invariant.antt =====
-- Every pattern that the parser hands out is well formed, whichever sink it stores into.
use detour_mod_kit.Base.{
  ℕ, suc, ◌≤◌, ◌<◌, ◌≡◌, inl, inr, refl, false, List, [], ◌∷◌, ◌++◌, some, arith, length,
  length-concat, Option-cases, ◌≢◌, ◌==◌, ltb, ◌&&◌,
}
use detour_mod_kit.Pattern.{PatternJump, PatternBuffer, size, jump_count, max_pattern_jumps}
use detour_mod_kit.Pattern.Jump.{parse_jump_token}
use detour_mod_kit.Pattern.Anchor.{select_anchor, select_pattern_anchor}
use detour_mod_kit.Pattern.Parse.{
  Parsed, parsed, rejected, >>=-eq-parsed, SinkKind, fixed_array, heap_backed, at_byte_cap,
  add_byte, add_jump, byte_token, ParseState, parse_marker, parse_jump, parse_byte, parse_token,
  parse_tokens, finish, initial, parse_pattern_into, tokens, parse_pattern, parse_aob,
}
use detour_mod_kit.Pattern.Parse.Shape.{
  AreCells, Segments, Capped, WellFormed, AreCells-concat, Segments-concat, byte_token-IsCell,
  parse_jump_token-bounds,
}

record Inv (k : SinkKind) (s : ParseState) : Type 0 where
  cells : AreCells s.sink.bytes s.sink.mask
  segments : Segments 0 s.sink.jumps s.last_boundary
  boundary : s.last_boundary ≤ size s.sink
  byte_cap : Capped k (size s.sink)
  jump_cap : jump_count s.sink ≤ max_pattern_jumps
  offset_within : s.sink.offset ≤ size s.sink

parse_marker-Inv :
    {k : SinkKind} (s s' : ParseState) → Inv k s → parse_marker s ≡ parsed s' → Inv k s'
unfolding parse_marker
parse_marker-Inv s s' v e = ground arith

-- What the three tests of `parse_jump` establish, and the state that they let through.
pub parse_jump-eq-parsed :
    (t : List ℕ) (s s' : ParseState)
    → parse_jump t s ≡ parsed s'
    → (mn mx : ℕ) × (parse_jump_token t ≡ some (mn, mx))
      × (size s.sink ≢ s.last_boundary)
      × (jump_count s.sink < max_pattern_jumps)
      × (s' ≡ record s {
        last_boundary = size s.sink;
        sink = record (s.sink) {
          jumps =
              s.sink.jumps ++ record { position = size s.sink; min_skip = mn; max_skip = mx } ∷ [];
        };
      })
unfolding parse_jump add_jump
parse_jump-eq-parsed t s s' e = elim (Option-cases (parse_jump_token t)) [
  | inl missing ↦ absurd (ground arith)
  | inr ((mn, mx), h) ↦ (mn, mx, h, (λ q. absurd (ground arith)), ground arith, ground arith)
]

parse_jump-Inv :
    {k : SinkKind} (t : List ℕ) (s s' : ParseState)
    → Inv k s
    → parse_jump t s ≡ parsed s'
    → Inv k s'
parse_jump-Inv t s s' v e =
    let (mn, mx, h, apart, room, eq) = parse_jump-eq-parsed t s s' e in
    let (le, short) = parse_jump_token-bounds t mn mx h in
    rw eq (record {
      cells = v.cells;
      segments =
          Segments-concat 0 s.sink.jumps s.last_boundary _ v.segments (omega (arith, v.boundary)) le
            short;
      boundary = omega arith;
      byte_cap = v.byte_cap;
      jump_cap = rw length-concat room;
      offset_within = v.offset_within;
    })

Capped-suc : (k : SinkKind) (n : ℕ) → at_byte_cap k n ≡ false → Capped k (suc n)
Capped-suc fixed_array n h = ground arith
Capped-suc heap_backed n h = tt

parse_byte-Inv :
    (k : SinkKind) (t : List ℕ) (s s' : ParseState)
    → Inv k s
    → parse_byte k t s ≡ parsed s'
    → Inv k s'
unfolding parse_byte add_byte
parse_byte-Inv k t s s' v e = elim (Option-cases (byte_token t)) [
  | inl missing ↦ absurd (ground arith)
  | inr ((value, m), h) ↦
      let room : at_byte_cap k (size s.sink) ≡ false = ground arith in
      let eq : s' ≡ record s {
        sink = record (s.sink) { bytes = s.sink.bytes ++ value ∷ []; mask = s.sink.mask ++ m ∷ [] };
      } =
        ground arith in
      let grown = length-concat s.sink.bytes value in
      rw eq (record {
        cells =
            AreCells-concat s.sink.bytes s.sink.mask value m v.cells
              (byte_token-IsCell t value m h);
        segments = v.segments;
        boundary = omega (arith, grown, v.boundary);
        byte_cap = rw grown (Capped-suc k (size s.sink) room);
        jump_cap = v.jump_cap;
        offset_within = omega (arith, grown, v.offset_within);
      })
]

parse_token-Inv :
    (k : SinkKind) (t : List ℕ) (s s' : ParseState)
    → Inv k s
    → parse_token k t s ≡ parsed s'
    → Inv k s'
unfolding parse_token
parse_token-Inv k t s s' v e = ground (
  arith,
  parse_marker-Inv {k = k} s s' v,
  parse_jump-Inv {k = k} t s s' v,
  parse_byte-Inv k t s s' v,
)

parse_tokens-Inv :
    (k : SinkKind) (ts : List (List ℕ)) (s s' : ParseState)
    → Inv k s
    → parse_tokens k ts s ≡ parsed s'
    → Inv k s'
unfolding parse_tokens
parse_tokens-Inv k [] s s' v e = ground (arith, v)
parse_tokens-Inv k (t ∷ ts) s s' v e =
    let (m, h, rest) = >>=-eq-parsed (parse_token k t s) (parse_tokens k ts) e in
    parse_tokens-Inv k ts m s' (parse_token-Inv k t s m v h) rest

initial-Inv : (k : SinkKind) → Inv k initial
initial-Inv fixed_array = omega arith
initial-Inv heap_backed = omega arith

segment_filled :
    (js : List PatternJump) (last n : ℕ)
    → Segments 0 js last
    → last ≤ n
    → n ≢ 0
    → (ltb 0 (length js) && last == n) ≡ false
    → last < n
segment_filled [] last n e h p q = omega arith
segment_filled (j ∷ js) last n e h p q = ground arith

finish-WellFormed :
    {k : SinkKind} (s : ParseState) (b : PatternBuffer)
    → Inv k s
    → finish s ≡ parsed b
    → WellFormed k b
unfolding finish
finish-WellFormed s b v e =
    let eq : b ≡ s.sink = ground arith in
    rw eq (record {
      cells = v.cells;
      last = s.last_boundary;
      segments = v.segments;
      last_filled =
          segment_filled s.sink.jumps s.last_boundary (size s.sink) v.segments v.boundary
            (ground arith) (ground arith);
      byte_cap = v.byte_cap;
      jump_cap = v.jump_cap;
      offset_within = v.offset_within;
    })

pub parse_pattern_into-WellFormed :
    (k : SinkKind) (dsl : List ℕ) (b : PatternBuffer)
    → parse_pattern_into k dsl ≡ parsed b
    → WellFormed k b
unfolding parse_pattern_into
parse_pattern_into-WellFormed k dsl b e =
    let (s, h, f) = >>=-eq-parsed (parse_tokens k (tokens dsl) initial) finish e in
    finish-WellFormed s b (parse_tokens-Inv k (tokens dsl) initial s (initial-Inv k) h) f

WellFormed-anchor :
    {k : SinkKind} (b : PatternBuffer) (a : ℕ)
    → WellFormed k b
    → WellFormed k (record b { anchor = a })
WellFormed-anchor b a w = record {
  cells = w.cells;
  last = w.last;
  segments = w.segments;
  last_filled = w.last_filled;
  byte_cap = w.byte_cap;
  jump_cap = w.jump_cap;
  offset_within = w.offset_within;
}

-- A pattern that parses into the fixed arrays has one mask per byte, each cell a literal, wildcard or
-- nibble with no bit outside its mask; its gaps ascend strictly, are bounded by 256, and neither
-- lead, trail nor touch; the marker stands in or just behind it; and it has at most 128 bytes and 8
-- gaps.
pub parse_pattern-WellFormed :
    (dsl : List ℕ) (b : PatternBuffer) → parse_pattern dsl ≡ parsed b → WellFormed fixed_array b
unfolding parse_pattern
parse_pattern-WellFormed dsl b e =
    let (c, h, eq) =
      >>=-eq-parsed (parse_pattern_into fixed_array dsl)
        (λ c. parsed (record c { anchor = select_anchor c })) e in
    let same : b ≡ record c { anchor = select_anchor c } = cc in
    rw same (WellFormed-anchor c _ (parse_pattern_into-WellFormed fixed_array dsl c h))

-- A pattern that `parse_aob` accepts has one mask per byte, each cell a literal, wildcard or nibble with
-- no bit outside its mask; its gaps ascend strictly, are bounded by 256, and neither lead, trail nor
-- touch; the marker stands in or just behind it; and it has at most 8 gaps, but any number of bytes.
pub parse_aob-WellFormed :
    (dsl : List ℕ) (b : PatternBuffer) → parse_aob dsl ≡ some b → WellFormed heap_backed b
unfolding parse_aob
parse_aob-WellFormed dsl b e = go (parse_pattern_into heap_backed dsl) refl
  where
    go :
        (r : Parsed PatternBuffer)
        → parse_pattern_into heap_backed dsl ≡ r
        → WellFormed heap_backed b
    go (parsed c) h =
        let same : b ≡ record c { anchor = select_pattern_anchor c } = ground arith in
        rw same (WellFormed-anchor c _ (parse_pattern_into-WellFormed heap_backed dsl c h))
    go (rejected x) h = absurd (ground arith)
