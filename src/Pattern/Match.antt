-- ===== src/Pattern/Match.antt =====
-- The segment matcher: `run_matches_at`, `try_segments_at`, `matches_buffer_at` and the two bounds on
-- a match's span. The shared counter `steps` is an argument and a result. A call at segment `index`
-- carries the number of gaps from there on, `jump_count - index`.
pub mod Placement
pub mod Masks
pub mod Span
pub mod Budget
use detour_mod_kit.Base.{
  ℕ, zero, suc, ◌+◌, ◌-◌, Bool, true, false, not, ◌||◌, List, [], ◌∷◌, ltb, ◌==◌, if◌then◌else◌,
  get_or, length, bit_and, bit_xor,
}
use detour_mod_kit.Pattern.{PatternJump, PatternBuffer, size, jump_count, segment_match_step_budget}

-- The two loops over the gaps.
add_min : ℕ → List PatternJump → ℕ
add_min total [] = total
add_min total (j ∷ js) = add_min (total + j.min_skip) js

add_max : ℕ → List PatternJump → ℕ
add_max total [] = total
add_max total (j ∷ js) = add_max (total + j.max_skip) js

unfoldable pub min_match_length : PatternBuffer → ℕ
unfolding add_min
min_match_length b = add_min (size b) b.jumps

unfoldable pub max_match_length : PatternBuffer → ℕ
unfolding add_max
max_match_length b = add_max (size b) b.jumps

-- `((window ^ byte) & mask) == 0`.
unfoldable pub byte_agrees : ℕ → ℕ → ℕ → Bool
byte_agrees memory byte mask_value = bit_and (bit_xor memory byte) mask_value == 0

abbrev pub cell_agrees : PatternBuffer → List ℕ → ℕ → ℕ → Bool
cell_agrees b window at i =
    byte_agrees (get_or window at 0) (get_or b.bytes i 0) (get_or b.mask i 0)

-- The loop of `run_matches_at` from window offset `at` and pattern index `i`, `n` rounds.
run_loop : PatternBuffer → List ℕ → ℕ → ℕ → ℕ → Bool
run_loop b window zero at i = true
run_loop b window (suc n) at i =
    let rest = run_loop b window n (at + 1) (i + 1) in
    if cell_agrees b window at i then rest else false

-- The first test is the source's unsigned `body_end - body_begin`, which wraps to more than any
-- window when the run is inverted.
unfoldable pub run_matches_at : PatternBuffer → List ℕ → ℕ → ℕ → ℕ → Bool
unfolding run_loop
run_matches_at b window window_pos body_begin body_end =
    let run_length = body_end - body_begin in
    if ltb body_end body_begin
      || ltb (length window) window_pos
      || ltb (length window - window_pos) run_length
    then false
    else run_loop b window run_length window_pos body_begin

abbrev pub no_jump : PatternJump
no_jump = record { position = 0; min_skip = 0; max_skip = 0 }

abbrev pub gap_at : PatternBuffer → ℕ → PatternJump
gap_at b index = get_or b.jumps index no_jump

abbrev pub segment_begin : PatternBuffer → ℕ → ℕ
segment_begin b zero = 0
segment_begin b (suc index) = (gap_at b index).position

abbrev pub segment_end : PatternBuffer → ℕ → ℕ
segment_end b index = if ltb index (jump_count b) then (gap_at b index).position else size b

-- The `for` over the skips of a gap, `n` of them from `skip` on. `attempt` matches the next segment.
gap_loop : (ℕ → ℕ → Bool × ℕ) → ℕ → ℕ → ℕ → ℕ → ℕ → Bool × ℕ
gap_loop attempt available after zero skip steps = (false, steps)
gap_loop attempt available after (suc n) skip steps =
    let tried = attempt (after + skip) steps in
    let next = gap_loop attempt available after n (skip + 1) tried.1 in
    if ltb available skip
    then (false, steps)
    else if tried.0
    then (true, tried.1)
    else if ltb segment_match_step_budget tried.1
    then (false, tried.1)
    else next

unfoldable pub try_segments_at : PatternBuffer → List ℕ → ℕ → ℕ → ℕ → ℕ → Bool × ℕ
unfolding gap_loop
try_segments_at b window zero index window_pos steps =
    if ltb segment_match_step_budget (suc steps) then (false, suc steps) else (
      run_matches_at b window window_pos (segment_begin b index) (segment_end b index),
      suc steps,
    )
try_segments_at b window (suc gaps) index window_pos steps =
    let first = segment_begin b index in
    let last = segment_end b index in
    let after = window_pos + (last - first) in
    let gap = gap_at b index in
    let extended =
      gap_loop (try_segments_at b window gaps (suc index)) (length window - after) after
        (suc gap.max_skip - gap.min_skip) gap.min_skip (suc steps) in
    if ltb segment_match_step_budget (suc steps)
    then (false, suc steps)
    else if not (run_matches_at b window window_pos first last)
    then (false, suc steps)
    else extended

-- The whole search at the start of a window, with the number of nodes it visits.
unfoldable pub search_at : PatternBuffer → List ℕ → Bool × ℕ
search_at b window = try_segments_at b window (jump_count b) 0 0 0

unfoldable pub matches_buffer_at : PatternBuffer → List ℕ → Bool
matches_buffer_at b window =
    if size b == 0
    then false
    else if ltb (length window) (min_match_length b)
    then false
    else (search_at b window).0
