-- ===== src/Pattern/Match/Budget.antt =====
-- The step budget, and when the matcher is exact.
use detour_mod_kit.Base.{
  ℕ, zero, suc, ◌+◌, ◌-◌, ◌*◌, ◌≤◌, ◌≡◌, ◌≢◌, ◌↔◌, refl, Bool, true, List, arith, length,
  Bool-cases, inl, inr, [], ◌∷◌,
}
use detour_mod_kit.Pattern.{PatternJump, PatternBuffer, size, jump_count, segment_match_step_budget}
use detour_mod_kit.Pattern.Match.{
  gap_at, segment_begin, segment_end, gap_loop, try_segments_at, search_at, matches_buffer_at,
}
use detour_mod_kit.Pattern.Match.Placement.{
  Placed, try_segments_at-Placed, try_segments_at-not-Placed,
}
use detour_mod_kit.Pattern.Match.Span.{stop_bounds}
use detour_mod_kit.Pattern.Parse.{SinkKind}
use detour_mod_kit.Pattern.Parse.Shape.{WellFormed, Segments}

-- The nodes of a full backtracking search: one for a segment, and those behind each skip of its gap.
abbrev pub nodes : PatternBuffer → ℕ → ℕ → ℕ
nodes b zero index = 1
nodes b (suc gaps) index =
    suc ((suc (gap_at b index).max_skip - (gap_at b index).min_skip) * nodes b gaps (suc index))

gap_loop-steps-le :
    (attempt : ℕ → ℕ → Bool × ℕ) (c : ℕ)
    → ((at s : ℕ) → (attempt at s).1 ≤ s + c)
    → (available after n skip steps : ℕ)
    → (gap_loop attempt available after n skip steps).1 ≤ steps + n * c
unfolding gap_loop
gap_loop-steps-le attempt c h available after zero skip steps = omega arith
gap_loop-steps-le attempt c h available after (suc n) skip steps =
    let tried = attempt (after + skip) steps in
    let rest = gap_loop-steps-le attempt c h available after n (skip + 1) tried.1 in
    ground (arith, rest, h (after + skip) steps)

try_segments_at-steps-le :
    (b : PatternBuffer) (window : List ℕ) (gaps index at steps : ℕ)
    → (try_segments_at b window gaps index at steps).1 ≤ steps + nodes b gaps index
unfolding try_segments_at
try_segments_at-steps-le b w zero index at steps = ground arith
try_segments_at-steps-le b w (suc gaps) index at steps =
    let after = at + (segment_end b index - segment_begin b index) in
    let n = suc (gap_at b index).max_skip - (gap_at b index).min_skip in
    let loop =
      gap_loop-steps-le (try_segments_at b w gaps (suc index)) (nodes b gaps (suc index))
        (try_segments_at-steps-le b w gaps (suc index)) (length w - after) after n
        (gap_at b index).min_skip (suc steps) in
    ground (arith, loop)

-- Where the matcher says yes, whatever the budget, every segment and gap of the pattern can be laid at
-- the start of the window.
pub matches_buffer_at-Placed :
    (b : PatternBuffer) (window : List ℕ)
    → matches_buffer_at b window ≡ true
    → Placed b window (jump_count b) 0 0
unfolding matches_buffer_at search_at
matches_buffer_at-Placed b w e = try_segments_at-Placed b w (jump_count b) 0 0 0 (ground arith)

-- And a search that does not run out of it finds every placement.
matches_buffer_at_complete :
    (b : PatternBuffer) (window : List ℕ)
    → size b ≢ 0
    → (search_at b window).1 ≤ segment_match_step_budget
    → Placed b window (jump_count b) 0 0
    → matches_buffer_at b window ≡ true
unfolding matches_buffer_at search_at
matches_buffer_at_complete b w filled le p =
    let (lower, _, fits) = stop_bounds b w p in
    elim (Bool-cases (search_at b w).0) [
      | inl hit ↦ ground (arith, lower, fits, hit)
      | inr miss ↦ absurd (try_segments_at-not-Placed b w (jump_count b) 0 0 0 miss le p)
    ]

-- For a pattern with a byte whose full backtracking search has no more nodes than the step budget, the
-- matcher answers yes exactly when a placement of the pattern stands at the start of the window.
pub matches_buffer_at_iff :
    (b : PatternBuffer) (window : List ℕ)
    → size b ≢ 0
    → nodes b (jump_count b) 0 ≤ segment_match_step_budget
    → (matches_buffer_at b window ≡ true) ↔ Placed b window (jump_count b) 0 0
matches_buffer_at_iff b w filled le =
    (matches_buffer_at-Placed b w, matches_buffer_at_complete b w filled enough)
  where
    enough : (search_at b w).1 ≤ segment_match_step_budget
    enough = unfold search_at in omega (arith, try_segments_at-steps-le b w (jump_count b) 0 0 0)

nodes-one_gap :
    (b : PatternBuffer) (js : List PatternJump) (last : ℕ)
    → b.jumps ≡ js
    → Segments 0 js last
    → length js ≤ 1
    → nodes b (length js) 0 ≤ segment_match_step_budget
nodes-one_gap b [] last e s h = omega arith
nodes-one_gap b (j ∷ []) last e (_, _, short, _) h = rw e (omega arith)
nodes-one_gap b (i ∷ j ∷ js) last e s h = absurd (omega arith)

-- For a well-formed pattern with at most one gap, from either parser, the matcher answers yes exactly
-- when a placement of the pattern stands at the start of the window.
pub matches_buffer_at-one_gap :
    (k : SinkKind) (b : PatternBuffer) (window : List ℕ)
    → WellFormed k b
    → jump_count b ≤ 1
    → (matches_buffer_at b window ≡ true) ↔ Placed b window (jump_count b) 0 0
matches_buffer_at-one_gap k b window v few =
    matches_buffer_at_iff b window (omega (arith, v.last_filled))
      (nodes-one_gap b b.jumps v.last refl v.segments few)
