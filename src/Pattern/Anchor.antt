-- ===== src/Pattern/Anchor.antt =====
-- The anchor of a pattern: `select_anchor` of pattern_core.hpp and `select_pattern_anchor` of
-- src/internal/scan_engine.cpp, which differ in how they start and in what they answer when no byte
-- is fully known.
pub mod Rarest
use detour_mod_kit.Base.{
  ℕ, zero, suc, ◌+◌, ◌-◌, Bool, true, false, not, ◌||◌, List, [], ◌∷◌, ltb, ◌==◌, if◌then◌else◌,
  get_or,
}
use detour_mod_kit.Pattern.{PatternJump, PatternBuffer, size, no_anchor, byte_frequency_class}

abbrev first_position : ℕ → List PatternJump → ℕ
first_position n [] = n
first_position n (j ∷ js) = j.position

-- Where the first gap stands, or the length of a pattern that has none.
abbrev pub segment0_end : PatternBuffer → ℕ
segment0_end b = first_position (size b) b.jumps

abbrev pub mask_at : PatternBuffer → ℕ → ℕ
mask_at b i = get_or b.mask i 0

abbrev pub score_at : PatternBuffer → ℕ → ℕ
score_at b i = byte_frequency_class (get_or b.bytes i 0)

-- The loop at index `i`, with the rounds that are left, the best index so far and its score. `fresh`
-- answers whether a first candidate is taken whatever its score.
select_loop : (ℕ → Bool) → PatternBuffer → ℕ → ℕ → ℕ → ℕ → ℕ
select_loop fresh b zero i best best_score = best
select_loop fresh b (suc n) i best best_score =
    let skip = select_loop fresh b n (i + 1) best best_score in
    let take = select_loop fresh b n (i + 1) i (score_at b i) in
    if not (mask_at b i == 0xFF)
    then skip
    else if fresh best || ltb (score_at b i) best_score
    then if score_at b i == 0 then i else take
    else skip

unfoldable pub select_anchor : PatternBuffer → ℕ
unfolding select_loop
select_anchor b = select_loop (λ best. false) b (segment0_end b) 0 no_anchor 0xFF

unfoldable pub select_pattern_anchor : PatternBuffer → ℕ
unfolding select_loop
select_pattern_anchor b = select_loop (λ best. best == size b) b (segment0_end b) 0 (size b) 0xFF
