-- ===== src/Pattern/Match/Span.antt =====
-- How many bytes a placement takes: between `min_match_length` and `max_match_length`.
use detour_mod_kit.Base.{
  ℕ, zero, suc, ◌+◌, ◌-◌, ◌≤◌, ◌<◌, ◌≡◌, refl, ap, List, [], ◌∷◌, arith, length, get_or,
}
use detour_mod_kit.Pattern.{PatternJump, PatternBuffer, size, jump_count}
use detour_mod_kit.Pattern.Match.{
  add_min, add_max, min_match_length, max_match_length, no_jump, segment_begin, segment_end,
}
use detour_mod_kit.Pattern.Match.Placement.{Placed}

-- Where the last segment ends.
abbrev pub stop :
    (b : PatternBuffer) (window : List ℕ) (gaps index at : ℕ) → Placed b window gaps index at → ℕ
stop b window zero index at p = at + (segment_end b index - segment_begin b index)
stop b window (suc gaps) index at p =
    stop b window gaps (suc index) (at + (segment_end b index - segment_begin b index) + p.1.0)
      p.1.3

-- The sum of `f` over `n` gaps from the `i`-th on.
sum_from : (PatternJump → ℕ) → List PatternJump → ℕ → ℕ → ℕ
sum_from f js zero i = 0
sum_from f js (suc n) i = f (get_or js i no_jump) + sum_from f js n (suc i)

sum_from-cons :
    (f : PatternJump → ℕ) (j : PatternJump) (js : List PatternJump) (n i : ℕ)
    → sum_from f (j ∷ js) n (suc i) ≡ sum_from f js n i
unfolding sum_from
sum_from-cons f j js zero i = refl
sum_from-cons f j js (suc n) i = ap (◌+◌ (f (get_or js i no_jump))) (sum_from-cons f j js n (suc i))

add_min_lem :
    (total : ℕ) (js : List PatternJump)
    → add_min total js ≡ total + sum_from (λ j. j.min_skip) js (length js) 0
unfolding add_min sum_from
add_min_lem total [] = omega arith
add_min_lem total (j ∷ js) =
    omega (
      arith,
      add_min_lem (total + j.min_skip) js,
      sum_from-cons (λ j. j.min_skip) j js (length js) 0,
    )

add_max_lem :
    (total : ℕ) (js : List PatternJump)
    → add_max total js ≡ total + sum_from (λ j. j.max_skip) js (length js) 0
unfolding add_max sum_from
add_max_lem total [] = omega arith
add_max_lem total (j ∷ js) =
    omega (
      arith,
      add_max_lem (total + j.max_skip) js,
      sum_from-cons (λ j. j.max_skip) j js (length js) 0,
    )

record Spans (b : PatternBuffer) (window : List ℕ) (gaps index at stop : ℕ) : Type 0 where
  begins : segment_begin b index ≤ size b
  fits : stop ≤ length window
  lower :
      at + (size b - segment_begin b index) + sum_from (λ j. j.min_skip) b.jumps gaps index ≤ stop
  upper :
      stop ≤ at + (size b - segment_begin b index) + sum_from (λ j. j.max_skip) b.jumps gaps index

segment_end-last :
    (b : PatternBuffer) (index : ℕ) → index ≡ jump_count b → segment_end b index ≡ size b
segment_end-last b index e = ground arith

segment_end-inner :
    (b : PatternBuffer) (index : ℕ)
    → index < jump_count b
    → segment_end b index ≡ segment_begin b (suc index)
segment_end-inner b index h = ground arith

Placed-Spans :
    (b : PatternBuffer) (window : List ℕ) (gaps index at : ℕ) (p : Placed b window gaps index at)
    → index + gaps ≡ jump_count b
    → Spans b window gaps index at (stop b window gaps index at p)
unfolding sum_from
Placed-Spans b window zero index at r e =
    let last = segment_end-last b index (omega arith) in
    record {
      begins = omega (arith, r.ordered, last);
      fits = r.fits;
      lower = omega (arith, last);
      upper = omega (arith, last);
    }
Placed-Spans b window (suc gaps) index at (r, (k, lo, hi, rest)) e =
    let inner = segment_end-inner b index (omega arith) in
    let s =
      Placed-Spans b window gaps (suc index)
        (at + (segment_end b index - segment_begin b index) + k) rest (omega arith) in
    record {
      begins = omega (arith, r.ordered, inner, s.begins);
      fits = s.fits;
      lower = omega (arith, r.ordered, inner, s.begins, s.lower);
      upper = omega (arith, r.ordered, inner, s.begins, s.upper);
    }

-- A placement of the whole pattern at the start of a window ends inside it, after at least
-- `min_match_length` and at most `max_match_length` bytes.
pub stop_bounds :
    (b : PatternBuffer) (window : List ℕ) (p : Placed b window (jump_count b) 0 0)
    → (min_match_length b ≤ stop b window (jump_count b) 0 0 p)
      × (stop b window (jump_count b) 0 0 p ≤ max_match_length b)
      × (stop b window (jump_count b) 0 0 p ≤ length window)
unfolding min_match_length max_match_length
stop_bounds b window p =
    let s = Placed-Spans b window (jump_count b) 0 0 p (omega arith) in
    (
      omega (arith, s.lower, add_min_lem (size b) b.jumps),
      omega (arith, s.upper, add_max_lem (size b) b.jumps),
      s.fits,
    )
