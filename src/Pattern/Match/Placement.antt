-- ===== src/Pattern/Match/Placement.antt =====
-- The matcher against a declarative reading of a pattern: it finds a placement exactly when there is
-- one, short of its budget.
use detour_mod_kit.Base.{
  ℕ, zero, suc, ◌+◌, ◌-◌, ◌≤◌, ◌<◌, ◌≡◌, inl, inr, refl, Bool, true, false, List, arith, length,
  Bool-cases, dec_lt,
}
use detour_mod_kit.Pattern.{PatternBuffer, segment_match_step_budget}
use detour_mod_kit.Pattern.Match.{
  cell_agrees, run_loop, run_matches_at, gap_at, segment_begin, segment_end, gap_loop,
  try_segments_at,
}

-- The run [first, last) of the pattern lies in the window at `at` and agrees there byte by byte.
pub record RunAt (b : PatternBuffer) (window : List ℕ) (at first last : ℕ) : Type 0 where
  pub ordered : first ≤ last
  pub fits : at + (last - first) ≤ length window
  pub agrees : (i : ℕ) → i < last - first → cell_agrees b window (at + i) (first + i) ≡ true

-- The segments from `index` on can be laid into the window from `at`, each gap within its bounds.
abbrev pub Placed : PatternBuffer → List ℕ → ℕ → ℕ → ℕ → Type 0
Placed b window zero index at = RunAt b window at (segment_begin b index) (segment_end b index)
Placed b window (suc gaps) index at =
    RunAt b window at (segment_begin b index) (segment_end b index)
    × ((skip : ℕ) × ((gap_at b index).min_skip ≤ skip)
        × (skip ≤ (gap_at b index).max_skip)
        × Placed b window gaps (suc index)
            (at + (segment_end b index - segment_begin b index) + skip))

run_loop_sound :
    (b : PatternBuffer) (window : List ℕ) (n at i : ℕ)
    → run_loop b window n at i ≡ true
    → (k : ℕ) → k < n
    → cell_agrees b window (at + k) (i + k) ≡ true
unfolding run_loop
run_loop_sound b w zero at i e k h = elim h [ ]
run_loop_sound b w (suc n) at i e zero h =
    let p : at + 0 ≡ at = omega arith in let q : i + 0 ≡ i = omega arith in rw (p, q) (ground arith)
run_loop_sound b w (suc n) at i e (suc k) h =
    let p : at + suc k ≡ at + 1 + k = omega arith in
    let q : i + suc k ≡ i + 1 + k = omega arith in
    rw (p, q) (run_loop_sound b w n (at + 1) (i + 1) (ground arith) k (omega arith))

run_loop_complete :
    (b : PatternBuffer) (window : List ℕ) (n at i : ℕ)
    → ((k : ℕ) → k < n → cell_agrees b window (at + k) (i + k) ≡ true)
    → run_loop b window n at i ≡ true
unfolding run_loop
run_loop_complete b w zero at i all = refl
run_loop_complete b w (suc n) at i all =
    let p : at + 0 ≡ at = omega arith in
    let q : i + 0 ≡ i = omega arith in
    rw (rw (p, q) at (all 0 (omega arith))) (
      run_loop_complete b w n (at + 1) (i + 1) λ k h.
        let r : at + 1 + k ≡ at + suc k = omega arith in
        let s : i + 1 + k ≡ i + suc k = omega arith in rw (r, s) (all (suc k) (omega arith)))

run_matches_at_sound :
    (b : PatternBuffer) (window : List ℕ) (at first last : ℕ)
    → run_matches_at b window at first last ≡ true
    → RunAt b window at first last
unfolding run_matches_at
run_matches_at_sound b w at first last e = record {
  ordered = ground arith;
  fits = ground arith;
  agrees = run_loop_sound b w (last - first) at first (ground arith);
}

run_matches_at_complete :
    (b : PatternBuffer) (window : List ℕ) (at first last : ℕ)
    → RunAt b window at first last
    → run_matches_at b window at first last ≡ true
unfolding run_matches_at
run_matches_at_complete b w at first last r =
    ground (arith, r.ordered, r.fits, run_loop_complete b w (last - first) at first r.agrees)

gap_loop_sound :
    (attempt : ℕ → ℕ → Bool × ℕ) (available after n skip steps : ℕ)
    → (gap_loop attempt available after n skip steps).0 ≡ true
    → (k : ℕ) × (skip ≤ k) × (k < skip + n) × ((s : ℕ) × ((attempt (after + k) s).0 ≡ true))
unfolding gap_loop
gap_loop_sound attempt available after zero skip steps e = cc
gap_loop_sound attempt available after (suc n) skip steps e =
    elim (Bool-cases (attempt (after + skip) steps).0) [
      | inl hit ↦ (skip, omega arith, omega arith, (steps, hit))
      | inr miss ↦
          let (k, p, q, r) =
            gap_loop_sound attempt available after n (skip + 1) (attempt (after + skip) steps).1
              (ground arith) in
          (k, omega arith, omega arith, r)
    ]

-- The first round of a loop that fails short of the budget, and what is left of the loop.
gap_loop-missed :
    (attempt : ℕ → ℕ → Bool × ℕ) (available after n skip steps : ℕ)
    → (gap_loop attempt available after (suc n) skip steps).0 ≡ false
    → (gap_loop attempt available after (suc n) skip steps).1 ≤ segment_match_step_budget
    → skip ≤ available
    → let tried = attempt (after + skip) steps in
      (tried.0 ≡ false)
      × (tried.1 ≤ segment_match_step_budget)
      × ((gap_loop attempt available after n (skip + 1) tried.1).0 ≡ false)
      × ((gap_loop attempt available after n (skip + 1) tried.1).1 ≤ segment_match_step_budget)
unfolding gap_loop
gap_loop-missed attempt available after n skip steps e le h = ground arith

gap_loop_complete :
    (attempt : ℕ → ℕ → Bool × ℕ) (available after n skip steps : ℕ)
    → (gap_loop attempt available after n skip steps).0 ≡ false
    → (gap_loop attempt available after n skip steps).1 ≤ segment_match_step_budget
    → (k : ℕ) → skip ≤ k
    → k < skip + n
    → k ≤ available
    → (s : ℕ) × ((attempt (after + k) s).0 ≡ false)
      × ((attempt (after + k) s).1 ≤ segment_match_step_budget)
unfolding gap_loop
gap_loop_complete attempt available after zero skip steps e le k h h' h'' = absurd (omega arith)
gap_loop_complete attempt available after (suc n) skip steps e le k h h' h'' =
    let tried = attempt (after + skip) steps in
    let (miss, short, e', le') =
      gap_loop-missed attempt available after n skip steps e le (omega arith) in
    elim (dec_lt skip k) [
      | yes later ↦
          gap_loop_complete attempt available after n (skip + 1) tried.1 e' le' k (omega arith)
            (omega arith) h''
      | no here ↦ let q : k ≡ skip = omega arith in rw q (steps, miss, short)
    ]

module _ (b : PatternBuffer) (window : List ℕ) where
  -- A search that answers yes has a placement.
  pub try_segments_at-Placed :
      (gaps index at steps : ℕ)
      → (try_segments_at b window gaps index at steps).0 ≡ true
      → Placed b window gaps index at
  unfolding try_segments_at
  try_segments_at-Placed zero index at steps e =
      run_matches_at_sound b window at (segment_begin b index) (segment_end b index) (ground arith)
  try_segments_at-Placed (suc gaps) index at steps e =
      let first = segment_begin b index in
      let last = segment_end b index in
      let after = at + (last - first) in
      let (k, p, q, (s, r)) =
        gap_loop_sound (try_segments_at b window gaps (suc index)) (length window - after) after
          (suc (gap_at b index).max_skip - (gap_at b index).min_skip) (gap_at b index).min_skip
          (suc steps) (ground arith) in
      (
        run_matches_at_sound b window at first last (ground arith),
        (k, p, omega arith, try_segments_at-Placed gaps (suc index) (after + k) s r),
      )

  Placed-fits : (gaps index at : ℕ) → Placed b window gaps index at → at ≤ length window
  Placed-fits zero index at r = omega (arith, r.fits)
  Placed-fits (suc gaps) index at r = omega (arith, r.0.fits)

  -- A search that answers no within its budget has none.
  pub try_segments_at-not-Placed :
      (gaps index at steps : ℕ)
      → (try_segments_at b window gaps index at steps).0 ≡ false
      → (try_segments_at b window gaps index at steps).1 ≤ segment_match_step_budget
      → ¬ Placed b window gaps index at
  unfolding try_segments_at
  try_segments_at-not-Placed zero index at steps e le r =
      ground
        (arith, run_matches_at_complete b window at (segment_begin b index) (segment_end b index) r)
  try_segments_at-not-Placed (suc gaps) index at steps e le (r, (k, p, q, rest)) =
      let first = segment_begin b index in
      let last = segment_end b index in
      let after = at + (last - first) in
      let run = run_matches_at_complete b window at first last r in
      let (s, miss, short) =
        gap_loop_complete (try_segments_at b window gaps (suc index)) (length window - after) after
          (suc (gap_at b index).max_skip - (gap_at b index).min_skip) (gap_at b index).min_skip
          (suc steps) (ground (arith, run)) (ground (arith, run)) k p (omega arith)
          (omega (arith, Placed-fits gaps (suc index) (after + k) rest)) in
      try_segments_at-not-Placed gaps (suc index) (after + k) s miss short rest
