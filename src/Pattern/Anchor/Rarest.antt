-- ===== src/Pattern/Anchor/Rarest.antt =====
-- What both anchor selections choose: the first of the rarest fully known bytes of segment 0.
use detour_mod_kit.Base.{
  ℕ, zero, suc, ◌+◌, ◌≤◌, ◌<◌, ◌≡◌, ◌≢◌, ◌⊎◌, inl, inr, refl, Bool, true, false, ◌||◌, arith, ltb,
  ◌==◌, Bool-cases, ltb→lt, get_or,
}
use detour_mod_kit.Pattern.{PatternBuffer, size, no_anchor, byte_frequency_class}
use detour_mod_kit.Pattern.Anchor.{
  segment0_end, mask_at, score_at, select_loop, select_anchor, select_pattern_anchor,
}

-- `a` is the sentinel where no byte below `end` is fully known, and otherwise the first index below
-- `end` of a fully known byte with the least score.
pub data Rarest (b : PatternBuffer) (end sentinel a : ℕ) : Type 0 where
  none_full : a ≡ sentinel → ((i : ℕ) → i < end → mask_at b i ≢ 0xFF) → Rarest b end sentinel a
  found :
      a < end
      → mask_at b a ≡ 0xFF
      → ((i : ℕ) → i < end → mask_at b i ≡ 0xFF → score_at b a ≤ score_at b i)
      → ((i : ℕ) → i < a → mask_at b i ≡ 0xFF → score_at b a < score_at b i)
      → Rarest b end sentinel a

score_le : (v : ℕ) → byte_frequency_class v ≤ 10
unfolding byte_frequency_class
score_le v = ground arith

-- The loop's `best` and `best_score` in front of index `i`.
data Best (b : PatternBuffer) (i sentinel best best_score : ℕ) : Type 0 where
  start :
      best ≡ sentinel
      → best_score ≡ 0xFF
      → ((j : ℕ) → j < i → mask_at b j ≢ 0xFF)
      → Best b i sentinel best best_score
  candidate :
      best < i
      → mask_at b best ≡ 0xFF
      → best_score ≡ score_at b best
      → ((j : ℕ) → j < i → mask_at b j ≡ 0xFF → best_score ≤ score_at b j)
      → ((j : ℕ) → j < best → mask_at b j ≡ 0xFF → best_score < score_at b j)
      → Best b i sentinel best best_score

module _ (b : PatternBuffer) (sentinel : ℕ) where
  -- Below `i + 1` is below `i`, or at `i`.
  split_at : (i j : ℕ) → j < i + 1 → (j < i) ⊎ (j ≡ i)
  split_at i j h = ground arith

  skipped :
      (i best best_score : ℕ)
      → mask_at b i ≢ 0xFF
      → Best b i sentinel best best_score
      → Best b (i + 1) sentinel best best_score
  skipped i best bs h (start p q r) =
      start p q λ j k. elim (split_at i j k) [ inl below ↦ r j below | inr here ↦ rw here h ]
  skipped i best bs h (candidate p q r s t) =
      candidate (omega arith) q r
        (λ j k m. elim (split_at i j k) [
          | inl below ↦ s j below m
          | inr here ↦ absurd (h (rw here at m))
        ])
        t

  -- A fully known byte that is not rarer is passed over.
  kept :
      (i best best_score : ℕ)
      → best_score ≢ 0xFF
      → best_score ≤ score_at b i
      → Best b i sentinel best best_score
      → Best b (i + 1) sentinel best best_score
  kept i best bs h le (start p q r) = absurd (h q)
  kept i best bs h le (candidate p q r s t) =
      candidate (omega arith) q r
        (λ j k m. elim (split_at i j k) [ inl below ↦ s j below m | inr here ↦ rw here le ]) t

  -- A fully known byte that is rarer than all before it is taken.
  taken :
      (i best best_score : ℕ)
      → mask_at b i ≡ 0xFF
      → score_at b i < best_score
      → Best b i sentinel best best_score
      → Best b (i + 1) sentinel i (score_at b i)
  taken i best bs full lt (start p q r) =
      candidate (omega arith) full refl
        (λ j k m. elim (split_at i j k) [
          | inl below ↦ absurd (r j below m)
          | inr here ↦ rw here (omega arith)
        ])
        (λ j k m. absurd (r j k m))
  taken i best bs full lt (candidate p q r s t) =
      candidate (omega arith) full refl
        (λ j k m. elim (split_at i j k) [
          | inl below ↦ omega (arith, s j below m)
          | inr here ↦ rw here (omega arith)
        ])
        (λ j k m. omega (arith, s j k m))

  -- Score 0 ends the search: no later byte can be rarer.
  stopped :
      (i end : ℕ)
      → i < end
      → score_at b i ≡ 0
      → Best b (i + 1) sentinel i (score_at b i)
      → Rarest b end sentinel i
  stopped i end h z (start p q r) = absurd (omega arith)
  stopped i end h z (candidate p q r s t) = found h q (λ j k m. omega arith) t

  finished :
      (end best best_score : ℕ) → Best b end sentinel best best_score → Rarest b end sentinel best
  finished end best bs (start p q r) = none_full p r
  finished end best bs (candidate p q r s t) =
      found p q (λ j k m. omega (arith, s j k m)) (λ j k m. omega (arith, t j k m))

  rarer :
      (f : Bool) (i best best_score : ℕ)
      → (best < i → f ≡ false)
      → (f || ltb (score_at b i) best_score) ≡ true
      → Best b i sentinel best best_score
      → score_at b i < best_score
  rarer f i best bs only h (start p q r) = omega (arith, q, score_le (get_or b.bytes i 0))
  rarer true i best bs only h (candidate p q r s t) = cc (only p)
  rarer false i best bs only h (candidate p q r s t) = ltb→lt _ _ h

  -- `fresh` may only hold of the sentinel.
  select_loop-Rarest :
      (fresh : ℕ → Bool) (end : ℕ)
      → ((j : ℕ) → j < end → fresh j ≡ false)
      → (n i best best_score : ℕ) → i + n ≡ end
      → Best b i sentinel best best_score
      → Rarest b end sentinel (select_loop fresh b n i best best_score)
  unfolding select_loop
  select_loop-Rarest fresh end only zero i best bs e v =
      let e' : i ≡ end = omega arith in finished end best bs (rw e' at v)
  select_loop-Rarest fresh end only (suc n) i best bs e v =
      elim (Bool-cases (mask_at b i == 0xFF)) [
        | inr partial ↦ rw partial (
            select_loop-Rarest fresh end only n (i + 1) best bs (omega arith)
              (skipped i best bs (ground arith) v))
        | inl full ↦ rw full (elim (Bool-cases (fresh best || ltb (score_at b i) bs)) [
          | inr common ↦ rw common (
              select_loop-Rarest fresh end only n (i + 1) best bs (omega arith)
                (kept i best bs (ground (arith, score_le (get_or b.bytes i 0))) (ground arith) v))
          | inl rare ↦ rw rare (elim (Bool-cases (score_at b i == 0)) [
            | inl zero_score ↦ rw zero_score (
                stopped i end (omega arith) (ground arith) (
                  taken i best bs (ground arith)
                    (rarer (fresh best) i best bs (λ k. only best (omega arith)) rare v) v))
            | inr more ↦ rw more (
                select_loop-Rarest fresh end only n (i + 1) i (score_at b i) (omega arith) (
                  taken i best bs (ground arith)
                    (rarer (fresh best) i best bs (λ k. only best (omega arith)) rare v) v))
          ])
        ])
      ]

Rarest-unique :
    (b : PatternBuffer) (end n m x y : ℕ)
    → Rarest b end n x
    → Rarest b end m y
    → ((x ≡ n) × (y ≡ m)) ⊎ ((x < end) × (x ≡ y))
Rarest-unique b end n m x y (none_full p q) (none_full r s) = inl (p, r)
Rarest-unique b end n m x y (none_full p q) (found r s t u) = absurd (q y r s)
Rarest-unique b end n m x y (found r s t u) (none_full p q) = absurd (q x r s)
Rarest-unique b end n m x y (found p q r s) (found p' q' r' s') =
    inr (p, grind (arith, s y, s' x, r y p' q', r' x p q))

start-Best : (b : PatternBuffer) (sentinel : ℕ) → Best b 0 sentinel sentinel 0xFF
start-Best b sentinel = start refl refl (λ j h. absurd (omega arith))

-- On any buffer, the compile-time selection answers the first of the rarest fully known bytes of
-- segment 0, or its sentinel where there is none.
pub select_anchor-Rarest :
    (b : PatternBuffer) → Rarest b (segment0_end b) no_anchor (select_anchor b)
unfolding select_anchor
select_anchor-Rarest b =
    select_loop-Rarest b no_anchor (λ best. false) (segment0_end b) (λ j h. refl) (segment0_end b) 0
      no_anchor 0xFF (omega arith) (start-Best b no_anchor)

-- The engine's selection, where no gap stands behind the pattern's end.
pub select_pattern_anchor-Rarest :
    (b : PatternBuffer)
    → segment0_end b ≤ size b
    → Rarest b (segment0_end b) (size b) (select_pattern_anchor b)
unfolding select_pattern_anchor
select_pattern_anchor-Rarest b h =
    select_loop-Rarest b (size b) (λ best. best == size b) (segment0_end b) (λ j k. ground arith)
      (segment0_end b) 0 (size b) 0xFF (omega arith) (start-Best b (size b))

-- Where segment 0 ends within the pattern, the compile-time and the engine's selection answer the same
-- index of it, or each its own sentinel.
pub anchors_agree :
    (b : PatternBuffer)
    → segment0_end b ≤ size b
    → ((select_anchor b ≡ no_anchor) × (select_pattern_anchor b ≡ size b))
      ⊎ ((select_anchor b < segment0_end b) × (select_anchor b ≡ select_pattern_anchor b))
anchors_agree b h =
    Rarest-unique b (segment0_end b) no_anchor (size b) (select_anchor b) (select_pattern_anchor b)
      (select_anchor-Rarest b) (select_pattern_anchor-Rarest b h)
