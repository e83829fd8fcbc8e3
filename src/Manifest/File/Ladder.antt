-- ===== src/Manifest/File/Ladder.antt =====
-- The loop over the rungs of a ladder in parse of src/manifest.cpp ends: the rounds that it is given are
-- enough.
use detour_mod_kit.Base.{
  ℕ, zero, suc, ◌+◌, ◌≤◌, ◌<◌, ◌≡◌, ◌≢◌, ◌⊎◌, refl, sym, ap, ◌∙◌, true, false, List, [], ◌∷◌, ◌++◌,
  none, some, arith, ==_refl, if◌then◌else◌, Bool-cases, Option-cases, inl, inr, length,
}
use detour_mod_kit.Text.{Text, codes, text_eq, text_eq_refl, eq_of_text_eq}
use detour_mod_kit.Text.Decimal.{digits, is_digit, AreDigits}
use detour_mod_kit.Text.Unsigned.{unsigned_values}
use detour_mod_kit.Errors.{ErrorCode, Result, value, failure}
use detour_mod_kit.Manifest.Numbers.{lower, to_lower}
use detour_mod_kit.Manifest.{CandidateSpec}
use detour_mod_kit.Manifest.Sections.{◌>>=◌, parse_rung}
use detour_mod_kit.Manifest.Entries.{same}
use detour_mod_kit.Manifest.File.{Ini, has_section, rung_section, read_rungs, parse_index}
use detour_mod_kit.Manifest.File.Names.{parse_index-digits, digits-form}
use detour_mod_kit.Manifest.File.Reading.{read_rungs-end}

same-append : (s a b : Text) → same (s ++ a) (s ++ b) ≡ same a b
unfolding same to_lower text_eq
same-append [] a b = refl
same-append (c ∷ s) a b = rw (==_refl (lower c)) (same-append s a b)

to_lower-AreDigits : (s : Text) → AreDigits s → to_lower s ≡ s
unfolding to_lower is_digit
to_lower-AreDigits [] h = refl
to_lower-AreDigits (c ∷ s) (d, h) =
    let q : lower c ≡ c = ground arith in rw (to_lower-AreDigits s h) (ap (λ x. x ∷ s) q)

to_lower-digits : (n : ℕ) → n < unsigned_values → to_lower (digits n) ≡ digits n
to_lower-digits n h =
    let (c, cs, e, d) = digits-form n h in ap to_lower e ∙ to_lower-AreDigits (c ∷ cs) d ∙ sym e

-- Two rungs of one ladder have sections of different names.
rungs_differ :
    (section : Text) (i j : ℕ)
    → i < unsigned_values
    → j < unsigned_values
    → i ≢ j
    → same (rung_section section i) (rung_section section j) ≡ false
rungs_differ section i j hi hj d =
    elim (Bool-cases (same (rung_section section i) (rung_section section j))) [
      | inr q ↦ q
      | inl q ↦
          let tails : same (digits i) (digits j) ≡ true =
            sym (same-append (codes ".rung.") (digits i) (digits j))
            ∙ sym (same-append section (codes ".rung." ++ digits i) (codes ".rung." ++ digits j))
            ∙ q in
          let lowered : to_lower (digits i) ≡ to_lower (digits j) =
            eq_of_text_eq (to_lower (digits i)) (to_lower (digits j)) (unfold same in tails) in
          let texts : digits i ≡ digits j =
            sym (to_lower-digits i hi) ∙ lowered ∙ to_lower-digits j hj in
          let numbers : some i ≡ some j =
            sym (parse_index-digits i hi) ∙ ap (parse_index 0) texts ∙ parse_index-digits j hj in
          let equal : i ≡ j = ground arith in elim (d equal) [ ]
    ]

same_trans : (x s t : Text) → same x s ≡ true → same x t ≡ true → same s t ≡ true
unfolding same
same_trans x s t h k =
    let p = eq_of_text_eq (to_lower x) (to_lower s) h in
    let q = eq_of_text_eq (to_lower x) (to_lower t) k in rw (sym p ∙ q) (text_eq_refl (to_lower t))

-- The list without the first name that is the same.
without_first : List Text → Text → List Text
without_first [] s = []
without_first (t ∷ ts) s = let rest = without_first ts s in if same t s then ts else t ∷ rest

length-without_first :
    (ts : List Text) (s : Text)
    → has_section ts s ≡ true
    → length ts ≡ suc (length (without_first ts s))
unfolding has_section without_first
length-without_first [] s h = ground arith
length-without_first (t ∷ ts) s h = elim (Bool-cases (same t s)) [
  | inl q ↦ rw q refl
  | inr q ↦ let more = length-without_first ts s (rw q at h) in rw q (omega (arith, more))
]

has_section-without_first :
    (ts : List Text) (s u : Text)
    → same s u ≡ false
    → has_section ts u ≡ true
    → has_section (without_first ts s) u ≡ true
unfolding has_section without_first
has_section-without_first [] s u d h = h
has_section-without_first (t ∷ ts) s u d h = elim (Bool-cases (same t s)) [
  | inl q ↦ elim (Bool-cases (same t u)) [
    | inl r ↦ let both = same_trans t s u q r in ground arith
    | inr r ↦ rw q (rw r at h)
  ]
  | inr q ↦ elim (Bool-cases (same t u)) [
    | inl r ↦ rw (q, r) refl
    | inr r ↦ rw (q, r) (has_section-without_first ts s u d (rw r at h))
  ]
]

Result-cases {ℓ} :
    {A : Type ℓ} (r : Result A) → ((a : A) × (r ≡ value a)) ⊎ ((e : ErrorCode) × (r ≡ failure e))
Result-cases (value a) = inl (a, refl)
Result-cases (failure e) = inr (e, refl)

module _ (ini : Ini) (st : ini.Store) (section : Text) where
  -- What the loop without a bound comes to from a rung on: it ends at the first that is missing, or at one
  -- that does not parse.
  pub data Ladder : ℕ → Result (List CandidateSpec × ℕ) → Type 0 where
    missing :
        {i : ℕ}
        → ini.get_value st (rung_section section i) (codes "mode") ≡ none
        → Ladder i (value ([], i))
    refused :
        {i : ℕ} {v : Text} {e : ErrorCode}
        → ini.get_value st (rung_section section i) (codes "mode") ≡ some v
        → parse_rung (ini.get_value st (rung_section section i)) ≡ failure e
        → Ladder i (failure e)
    broken :
        {i : ℕ} {v : Text} {s : CandidateSpec} {e : ErrorCode}
        → ini.get_value st (rung_section section i) (codes "mode") ≡ some v
        → parse_rung (ini.get_value st (rung_section section i)) ≡ value s
        → Ladder (suc i) (failure e)
        → Ladder i (failure e)
    read :
        {i n : ℕ} {v : Text} {s : CandidateSpec} {ss : List CandidateSpec}
        → ini.get_value st (rung_section section i) (codes "mode") ≡ some v
        → parse_rung (ini.get_value st (rung_section section i)) ≡ value s
        → Ladder (suc i) (value (ss, n))
        → Ladder i (value (s ∷ ss, n))

  -- The rungs from an index on have their names in the list.
  Listed : ℕ → List Text → Type 0
  Listed i names =
      (j : ℕ) (v : Text)
      → i ≤ j
      → j < unsigned_values
      → ini.get_value st (rung_section section j) (codes "mode") ≡ some v
      → has_section names (rung_section section j) ≡ true

  Listed-next :
      (i : ℕ) (names : List Text)
      → Listed i names
      → i < unsigned_values
      → Listed (suc i) (without_first names (rung_section section i))
  unfolding Listed
  Listed-next i names l h j v le k q =
      let other : i ≢ j = λ e. omega (arith, e) in
      has_section-without_first names (rung_section section i) (rung_section section j)
        (rungs_differ section i j h k other) (l j v (omega (arith, le)) k q)

  step_refused :
      (f i : ℕ) (v : Text) (e : ErrorCode)
      → ini.get_value st (rung_section section i) (codes "mode") ≡ some v
      → parse_rung (ini.get_value st (rung_section section i)) ≡ failure e
      → read_rungs ini (suc f) st section i ≡ failure e
  unfolding read_rungs
  step_refused f i v e h p = rw (h, read_rungs) (rw p)

  step_read :
      (f i : ℕ) (v : Text) (s : CandidateSpec)
      → ini.get_value st (rung_section section i) (codes "mode") ≡ some v
      → parse_rung (ini.get_value st (rung_section section i)) ≡ value s
      → read_rungs ini (suc f) st section i
        ≡ (read_rungs ini f st section (suc i) >>= λ r. value (s ∷ r.0, r.1))
  unfolding read_rungs
  step_read f i v s h p = rw (h, read_rungs) (rw p)

  rounds :
      (f i : ℕ) (names : List Text)
      → Listed i names
      → length names < f
      → i + length names < unsigned_values
      → Ladder i (read_rungs ini f st section i)
  rounds zero i names l h k = ground arith
  rounds (suc f) i names l h k =
      elim (Option-cases (ini.get_value st (rung_section section i) (codes "mode"))) [
        | inl q ↦ rw (read_rungs-end ini st f section i q) (missing q)
        | inr (v, q) ↦
            elim (Result-cases (parse_rung (ini.get_value st (rung_section section i)))) [
              | inr (e, p) ↦ rw (step_refused f i v e q p) (refused q p)
              | inl (s, p) ↦
                  let here : has_section names (rung_section section i) ≡ true =
                    unfold Listed in l i v (omega arith) (omega (arith, k)) q in
                  let fewer = length-without_first names (rung_section section i) here in
                  let further =
                    rounds f (suc i) (without_first names (rung_section section i))
                      (Listed-next i names l (omega (arith, k))) (omega (arith, fewer, h))
                      (omega (arith, fewer, k)) in
                  elim (Result-cases (read_rungs ini f st section (suc i))) [
                    | inl (r, w) ↦ rw (step_read f i v s q p, w) (read q p (rw w at further))
                    | inr (e, w) ↦ rw (step_read f i v s q p, w) (broken q p (rw w at further))
                  ]
            ]
      ]

  -- For any store of fewer than 2^64 sections, all of which are listed where a key of them is set, however
  -- many rungs a ladder has and whatever they hold: as many rounds as there are sections and one more, which parse gives the
  -- loop over the rungs, come to what the loop without a bound comes to, which thus ends.
  pub read_rungs-Ladder :
      ((s k v : Text) → ini.get_value st s k ≡ some v → has_section (ini.sections st) s ≡ true)
      → length (ini.sections st) < unsigned_values
      → Ladder 0 (read_rungs ini (suc (length (ini.sections st))) st section 0)
  unfolding Listed
  read_rungs-Ladder listed h =
      rounds (suc (length (ini.sections st))) 0 (ini.sections st)
        (λ j v le k q. listed (rung_section section j) (codes "mode") v q) (omega arith)
        (omega (arith, h))
