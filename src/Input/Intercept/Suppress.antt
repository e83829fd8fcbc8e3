-- ===== src/Input/Intercept/Suppress.antt =====
-- The consume-until-release latch of one gamepad button of src/internal/input_intercept.cpp over time.
use detour_mod_kit.Base.{
  ℕ, ◌+◌, ◌%◌, ◌^◌, ◌≤◌, ◌<◌, ◌≡◌, refl, ap, Bool, true, false, ◌||◌, List, [], ◌∷◌, ◌++◌, map, All,
  arith, ltb, if◌then◌else◌, Bool-cases, inl, inr,
}
use detour_mod_kit.Input.Intercept.{Latch, held_sentinel, held, step_grace, step_latch}

-- What a cycle knows of the button.
pub record Cycle : Type 0 where
  pub owned : Bool
  pub phys_down : Bool
  pub now_ms : ℕ

-- The masked cycles.
unfoldable pub masks : ℕ → List Cycle → Latch → List Bool
unfolding step_latch
masks grace [] l = []
masks grace (c ∷ cs) l =
    let r = step_latch c.owned c.phys_down c.now_ms grace l in r.0 ∷ masks grace cs r.1

unfoldable pub IsHeld : Cycle → Type 0
IsHeld c = (c.owned || c.phys_down) ≡ true

-- The button is up, no binding claims it, and the clock does not go back.
unfoldable pub Released : ℕ → List Cycle → Type 0
Released t [] = Unit
Released t (c ∷ cs) = ((c.owned || c.phys_down) ≡ false) × (t ≤ c.now_ms) × Released c.now_ms cs

unfoldable pub before : ℕ → Cycle → Bool
before deadline c = ltb c.now_ms deadline

masks-held :
    (grace : ℕ) (cs rest : List Cycle)
    → All IsHeld cs
    → masks grace (cs ++ rest) held ≡ map (λ c. true) cs ++ masks grace rest held
unfolding masks IsHeld
masks-held grace [] rest h = refl
masks-held grace (c ∷ cs) rest h = rw h.0 (ap (λ r. true ∷ r) (masks-held grace cs rest h.1))

abbrev free : Latch
free = record { armed = false; deadline_ms = 0 }

abbrev releasing : ℕ → Latch
releasing d = record { armed = true; deadline_ms = d }

step-free :
    (o b : Bool) (now grace : ℕ) → (o || b) ≡ false → step_latch o b now grace free ≡ (false, free)
unfolding step_latch
step-free o b now grace h = ground arith

-- While the deadline lasts the button is masked, then it is free.
graced : ℕ → ℕ → Bool × Latch
graced now d = if ltb now d then (true, releasing d) else (false, free)

step-releasing :
    (o b : Bool) (now grace d : ℕ)
    → (o || b) ≡ false
    → d < held_sentinel
    → step_latch o b now grace (releasing d) ≡ graced now d
unfolding step_latch graced step_grace
step-releasing o b now grace d h k = ground arith

step-held :
    (o b : Bool) (now grace : ℕ)
    → (o || b) ≡ false
    → now + grace < held_sentinel
    → step_latch o b now grace held ≡ graced now (now + grace)
unfolding step_latch graced step_grace
step-held o b now grace h k =
    let small : (now + grace) % 2 ^ 64 ≡ now + grace = omega arith in ground arith

masks-free :
    (grace d t : ℕ) (cs : List Cycle)
    → d ≤ t
    → Released t cs
    → masks grace cs free ≡ map (before d) cs
unfolding masks Released before
masks-free grace d t [] le h = refl
masks-free grace d t (c ∷ cs) le h =
    let late : ltb c.now_ms d ≡ false = ground arith in
    let more = masks-free grace d c.now_ms cs (omega (arith, le, h.1)) h.2 in
    rw (step-free c.owned c.phys_down c.now_ms grace h.0, late, more) refl

masks-releasing :
    (grace d t : ℕ) (cs : List Cycle)
    → d < held_sentinel
    → Released t cs
    → masks grace cs (releasing d) ≡ map (before d) cs
unfolding masks Released before graced
masks-releasing grace d t [] k h = refl
masks-releasing grace d t (c ∷ cs) k h = elim (Bool-cases (ltb c.now_ms d)) [
  | inl q ↦
      rw
        (
          step-releasing c.owned c.phys_down c.now_ms grace d h.0 k,
          q,
          masks-releasing grace d c.now_ms cs k h.2,
        )
        refl
  | inr q ↦
      let late : d ≤ c.now_ms = ground arith in
      rw
        (
          step-releasing c.owned c.phys_down c.now_ms grace d h.0 k,
          q,
          masks-free grace d c.now_ms cs late h.2,
        )
        refl
]

first_release :
    (grace : ℕ) (c : Cycle) (cs : List Cycle)
    → c.now_ms + grace < held_sentinel
    → Released c.now_ms (c ∷ cs)
    → masks grace (c ∷ cs) held ≡ map (before (c.now_ms + grace)) (c ∷ cs)
unfolding masks Released before graced
first_release grace c cs k h = elim (Bool-cases (ltb c.now_ms (c.now_ms + grace))) [
  | inl q ↦
      rw
        (
          step-held c.owned c.phys_down c.now_ms grace h.0 k,
          q,
          masks-releasing grace (c.now_ms + grace) c.now_ms cs k h.2,
        )
        refl
  | inr q ↦
      let late : c.now_ms + grace ≤ c.now_ms = ground arith in
      rw
        (
          step-held c.owned c.phys_down c.now_ms grace h.0 k,
          q,
          masks-free grace (c.now_ms + grace) c.now_ms cs late h.2,
        )
        refl
]

-- Once a binding claims a button, whatever its latch was, the button is masked in that cycle and in all that
-- follow while it is claimed or down; from the first cycle in which it is neither it is masked for the grace
-- time, by a clock that does not go back and is far from its end, and not longer.
pub masks-until_up :
    (grace : ℕ) (l : Latch) (claim : Cycle) (cs : List Cycle) (up : Cycle) (ups : List Cycle)
    → claim.owned ≡ true
    → All IsHeld cs
    → up.now_ms + grace < held_sentinel
    → Released up.now_ms (up ∷ ups)
    → masks grace (claim ∷ cs ++ up ∷ ups) l
      ≡ true ∷ map (λ c. true) cs ++ map (before (up.now_ms + grace)) (up ∷ ups)
unfolding masks step_latch
masks-until_up grace l claim cs up ups o h k r =
    let rest = masks-held grace cs (up ∷ ups) h in
    let released = first_release grace up ups k r in rw (o, rest, released) refl
