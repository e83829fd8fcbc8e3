-- ===== src/Input/Intercept/Wheel.antt =====
-- The pulses that the wheel's notches become in src/internal/input_intercept.cpp.
use detour_mod_kit.Base.{
  ℕ, zero, suc, ◌+◌, ◌-◌, ◌≤◌, ◌≡◌, refl, ap, ◌∙◌, Bool, true, false, not, ◌&&◌, List, [], ◌∷◌,
  arith, leb, if◌then◌else◌,
}
use detour_mod_kit.Base.Int.{ℤ, pos}
use detour_mod_kit.Input.Intercept.{
  WheelDirection, max_wheel_pending, step_direction, notches, add_notches, bit,
}

-- One cycle of one direction, which takes new notches over and then steps.
unfoldable pub cycle : ℤ → WheelDirection → Bool × WheelDirection
unfolding add_notches step_direction
cycle t d = let e = add_notches t d in step_direction e.pending e.pulsing

-- The cycles of one direction, each with the notches that it takes over.
unfoldable pub run_wheel : List ℤ → WheelDirection → List Bool × WheelDirection
unfolding cycle
run_wheel [] d = ([], d)
run_wheel (t ∷ ts) d =
    let e = add_notches t d in
    let r = step_direction e.pending e.pulsing in
    let rest = run_wheel ts r.1 in (r.0 ∷ rest.0, rest.1)

unfoldable pub pulses : List Bool → ℕ
pulses [] = 0
pulses (b ∷ bs) = bit b + pulses bs

unfoldable pub total : List ℤ → ℕ
total [] = 0
total (t ∷ ts) = notches t + total ts

add_notches-exact :
    (t : ℤ) (d : WheelDirection)
    → d.pending + notches t ≤ max_wheel_pending
    → (add_notches t d).pending ≡ d.pending + notches t
unfolding add_notches
add_notches-exact t d h = ground arith

step-conserves :
    (n : ℕ) (p : Bool) → bit (step_direction n p).0 + (step_direction n p).1.pending ≡ n
unfolding step_direction
step-conserves n true = omega arith
step-conserves zero false = omega arith
step-conserves (suc n) false = omega arith

-- While the notches of a stretch of cycles fit into the backlog none is lost: each is a pulse or still
-- pending.
pub notches_conserved :
    (ts : List ℤ) (d : WheelDirection)
    → d.pending + total ts ≤ max_wheel_pending
    → let r = run_wheel ts d in pulses r.0 + r.1.pending ≡ d.pending + total ts
unfolding run_wheel pulses total
notches_conserved [] d h = omega arith
notches_conserved (t ∷ ts) d h =
    let e = add_notches t d in
    let r = step_direction e.pending e.pulsing in
    let exact = add_notches-exact t d (omega (arith, h)) in
    let one = step-conserves e.pending e.pulsing in
    let more = notches_conserved ts r.1 (omega (arith, h, exact, one)) in
    omega (arith, exact, one, more)

-- Whether no two pulses, of which one may be before, follow each other at once.
unfoldable pub apart : Bool → List Bool → Bool
apart was [] = true
apart was (b ∷ bs) = not (was && b) && apart b bs

step-apart : (n : ℕ) (p : Bool) → not (p && (step_direction n p).0) ≡ true
unfolding step_direction
step-apart n true = refl
step-apart zero false = refl
step-apart (suc n) false = refl

step-pulsing : (n : ℕ) (p : Bool) → (step_direction n p).1.pulsing ≡ (step_direction n p).0
unfolding step_direction
step-pulsing n true = refl
step-pulsing zero false = refl
step-pulsing (suc n) false = refl

-- Whatever notches come, no pulse follows another at once, so that each is an edge of its own, and the
-- backlog stays in its bound.
pub pulses_apart :
    (ts : List ℤ) (d : WheelDirection)
    → d.pending ≤ max_wheel_pending
    → let r = run_wheel ts d in (apart d.pulsing r.0 ≡ true) × (r.1.pending ≤ max_wheel_pending)
unfolding run_wheel apart
pulses_apart [] d h = (refl, h)
pulses_apart (t ∷ ts) d h =
    let e = add_notches t d in
    let r = step_direction e.pending e.pulsing in
    let one = step-apart e.pending e.pulsing in
    let next = step-pulsing e.pending e.pulsing in
    let kept = step-conserves e.pending e.pulsing in
    let bound : e.pending ≤ max_wheel_pending = unfold add_notches in ground arith in
    let more = pulses_apart ts r.1 (omega (arith, kept, bound)) in
    (rw (one, (rw next at more.0)) refl, more.1)

-- Two cycles without a notch, for each of a backlog.
unfoldable pub rests : ℕ → List ℤ
rests zero = []
rests (suc n) = pos 0 ∷ pos 0 ∷ rests n

abbrev pub low : ℕ → WheelDirection
low n = record { pending = n; pulsing = false }

abbrev pub high : ℕ → WheelDirection
high n = record { pending = n; pulsing = true }

nothing_added :
    (n : ℕ)
    → n ≤ max_wheel_pending
    → (if leb (max_wheel_pending - n) 0 then max_wheel_pending else n + 0) ≡ n
nothing_added n h = ground arith

cycle-low : (n : ℕ) → suc n ≤ max_wheel_pending → cycle (pos 0) (low (suc n)) ≡ (true, high n)
unfolding cycle
cycle-low n h = ap (λ m. step_direction m false) (nothing_added (suc n) h)

cycle-high : (n : ℕ) → n ≤ max_wheel_pending → cycle (pos 0) (high n) ≡ (false, low n)
unfolding cycle
cycle-high n h = ap (λ m. step_direction m true) (nothing_added n h)

run_wheel-rests :
    (n : ℕ)
    → suc n ≤ max_wheel_pending
    → let r = run_wheel (rests n) (low n) in
      run_wheel (rests (suc n)) (low (suc n)) ≡ (true ∷ false ∷ r.0, r.1)
unfolding run_wheel rests
run_wheel-rests n h =
    ap (λ r. (r.0 ∷ (run_wheel (pos 0 ∷ rests n) r.1).0, (run_wheel (pos 0 ∷ rests n) r.1).1))
      (cycle-low n h)
    ∙ ap (λ r. (true ∷ r.0 ∷ (run_wheel (rests n) r.1).0, (run_wheel (rests n) r.1).1))
        (cycle-high n (omega (arith, h)))

low_drains :
    (n : ℕ)
    → n ≤ max_wheel_pending
    → let r = run_wheel (rests n) (low n) in (pulses r.0 ≡ n) × (r.1 ≡ low 0)
unfolding run_wheel pulses rests
low_drains zero h = (refl, refl)
low_drains (suc n) h =
    let more = low_drains n (omega (arith, h)) in
    let counted : pulses (true ∷ false ∷ (run_wheel (rests n) (low n)).0) ≡ suc n =
      omega (arith, more.0) in
    (
      ap (λ r. pulses r.0) (run_wheel-rests n h) ∙ counted,
      ap (λ r. r.1) (run_wheel-rests n h) ∙ more.1,
    )

-- Whatever backlog a direction has, and even right after a pulse, it is given out, one pulse for each notch,
-- within twice as many cycles without a notch and one more.
pub backlog_drains :
    (n : ℕ)
    → n ≤ max_wheel_pending
    → let r = run_wheel (rests n) (cycle (pos 0) (high n)).1 in (pulses r.0 ≡ n) × (r.1 ≡ low 0)
unfolding run_wheel
backlog_drains n h =
    let q : (cycle (pos 0) (high n)).1 ≡ low n = ap (λ r. r.1) (cycle-high n h) in
    let drained = low_drains n h in
    (
      ap (λ e. pulses (run_wheel (rests n) e).0) q ∙ drained.0,
      ap (λ e. (run_wheel (rests n) e).1) q ∙ drained.1,
    )
