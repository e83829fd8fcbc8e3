-- ===== src/Input/Intercept.antt =====
-- The steps of the two latches of src/internal/input_intercept.cpp that the poll loop owns: the wheel's pulses
-- and the suppression of gamepad buttons. A bit mask is a list of bits, the lowest first; its number is what
-- `mask_of` makes of it.
pub mod Wheel
pub mod Suppress
use detour_mod_kit.Base.{
  ℕ, zero, suc, ◌+◌, ◌-◌, ◌*◌, ◌%◌, ◌^◌, Bool, true, false, not, ◌&&◌, ◌||◌, List, [], ◌∷◌, ltb,
  leb, ◌==◌, if◌then◌else◌,
}
use detour_mod_kit.Base.Int.{ℤ, pos, negsuc}

-- One direction of the wheel: `pending` notches, and whether the cycle before made a pulse.
pub record WheelDirection : Type 0 where
  pub pending : ℕ
  pub pulsing : Bool

abbrev pub max_wheel_pending : ℕ
max_wheel_pending = 16

unfoldable pub step_direction : ℕ → Bool → Bool × WheelDirection
step_direction pending true = (false, record { pending = pending; pulsing = false })
step_direction zero false = (false, record { pending = 0; pulsing = false })
step_direction (suc n) false = (true, record { pending = n; pulsing = true })

unfoldable pub step_wheel_pulse : List WheelDirection → List Bool × List WheelDirection
unfolding step_direction
step_wheel_pulse [] = ([], [])
step_wheel_pulse (d ∷ ds) =
    let r = step_direction d.pending d.pulsing in
    let rest = step_wheel_pulse ds in (r.0 ∷ rest.0, r.1 ∷ rest.1)

abbrev pub notches : ℤ → ℕ
notches (pos n) = n
notches (negsuc n) = 0

unfoldable pub add_notches : ℤ → WheelDirection → WheelDirection
add_notches taken d = record d {
  pending =
      if leb (max_wheel_pending - d.pending) (notches taken)
      then max_wheel_pending
      else d.pending + notches taken;
}

unfoldable pub add_wheel_notches : List ℤ → List WheelDirection → List WheelDirection
unfolding add_notches
add_wheel_notches (t ∷ ts) (d ∷ ds) = add_notches t d ∷ add_wheel_notches ts ds
add_wheel_notches _ ds = ds

abbrev pub bit : Bool → ℕ
bit true = 1
bit false = 0

unfoldable pub mask_of : List Bool → ℕ
mask_of [] = 0
mask_of (b ∷ bs) = bit b + 2 * mask_of bs

-- One button of a GamepadSuppressState.
pub record Latch : Type 0 where
  pub armed : Bool
  pub deadline_ms : ℕ

abbrev pub held_sentinel : ℕ
held_sentinel = 2 ^ 64 - 1

abbrev pub held : Latch
held = record { armed = true; deadline_ms = held_sentinel }

-- The release grace of a button that is up.
unfoldable pub step_grace : ℕ → ℕ → Latch → Bool × Latch
step_grace now_ms grace_ms l =
    let deadline =
      if l.deadline_ms == held_sentinel then (now_ms + grace_ms) % 2 ^ 64 else l.deadline_ms in
    if ltb now_ms deadline
    then (true, record { armed = true; deadline_ms = deadline })
    else (false, record { armed = false; deadline_ms = 0 })

unfoldable pub step_latch : Bool → Bool → ℕ → ℕ → Latch → Bool × Latch
unfolding step_grace
step_latch owned phys_down now_ms grace_ms l =
    if owned || (l.armed && phys_down)
    then (true, held)
    else if l.armed
    then step_grace now_ms grace_ms l
    else (false, l)

-- Both lists of bits are as long as the latches.
unfoldable pub step_gamepad_suppress :
    List Bool → List Bool → ℕ → ℕ → List Latch → List Bool × List Latch
unfolding step_latch
step_gamepad_suppress (o ∷ os) (b ∷ bs) now_ms grace_ms (l ∷ ls) =
    let r = step_latch o b now_ms grace_ms l in
    let rest = step_gamepad_suppress os bs now_ms grace_ms ls in (r.0 ∷ rest.0, r.1 ∷ rest.1)
step_gamepad_suppress _ _ now_ms grace_ms ls = ([], ls)
