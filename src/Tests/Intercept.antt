-- ===== src/Tests/Intercept.antt =====
-- The wheel and the suppressed buttons.
use detour_mod_kit.Base.{ℕ, ◌+◌, ◌≤◌, ◌≡◌, refl, true, false, List, [], ◌∷◌, ◌++◌, map, arith}
use detour_mod_kit.Base.Int.{pos, negsuc}
use detour_mod_kit.Input.Intercept.{
  WheelDirection, max_wheel_pending, step_wheel_pulse, add_wheel_notches, mask_of, Latch,
  step_gamepad_suppress,
}
use detour_mod_kit.Input.Intercept.Wheel.{run_wheel, apart, pulses_apart, low, high}
use detour_mod_kit.Input.Intercept.Suppress.{Cycle, masks, IsHeld, Released, before, masks-until_up}

abbrev four : List WheelDirection
four = low 0 ∷ low 0 ∷ high 2 ∷ low 3 ∷ []

-- Two up, a corrupt count and a burst.
stepped :
    mask_of (step_wheel_pulse (add_wheel_notches (pos 2 ∷ negsuc 4 ∷ pos 0 ∷ pos 99 ∷ []) four)).0
    ≡ 9
unfolding mask_of step_wheel_pulse add_wheel_notches
stepped = refl

pulses_apart_example :
    let r = run_wheel (pos 40 ∷ pos 5 ∷ pos 0 ∷ []) (high 3) in
    (apart true r.0 ≡ true) × (r.1.pending ≤ max_wheel_pending)
pulses_apart_example = pulses_apart (pos 40 ∷ pos 5 ∷ pos 0 ∷ []) (high 3) (omega arith)

abbrev claiming : Cycle
claiming = record { owned = true; phys_down = false; now_ms = 1000 }

abbrev pressing : Cycle
pressing = record { owned = false; phys_down = true; now_ms = 1016 }

abbrev up_at : ℕ → Cycle
up_at t = record { owned = false; phys_down = false; now_ms = t }

abbrev unarmed : Latch
unarmed = record { armed = false; deadline_ms = 0 }

masks_run :
    masks 60 (claiming ∷ pressing ∷ up_at 1032 ∷ up_at 1080 ∷ up_at 1096 ∷ []) unarmed
    ≡ true ∷ true ∷ true ∷ true ∷ false ∷ []
unfolding masks
masks_run = refl

masks-until_up_example :
    masks 60 (claiming ∷ (pressing ∷ []) ++ up_at 1032 ∷ up_at 1080 ∷ up_at 1096 ∷ []) unarmed
    ≡ true ∷ map (λ c. true) (pressing ∷ [])
      ++ map (before (1032 + 60)) (up_at 1032 ∷ up_at 1080 ∷ up_at 1096 ∷ [])
unfolding IsHeld Released
masks-until_up_example =
    masks-until_up 60 unarmed claiming (pressing ∷ []) (up_at 1032) (up_at 1080 ∷ up_at 1096 ∷ [])
      refl (refl, tt) (omega arith)
      (refl, omega arith, (refl, omega arith, (refl, omega arith, tt)))

-- The button of the second bit is claimed, that of the third is let go.
suppressed :
    mask_of
      (step_gamepad_suppress
        (false ∷ true ∷ false ∷ [])
        (true ∷ false ∷ false ∷ [])
        5
        10
        (unarmed ∷ unarmed ∷ record { armed = true; deadline_ms = 9 } ∷ [])).0
    ≡ 6
unfolding mask_of step_gamepad_suppress
suppressed = refl
