-- ===== src/Tests/Gate.antt =====
-- The input gates and the key cache.
use detour_mod_kit.Base.{◌+◌, ◌≡◌, refl, true, false, List, [], ◌∷◌, some}
use detour_mod_kit.Gate.Hold.{
  Reaction, fresh, Event, edge, sets_enabled, run, handle, deliver, release,
}
use detour_mod_kit.Gate.Hold.Invariant.{follow}
use detour_mod_kit.Gate.Hold.Balance.{release_final}
use detour_mod_kit.Gate.Press.{PressGate, deliver_all, one_shot}
use detour_mod_kit.Gate.Keys.{KeyStateCache, pressed_down}

abbrev quiet : Reaction
quiet = record { releases = false; throws = false }

abbrev self_release : Reaction
self_release = record { releases = true; throws = true }

-- Two entries of one hold; the callback releases its own guard, and throws, on the first press.
abbrev events : List Event
events =
    edge quiet quiet true
    ∷ edge quiet quiet true
    ∷ edge quiet quiet false
    ∷ sets_enabled false
    ∷ edge quiet quiet false
    ∷ sets_enabled true
    ∷ edge quiet quiet false
    ∷ edge self_release quiet true
    ∷ edge quiet quiet false
    ∷ []

run-events : (run events (fresh true)).told ≡ true ∷ false ∷ true ∷ false ∷ []
unfolding run handle deliver
run-events = refl

release_final_example :
    let g = (release quiet (run (edge quiet quiet true ∷ []) (fresh true))).0 in
    (follow false g.told ≡ some false) × ((run events g).told ≡ g.told)
release_final_example = release_final (edge quiet quiet true ∷ []) events quiet

abbrev press_gate : PressGate
press_gate = record { enabled = some true; has_callback = true; released = false; presses = 4 }

one_shot_example : (deliver_all (true ∷ false ∷ false ∷ []) press_gate).presses ≡ 4 + 1
one_shot_example = one_shot press_gate (false ∷ false ∷ []) refl refl refl

abbrev stale : KeyStateCache
stale = λ vk. pressed_down
