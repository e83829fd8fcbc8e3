-- ===== src/Tests/Input.antt =====
-- The input poller.
use detour_mod_kit.Base.{
  arith, ◌&&◌, AnyOf, ℕ, ◌+◌, ◌≡◌, ◌↔◌, inl, refl, Bool, true, false, List, [], ◌∷◌, ◌++◌, map, All,
  none, some, ◌==◌, ◌||◌,
}
use detour_mod_kit.Base.Int.{pos}
use detour_mod_kit.Text.{Text, text_eq}
use detour_mod_kit.Input.{
  keyboard, InputCode, press, hold, InputBinding, Gamepad, Sample, Call, state_call,
  is_code_pressed, modifier_satisfies,
}
use detour_mod_kit.Input.Cycle.{
  no_claims, evaluate, poll_cycle, edge_calls, all_pressed, no_other_held, satisfies_any, scan_keys,
}
use detour_mod_kit.Input.Cycle.Matching.{IsDown, Allows, evaluate_iff}
use detour_mod_kit.Input.Bindings.{
  KeyCombo, Poller, modifiers_of, with_name, update_combos, release_active_holds, named,
  release_calls, recompute, without_name, fresh_entries, rewrite_combos,
}
use detour_mod_kit.Input.Bindings.History.{Op, cycle, update, run}
use detour_mod_kit.Input.Bindings.Balance.{told, active_holds}
use detour_mod_kit.Input.Bindings.Balance.Histories.{AllTold, held_balance, released_at_end}
use detour_mod_kit.Input.Bindings.Tokens.{
  acquire_binding_token, binding_token_current, is_token_active, is_name_active, is_index_active,
}
use detour_mod_kit.Input.Bindings.Tokens.Agreement.{token_agrees}
use detour_mod_kit.Input.Bindings.Tokens.Reshapes.{DrawsAnew}
use detour_mod_kit.Input.Bindings.Strict.{Blocks, strict_matching}
use detour_mod_kit.Input.Bindings.Updates.{combo_of, or_none, update_combos-combos}

abbrev key : ℕ → InputCode
key vk = record { source = keyboard; code = vk }

abbrev shift : InputCode
shift = key 0x10

abbrev left_shift : InputCode
left_shift = key 0xA0

abbrev zoom : Text
zoom = 122 ∷ []

abbrev mark : Text
mark = 109 ∷ []

-- A hold on V with Shift, with callback 7, and a press on V alone, with callback 8.
abbrev zoom_binding : InputBinding
zoom_binding = record {
  name = zoom;
  keys = key 0x56 ∷ [];
  modifiers = shift ∷ [];
  trigger = hold;
  consume = false;
  consume_owner = 0;
  on_press = none;
  on_state_change = some 7;
}

abbrev mark_binding : InputBinding
mark_binding = record {
  name = mark;
  keys = key 0x56 ∷ [];
  modifiers = [];
  trigger = press;
  consume = false;
  consume_owner = 0;
  on_press = some 8;
  on_state_change = none;
}

abbrev pad : Gamepad
pad = record {
  buttons = 0;
  left_trigger = 0;
  right_trigger = 0;
  left_x = pos 0;
  left_y = pos 0;
  right_x = pos 0;
  right_y = pos 0;
}

abbrev sample : (ℕ → Bool) → Sample
sample down = record {
  key_down = down;
  gamepad_state = pad;
  gamepad_connected = false;
  trigger_threshold = 30;
  stick_threshold = 8000;
  wheel_pulse = 0;
}

-- Left Shift and V.
abbrev both : Sample
both = sample λ vk. vk == 0xA0 || vk == 0x10 || vk == 0x56

abbrev nothing : Sample
nothing = sample λ vk. false

abbrev poller : Poller
poller = record {
  entries =
      record { binding = zoom_binding; active = false }
      ∷ record { binding = mark_binding; active = false }
      ∷ [];
  indexed = true;
  known_modifiers = shift ∷ [];
  has_gamepad_bindings = false;
  has_wheel_bindings = false;
  has_consume_gamepad_bindings = false;
  generation = 1;
}

abbrev lasts : Call → Bool
lasts c = true

abbrev combo : ℕ → KeyCombo
combo vk = record { keys = key vk ∷ []; modifiers = [] }

abbrev no_keys : KeyCombo
no_keys = record { keys = []; modifiers = [] }

-- Pressed, rebound to two combos, pressed again.
abbrev ops : List Op
ops =
    cycle true lasts true both
    ∷ update true true 2 zoom (combo 0x46 ∷ combo 0x47 ∷ [])
    ∷ cycle true lasts true (sample λ vk. vk == 0x46)
    ∷ []

run-ops : (run ops poller).1 ≡ state_call 7 true ∷ state_call 7 false ∷ state_call 7 true ∷ []
unfolding run poll_cycle edge_calls evaluate all_pressed is_code_pressed no_other_held
    modifier_satisfies scan_keys update_combos with_name named text_eq release_calls recompute
    without_name fresh_entries
run-ops = refl

-- A held binding whose one combo is replaced by one with no keys stays active, and is told of no release
-- while it is polled.
held_unbound :
    let r =
      run
        (cycle true lasts true both
          ∷ update true true 2 zoom (no_keys ∷ [])
          ∷ cycle true lasts true nothing
          ∷ cycle true lasts true nothing
          ∷ [])
        poller in
    (r.1 ≡ state_call 7 true ∷ []) × (active_holds 7 r.0.entries ≡ 1)
unfolding run active_holds poll_cycle edge_calls evaluate all_pressed is_code_pressed no_other_held
    modifier_satisfies scan_keys update_combos with_name named text_eq recompute rewrite_combos
held_unbound = (refl, refl)

held_balance_example :
    let r = run ops poller in
    told 7 true r.1 + active_holds 7 poller.entries ≡ told 7 false r.1 + active_holds 7 r.0.entries
unfolding AllTold
held_balance_example = held_balance 7 ops poller ((λ c. refl), (tt, ((λ c. refl), tt)))

released_at_end_example :
    let r = run ops poller in
    let last = release_active_holds r.0 in
    (active_holds 7 last.0.entries ≡ 0)
    × (told 7 true (r.1 ++ last.1) ≡ told 7 false (r.1 ++ last.1))
unfolding AllTold active_holds
released_at_end_example = released_at_end 7 ops poller ((λ c. refl), (tt, ((λ c. refl), tt))) refl

evaluate_iff_example : ((evaluate true both (shift ∷ []) zoom_binding no_claims).0 ≡ true) ↔ (
    (true ≡ true)
    × All (IsDown both) (shift ∷ [])
    × All (Allows both (shift ∷ [])) (shift ∷ [])
    × AnyOf (IsDown both) (key 0x56 ∷ []))
evaluate_iff_example = evaluate_iff true both (shift ∷ []) zoom_binding no_claims

strict_matching_example :
    evaluate true both (modifiers_of poller.entries []) mark_binding no_claims ≡ (false, no_claims)
unfolding Blocks is_code_pressed satisfies_any modifier_satisfies
strict_matching_example =
    strict_matching true both poller.entries mark_binding no_claims (inl (inl (refl, refl)))

update_combos-combos_example :
    map combo_of (with_name zoom (update_combos true true 2 zoom [] poller).0.entries) ≡ or_none []
unfolding update_combos with_name named text_eq
update_combos-combos_example = update_combos-combos true true 2 zoom [] poller refl

token_agrees_example :
    let q = (run ops poller).0 in
    let token = acquire_binding_token true zoom poller in
    is_token_active token q ≡ (binding_token_current token q && is_name_active zoom q)
unfolding DrawsAnew
token_agrees_example =
    token_agrees true zoom ops poller (λ e. omega (arith, e))
      (tt, ((λ e. omega (arith, e)), (tt, tt)))

-- Held after the first cycle, by name, by index and by token; the update makes the token stale.
tokens :
    let token = acquire_binding_token true zoom poller in
    let held = (run (cycle true lasts true both ∷ []) poller).0 in
    let reshaped = (run ops poller).0 in
    (is_token_active token held ≡ true)
    × (is_name_active zoom held ≡ true)
    × (is_index_active 0 held ≡ true)
    × (is_name_active zoom reshaped ≡ true)
    × (is_token_active token reshaped ≡ false)
unfolding run acquire_binding_token is_token_active is_name_active is_index_active poll_cycle
    edge_calls evaluate all_pressed is_code_pressed no_other_held modifier_satisfies scan_keys
    update_combos with_name named text_eq release_calls recompute without_name fresh_entries
tokens = (refl, refl, refl, refl, refl)
