-- ===== src/Input/Cycle.antt =====
-- One cycle of InputPoller::poll_loop: the evaluation of every binding, its edge callbacks and what it
-- claims of the game's input.
pub mod Matching
use Prim.Native.Nat.{bit_or}
use detour_mod_kit.Base.{
  ℕ, zero, suc, ◌+◌, ◌-◌, ◌^◌, Bool, true, false, not, ◌&&◌, ◌||◌, List, [], ◌∷◌, ◌++◌, Option,
  none, some, leb, if◌then◌else◌, ◌==◌,
}
use detour_mod_kit.Input.{
  InputSource, keyboard, mouse, gamepad, mouse_wheel, InputCode, Trigger, press, hold, InputBinding,
  Sample, wheel_up, wheel_right, is_code_pressed, same_source, modifier_satisfies,
  is_digital_gamepad, Entry, Call, pressed_call, state_call,
}

unfoldable pub all_pressed : Sample → List InputCode → Bool
all_pressed s [] = true
all_pressed s (c ∷ cs) = is_code_pressed c s && all_pressed s cs

unfoldable pub satisfies_any : List InputCode → InputCode → Bool
satisfies_any [] km = false
satisfies_any (m ∷ ms) km = modifier_satisfies m km || satisfies_any ms km

-- No known modifier is held but those that the binding asks for.
unfoldable pub no_other_held : Sample → List InputCode → List InputCode → Bool
unfolding satisfies_any
no_other_held s modifiers [] = true
no_other_held s modifiers (km ∷ kms) =
    (not (is_code_pressed km s) || satisfies_any modifiers km) && no_other_held s modifiers kms

-- The bits that consume bindings own in this cycle.
pub record Claims : Type 0 where
  pub gamepad_owned : ℕ
  pub wheel_owned : ℕ

abbrev pub no_claims : Claims
no_claims = record { gamepad_owned = 0; wheel_owned = 0 }

unfoldable pub claim : InputCode → Claims → Claims
unfolding is_digital_gamepad
claim k c =
    if is_digital_gamepad k
    then record c { gamepad_owned = bit_or c.gamepad_owned k.code }
    else if same_source k.source mouse_wheel && leb wheel_up k.code && leb k.code wheel_right
    then record c { wheel_owned = bit_or c.wheel_owned (2 ^ (k.code - wheel_up)) }
    else c

-- A binding that does not consume stops at its first pressed key.
unfoldable pub scan_keys : Bool → Sample → List InputCode → Bool → Claims → Bool × Claims
unfolding claim
scan_keys consume s [] any c = (any, c)
scan_keys true s (k ∷ ks) any c = scan_keys true s ks (is_code_pressed k s || any) (claim k c)
scan_keys false s (k ∷ ks) any c =
    let more = scan_keys false s ks any c in if is_code_pressed k s then (true, c) else more

unfoldable pub evaluate : Bool → Sample → List InputCode → InputBinding → Claims → Bool × Claims
evaluate focused s known b c =
    if focused && all_pressed s b.modifiers && no_other_held s b.modifiers known
    then scan_keys b.consume s b.keys false c
    else (false, c)

abbrev pub press_calls : Option ℕ → List Call
press_calls none = []
press_calls (some f) = pressed_call f ∷ []

abbrev pub state_calls : Option ℕ → Bool → List Call
state_calls none v = []
state_calls (some f) v = state_call f v ∷ []

abbrev pub differ : Bool → Bool → Bool
differ true false = true
differ false true = true
differ _ _ = false

-- The callbacks that are staged where a binding was active or not and its input is pressed or not.
unfoldable pub edge_calls : Trigger → InputBinding → Bool → Bool → List Call
edge_calls press b was now = if now && not was then press_calls b.on_press else []
edge_calls hold b was now = if differ now was then state_calls b.on_state_change now else []

-- What a cycle has come to: the entries, the claims and the staged calls; `broken` is set where staging
-- ran out of memory, which ends the evaluation.
pub record Pass : Type 0 where
  pub entries : List Entry
  pub claims : Claims
  pub calls : List Call
  pub broken : Bool

-- Whether a call can be staged is up to the memory.
abbrev pub can_stage : (Call → Bool) → List Call → Bool
can_stage memory [] = true
can_stage memory (c ∷ cs) = memory c && can_stage memory cs

-- A binding with no key is passed by. `rest` is the pass over the others that follows it, `further` the one
-- that follows an evaluated binding.
unfoldable pub pass_entry :
    List InputCode → Bool → Entry → List Entry → Bool × Claims → List Call → Pass → Pass → Pass
pass_entry [] staging e es r staged rest further = record rest { entries = e ∷ rest.entries }
pass_entry (k ∷ ks) false e es r staged rest further = record {
  entries = e ∷ es;
  claims = r.1;
  calls = [];
  broken = true;
}
pass_entry (k ∷ ks) true e es r staged rest further = record further {
  entries = record e { active = r.0 } ∷ further.entries;
  calls = staged ++ further.calls;
}

unfoldable pub pass_over :
    (Call → Bool) → Bool → Sample → List InputCode → List Entry → Claims → Pass
unfolding pass_entry
pass_over memory focused s known [] c = record {
  entries = [];
  claims = c;
  calls = [];
  broken = false;
}
pass_over memory focused s known (e ∷ es) c =
    let r = evaluate focused s known e.binding c in
    let staged = edge_calls e.binding.trigger e.binding e.active r.0 in
    let rest = pass_over memory focused s known es c in
    let further = pass_over memory focused s known es r.1 in
    pass_entry e.binding.keys (can_stage memory staged) e es r staged rest further

abbrev pub unevaluated : List Entry → Pass
unevaluated es = record { entries = es; claims = no_claims; calls = []; broken = true }

-- Nothing is evaluated where there is no room for the calls, which is reserved first. The calls of a broken
-- pass are dropped, its states and claims are kept.
unfoldable pub poll_cycle :
    Bool → (Call → Bool) → Bool → Sample → List InputCode → List Entry → Pass
unfolding pass_over
poll_cycle false memory focused s known es = unevaluated es
poll_cycle true memory focused s known es =
    let p = pass_over memory focused s known es no_claims in
    if p.broken then record p { calls = [] } else p
