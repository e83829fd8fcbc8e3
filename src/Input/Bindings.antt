-- ===== src/Input/Bindings.antt =====
-- The binding set of an InputPoller and the operations that reshape it. The bindings and their active
-- states, which are arrays of one length, are one list; each operation holds the writer lock throughout and
-- calls the callbacks after it, which is what it returns. The name index is the names in the list while
-- `indexed` holds. Known modifiers are listed in the order of their first use, where the code has a hash
-- set's order. What a rebuild publishes to the interception, its chord rules and a drain of the wheel's counts,
-- is left out.
pub mod History
pub mod Rebuild
pub mod Strict
pub mod Names
pub mod Updates
pub mod Tokens
pub mod Balance
use detour_mod_kit.Base.{
  ℕ, zero, suc, ◌+◌, ◌-◌, Bool, true, false, not, ◌&&◌, ◌||◌, List, [], ◌∷◌, ◌++◌, map, Option,
  none, some, ◌==◌, ltb, if◌then◌else◌, length, get_or,
}
use detour_mod_kit.Text.{Text, text_eq}
use detour_mod_kit.Input.{
  InputCode, same_code, same_source, gamepad, mouse_wheel, is_digital_gamepad, Trigger, press, hold,
  InputBinding, Entry, Call, state_call,
}
use detour_mod_kit.Input.Cycle.{state_calls, differ}

pub record KeyCombo : Type 0 where
  pub keys : List InputCode
  pub modifiers : List InputCode

pub record Poller : Type 0 where
  pub entries : List Entry
  pub indexed : Bool
  pub known_modifiers : List InputCode
  pub has_gamepad_bindings : Bool
  pub has_wheel_bindings : Bool
  pub has_consume_gamepad_bindings : Bool
  pub generation : ℕ

unfoldable pub contains_code : List InputCode → InputCode → Bool
contains_code [] c = false
contains_code (d ∷ ds) c = same_code d c || contains_code ds c

unfoldable pub insert_codes : List InputCode → List InputCode → List InputCode
unfolding contains_code
insert_codes [] known = known
insert_codes (c ∷ cs) known =
    insert_codes cs (if contains_code known c then known else known ++ c ∷ [])

unfoldable pub modifiers_of : List Entry → List InputCode → List InputCode
unfolding insert_codes
modifiers_of [] known = known
modifiers_of (e ∷ es) known = modifiers_of es (insert_codes e.binding.modifiers known)

unfoldable pub any_code : (InputCode → Bool) → List InputCode → Bool
any_code p [] = false
any_code p (c ∷ cs) = p c || any_code p cs

unfoldable pub any_entry : (Entry → Bool) → List Entry → Bool
any_entry p [] = false
any_entry p (e ∷ es) = p e || any_entry p es

abbrev pub from_source : (InputCode → Bool) → Entry → Bool
from_source p e = any_code p e.binding.keys || any_code p e.binding.modifiers

unfoldable pub scan_for_gamepad_bindings : List Entry → Bool
unfolding any_entry any_code
scan_for_gamepad_bindings = any_entry (from_source λ c. same_source c.source gamepad)

unfoldable pub scan_for_wheel_bindings : List Entry → Bool
unfolding any_entry any_code
scan_for_wheel_bindings =
    any_entry λ e. any_code (λ c. same_source c.source mouse_wheel) e.binding.keys

unfoldable pub scan_for_consume_gamepad_bindings : List Entry → Bool
unfolding any_entry any_code is_digital_gamepad
scan_for_consume_gamepad_bindings =
    any_entry λ e. e.binding.consume && any_code is_digital_gamepad e.binding.keys

-- The generations of the process only grow: `drawn` is the one that this rebuild draws. Without memory the
-- caches are emptied.
unfoldable pub recompute : Bool → ℕ → List Entry → Poller → Poller
unfolding modifiers_of
recompute memory drawn es p =
    if memory
    then record {
      entries = es;
      indexed = true;
      known_modifiers = modifiers_of es [];
      has_gamepad_bindings = scan_for_gamepad_bindings es;
      has_wheel_bindings = scan_for_wheel_bindings es;
      has_consume_gamepad_bindings = scan_for_consume_gamepad_bindings es;
      generation = drawn;
    }
    else record {
      entries = es;
      indexed = false;
      known_modifiers = [];
      has_gamepad_bindings = false;
      has_wheel_bindings = false;
      has_consume_gamepad_bindings = false;
      generation = drawn;
    }

abbrev pub is_empty : Text → Bool
is_empty [] = true
is_empty (c ∷ cs) = false

-- An empty name is not in the index.
unfoldable pub named : Text → Entry → Bool
named name e = not (is_empty e.binding.name) && text_eq e.binding.name name

unfoldable pub with_name : Text → List Entry → List Entry
with_name name [] = []
with_name name (e ∷ es) = let rest = with_name name es in if named name e then e ∷ rest else rest

unfoldable pub without_name : Text → List Entry → List Entry
without_name name [] = []
without_name name (e ∷ es) =
    let rest = without_name name es in if named name e then rest else e ∷ rest

abbrev pub release_of : Trigger → InputBinding → List Call
release_of press b = []
release_of hold b = state_calls b.on_state_change false

abbrev pub with_combo : KeyCombo → Entry → Entry
with_combo c e = record e {
  binding = record (e.binding) { keys = c.keys; modifiers = c.modifiers };
}

abbrev pub with_consume : Bool → Entry → Entry
with_consume consume e = record e { binding = record (e.binding) { consume = consume } }

abbrev pub fresh_entry : InputBinding → KeyCombo → Entry
fresh_entry b c = record {
  binding = record b { keys = c.keys; modifiers = c.modifiers };
  active = false;
}

abbrev pub release_call : Entry → List Call
release_call e = if e.active then release_of e.binding.trigger e.binding else []

-- The calls that tell every active hold of the list that it is over.
unfoldable pub release_calls : List Entry → List Call
release_calls [] = []
release_calls (e ∷ es) = release_call e ++ release_calls es

-- The combos take the places of the named entries, in order, which keep the rest of them.
unfoldable pub rewrite_combos : Text → List KeyCombo → List Entry → List Entry
rewrite_combos name combos [] = []
rewrite_combos name [] (e ∷ es) = e ∷ es
rewrite_combos name (c ∷ cs) (e ∷ es) =
    let here = rewrite_combos name cs es in
    let later = rewrite_combos name (c ∷ cs) es in
    if named name e then with_combo c e ∷ here else e ∷ later

unfoldable pub fresh_entries : InputBinding → List KeyCombo → List Entry
fresh_entries prototype [] = []
fresh_entries prototype (c ∷ cs) = fresh_entry prototype c ∷ fresh_entries prototype cs

abbrev pub no_combo : KeyCombo
no_combo = record { keys = []; modifiers = [] }

-- An empty replacement leaves an entry with no keys.
abbrev pub appended : InputBinding → List KeyCombo → List Entry
appended prototype [] = fresh_entry prototype no_combo ∷ []
appended prototype (c ∷ cs) = fresh_entries prototype (c ∷ cs)

-- `memory` is that of the operation and `caches` that of the rebuild. The Boolean is what is returned.
unfoldable pub update_named :
    Bool → Bool → ℕ → Text → List KeyCombo → List Entry → Poller → Poller × Bool × List Call
update_named memory caches drawn name combos [] p = (p, false, [])
update_named memory caches drawn name combos (first ∷ more) p =
    if memory
    then if length (first ∷ more) == length combos
      then (recompute caches drawn (rewrite_combos name combos p.entries) p, true, [])
      else (
        recompute caches drawn (without_name name p.entries ++ appended first.binding combos) p,
        true,
        release_calls (first ∷ more),
      )
    else (p, false, [])

unfoldable pub update_combos :
    Bool → Bool → ℕ → Text → List KeyCombo → Poller → Poller × Bool × List Call
unfolding update_named
update_combos memory caches drawn name combos p =
    update_named memory caches drawn name combos
      (if p.indexed then with_name name p.entries else []) p

abbrev pub inactive : InputBinding → Entry
inactive b = record { binding = b; active = false }

-- add_binding is add_bindings of one.
unfoldable pub add_bindings : Bool → Bool → ℕ → List InputBinding → Poller → Poller × Bool
add_bindings memory caches drawn [] p = (p, true)
add_bindings memory caches drawn (b ∷ bs) p =
    if memory
    then (recompute caches drawn (p.entries ++ map inactive (b ∷ bs)) p, true)
    else (p, false)

unfoldable pub remove_named :
    Bool → Bool → ℕ → Text → Bool → List Entry → Poller → Poller × ℕ × List Call
remove_named memory caches drawn name invoke [] p = (p, 0, [])
remove_named memory caches drawn name invoke (e ∷ es) p =
    if memory
    then (
      recompute caches drawn (without_name name p.entries) p,
      length (e ∷ es),
      if invoke then release_calls (e ∷ es) else [],
    )
    else (p, 0, [])

unfoldable pub remove_bindings_by_name :
    Bool → Bool → ℕ → Text → Bool → Poller → Poller × ℕ × List Call
unfolding remove_named
remove_bindings_by_name memory caches drawn name invoke p =
    remove_named memory caches drawn name invoke
      (if p.indexed then with_name name p.entries else []) p

-- The index stays one of no names.
unfoldable pub clear_bindings : Bool → ℕ → Bool → Poller → Poller × List Call
clear_bindings memory drawn invoke p =
    if memory
    then (
      record {
        entries = [];
        indexed = p.indexed;
        known_modifiers = [];
        has_gamepad_bindings = false;
        has_wheel_bindings = false;
        has_consume_gamepad_bindings = false;
        generation = drawn;
      },
      if invoke then release_calls p.entries else [],
    )
    else (p, [])

abbrev pub deactivate : Entry → Entry
deactivate e = record e { active = false }

-- Where memory lasts.
unfoldable pub release_active_holds : Poller → Poller × List Call
unfolding release_calls
release_active_holds p = (record p { entries = map deactivate p.entries }, release_calls p.entries)

unfoldable pub set_named_consume : Text → Bool → List Entry → List Entry
set_named_consume name consume [] = []
set_named_consume name consume (e ∷ es) =
    (if named name e then with_consume consume e else e) ∷ set_named_consume name consume es

unfoldable pub set_consume : Bool → ℕ → Text → Bool → Poller → Poller
unfolding set_named_consume with_name
set_consume caches drawn name consume p =
    elim (if p.indexed then with_name name p.entries else []) [
      | [] ↦ p
      | e ∷ es ↦ recompute caches drawn (set_named_consume name consume p.entries) p
    ]

abbrev pub owned_by : ℕ → Bool → Entry → Bool
owned_by owner consume e = e.binding.consume_owner == owner && differ e.binding.consume consume

unfoldable pub set_owned_consume : ℕ → Bool → List Entry → List Entry
set_owned_consume owner consume [] = []
set_owned_consume owner consume (e ∷ es) =
    (if owned_by owner consume e then with_consume consume e else e)
    ∷ set_owned_consume owner consume es

-- The owner 0 is nobody.
unfoldable pub set_consume_by_owner : Bool → ℕ → ℕ → Bool → Poller → Poller
unfolding set_owned_consume any_entry
set_consume_by_owner caches drawn owner consume p =
    if owner == 0
    then p
    else if any_entry (owned_by owner consume) p.entries
    then recompute caches drawn (set_owned_consume owner consume p.entries) p
    else p
