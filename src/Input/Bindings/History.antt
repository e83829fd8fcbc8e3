-- ===== src/Input/Bindings/History.antt =====
-- A poller over time: cycles and reshapes in any order.
use detour_mod_kit.Base.{ℕ, Bool, List, [], ◌∷◌, ◌++◌}
use detour_mod_kit.Text.{Text}
use detour_mod_kit.Input.{InputBinding, Sample, Call}
use detour_mod_kit.Input.Cycle.{Pass, poll_cycle}
use detour_mod_kit.Input.Bindings.{
  KeyCombo, Poller, update_combos, add_bindings, remove_bindings_by_name, clear_bindings,
  release_active_holds, set_consume, set_consume_by_owner,
}

-- What can happen to a poller, one under the lock after the other. A cycle's calls come behind it.
pub data Op : Type 0 where
  cycle : Bool → (Call → Bool) → Bool → Sample → Op
  update : Bool → Bool → ℕ → Text → List KeyCombo → Op
  add : Bool → Bool → ℕ → List InputBinding → Op
  remove : Bool → Bool → ℕ → Text → Bool → Op
  clear : Bool → ℕ → Bool → Op
  release : Op
  consume_named : Bool → ℕ → Text → Bool → Op
  consume_owned : Bool → ℕ → ℕ → Bool → Op

abbrev pub cycled : Pass → Poller → Poller × List Call
cycled pass p = (record p { entries = pass.entries }, pass.calls)

unfoldable pub apply : Op → Poller → Poller × List Call
apply (cycle reserves memory focused s) p =
    cycled (poll_cycle reserves memory focused s p.known_modifiers p.entries) p
apply (update memory caches drawn name combos) p =
    let r = update_combos memory caches drawn name combos p in (r.0, r.2)
apply (add memory caches drawn bs) p = ((add_bindings memory caches drawn bs p).0, [])
apply (remove memory caches drawn name invoke) p =
    let r = remove_bindings_by_name memory caches drawn name invoke p in (r.0, r.2)
apply (clear memory drawn invoke) p = clear_bindings memory drawn invoke p
apply release p = release_active_holds p
apply (consume_named caches drawn name consume) p = (set_consume caches drawn name consume p, [])
apply (consume_owned caches drawn owner consume) p =
    (set_consume_by_owner caches drawn owner consume p, [])

unfoldable pub run : List Op → Poller → Poller × List Call
unfolding apply
run [] p = (p, [])
run (o ∷ os) p = let r = apply o p in let rest = run os r.0 in (rest.0, r.1 ++ rest.1)
