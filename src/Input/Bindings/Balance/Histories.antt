-- ===== src/Input/Bindings/Balance/Histories.antt =====
-- Cycles and reshapes of a poller of internal/input_poller.cpp in any order, and what the callbacks of holds
-- are told.
use detour_mod_kit.Base.{ℕ, ◌+◌, ◌≡◌, true, false, List, [], ◌∷◌, ◌++◌, arith}
use detour_mod_kit.Input.{Entry, Call}
use detour_mod_kit.Input.Bindings.{
  Poller, release_calls, update_combos, remove_bindings_by_name, release_active_holds,
}
use detour_mod_kit.Input.Bindings.History.{
  Op, cycle, update, add, remove, clear, release, consume_named, consume_owned, apply, run,
}
use detour_mod_kit.Input.Bindings.Balance.{
  told, active_holds, told-append, Balanced, unchanged, cycle-Balanced,
}
use detour_mod_kit.Input.Bindings.Balance.Reshapes.{told-release_calls, active_holds-deactivate}
use detour_mod_kit.Input.Bindings.Balance.Operations.{
  update_found-Balanced, add_bindings-Balanced, remove_found-Balanced, clear_bindings-Balanced,
  release-Balanced, set_consume-Balanced, set_consume_by_owner-Balanced,
}

-- No memory runs out while calls are staged, and what is removed is told of its release.
unfoldable pub Told : Op → Type 0
Told (cycle reserves memory focused s) = (c : Call) → memory c ≡ true
Told (remove memory caches drawn name invoke) = invoke ≡ true
Told (clear memory drawn invoke) = invoke ≡ true
Told _ = Unit

unfoldable pub AllTold : List Op → Type 0
unfolding Told
AllTold [] = Unit
AllTold (o ∷ os) = Told o × AllTold os

apply-Balanced :
    (f : ℕ) (o : Op) (p : Poller)
    → Told o
    → let r = apply o p in Balanced f r.1 p.entries r.0.entries
unfolding apply Told update_combos remove_bindings_by_name
apply-Balanced f (cycle reserves memory focused s) p t =
    cycle-Balanced reserves memory t f focused s p.known_modifiers p.entries
apply-Balanced f (update memory caches drawn name combos) p t =
    update_found-Balanced f memory caches drawn name combos p p.indexed
apply-Balanced f (add memory caches drawn bs) p t = add_bindings-Balanced f memory caches drawn bs p
apply-Balanced f (remove memory caches drawn name invoke) p t =
    rw t (remove_found-Balanced f memory caches drawn name p p.indexed)
apply-Balanced f (clear memory drawn invoke) p t = rw t (clear_bindings-Balanced f memory drawn p)
apply-Balanced f release p t = release-Balanced f p
apply-Balanced f (consume_named caches drawn name consume) p t =
    set_consume-Balanced f caches drawn name consume p
apply-Balanced f (consume_owned caches drawn owner consume) p t =
    set_consume_by_owner-Balanced f caches drawn owner consume p

joined :
    (f : ℕ) (cs ds : List Call) (before between after : List Entry)
    → Balanced f cs before between
    → Balanced f ds between after
    → Balanced f (cs ++ ds) before after
unfolding Balanced
joined f cs ds before between after h k =
    omega (arith, h, k, told-append f true cs ds, told-append f false cs ds)

run-Balanced :
    (f : ℕ) (os : List Op) (p : Poller)
    → AllTold os
    → let r = run os p in Balanced f r.1 p.entries r.0.entries
unfolding run AllTold
run-Balanced f [] p t = unchanged f p.entries
run-Balanced f (o ∷ os) p t =
    let r = apply o p in
    joined f r.1 (run os r.0).1 p.entries r.0.entries (run os r.0).0.entries
      (apply-Balanced f o p t.0) (run-Balanced f os r.0 t.1)

-- Over any cycles and reshapes, of which none runs out of memory while it stages calls and none removes
-- bindings in silence, the presses that the callback of a hold is told of and its active entries before are
-- as many as the releases that it is told of and its active entries after.
pub held_balance :
    (f : ℕ) (os : List Op) (p : Poller)
    → AllTold os
    → let r = run os p in
      told f true r.1 + active_holds f p.entries ≡ told f false r.1 + active_holds f r.0.entries
unfolding Balanced
held_balance f os p t = run-Balanced f os p t

-- A poller starts with no active entry, and releases the active holds at its end, which no hold survives:
-- under the same conditions every callback is told of as many releases as presses.
pub released_at_end :
    (f : ℕ) (os : List Op) (p : Poller)
    → AllTold os
    → active_holds f p.entries ≡ 0
    → let r = run os p in
      let last = release_active_holds r.0 in
      (active_holds f last.0.entries ≡ 0)
      × (told f true (r.1 ++ last.1) ≡ told f false (r.1 ++ last.1))
unfolding release_active_holds
released_at_end f os p t z =
    let r = run os p in
    let last = told-release_calls f r.0.entries in
    (
      active_holds-deactivate f r.0.entries,
      omega (
        arith,
        held_balance f os p t,
        z,
        last.0,
        last.1,
        told-append f true r.1 (release_calls r.0.entries),
        told-append f false r.1 (release_calls r.0.entries),
      ),
    )
