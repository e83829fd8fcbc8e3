-- ===== src/Gate/Hold.antt =====
-- HoldGate. Its recursive mutex makes each call one step, but for a call that the user callback makes
-- from inside a delivery. What a callback does in one call, beside being told its argument, is a
-- Reaction: it may release its own guard, and it may throw. `told` records the arguments, in order.
pub mod Invariant
pub mod Balance
use detour_mod_kit.Base.{
  ℕ, ◌+◌, ◌-◌, Bool, true, false, not, ◌&&◌, List, [], ◌∷◌, ◌++◌, Option, none, some, ◌==◌,
  if◌then◌else◌,
}

-- `enabled` is `none` where the shared flag is null; `has_callback` is `bool(on_state_change)`.
pub record HoldGate : Type 0 where
  pub enabled : Option Bool
  pub has_callback : Bool
  pub active_entries : ℕ
  pub forwarded_active : Bool
  pub released : Bool
  pub delivering : Bool
  pub deferred_final : Bool
  pub told : List Bool

pub record Reaction : Type 0 where
  pub releases : Bool
  pub throws : Bool

-- `release()` from inside the callback. A callback runs only while `delivering` or `released` is set, so
-- the source's last branch, which would deliver, is not reached from here.
release_nested : HoldGate → HoldGate
release_nested g =
    if g.released
    then g
    else if g.delivering
    then record g { released = true; deferred_final = true }
    else g

-- `on_state_change(b)`: the gate behind the call, and whether it threw.
call : Reaction → Bool → HoldGate → HoldGate × Bool
unfolding release_nested
call r b g =
    let heard : HoldGate = record g { told = g.told ++ b ∷ [] } in
    (if r.releases then release_nested heard else heard, r.throws)

-- The synthetic `false`, where a `true` is outstanding. Both drains of `deliver` and the end of
-- `release` share it.
balance : Reaction → HoldGate → HoldGate × Bool
unfolding call
balance r g =
    if g.forwarded_active && g.has_callback
    then call r false (record g { forwarded_active = false })
    else (g, false)

drain : Reaction → HoldGate → HoldGate × Bool
unfolding balance
drain r g = if g.deferred_final then balance r (record g { deferred_final = false }) else (g, false)

-- `deliver` behind the test of the boundary: the callback, the drain on either way out, and the
-- exception that surfaces. One that the drain throws while another unwinds is swallowed.
forward : Reaction → Reaction → Bool → HoldGate → HoldGate × Bool
unfolding call drain
forward r r' active g =
    let started : HoldGate = record g { forwarded_active = active; delivering = true } in
    let (g', threw) = if g.has_callback then call r active started else (started, false) in
    let (g'', threw_too) = drain r' (record g' { delivering = false }) in
    (g'', if threw then true else threw_too)

is_disabled : Option Bool → Bool
is_disabled none = false
is_disabled (some on) = not on

unfoldable pub deliver : Reaction → Reaction → Bool → HoldGate → HoldGate × Bool
unfolding forward is_disabled
deliver r r' active g =
    if g.released
    then (g, false)
    else if is_disabled g.enabled
    then (g, false)
    else if active
    then if g.active_entries == 0
      then forward r r' true (record g { active_entries = g.active_entries + 1 })
      else (record g { active_entries = g.active_entries + 1 }, false)
    else if g.active_entries == 0
    then (g, false)
    else if g.active_entries - 1 == 0
    then forward r r' false (record g { active_entries = g.active_entries - 1 })
    else (record g { active_entries = g.active_entries - 1 }, false)

-- From outside a delivery, and for the branch behind `delivering` too.
unfoldable pub release : Reaction → HoldGate → HoldGate × Bool
unfolding balance
release r g =
    if g.released
    then (g, false)
    else if g.delivering
    then (record g { released = true; deferred_final = true }, false)
    else balance r (record g { released = true })

abbrev pub fresh : Bool → HoldGate
fresh has_callback = record {
  enabled = some true;
  has_callback = has_callback;
  active_entries = 0;
  forwarded_active = false;
  released = false;
  delivering = false;
  deferred_final = false;
  told = [];
}

-- What may happen to a gate from outside: an edge of one of its entries, the guard's release, and a
-- write to the shared flag.
pub data Event : Type 0 where
  edge : Reaction → Reaction → Bool → Event
  releases_guard : Reaction → Event
  sets_enabled : Bool → Event

unfoldable pub handle : Event → HoldGate → HoldGate
unfolding deliver release
handle (edge r r' active) g = (deliver r r' active g).0
handle (releases_guard r) g = (release r g).0
handle (sets_enabled on) g = record g { enabled = some on }

unfoldable pub run : List Event → HoldGate → HoldGate
run [] g = g
run (e ∷ es) g = run es (handle e g)
