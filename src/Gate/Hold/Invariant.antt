-- ===== src/Gate/Hold/Invariant.antt =====
-- The hold gate's invariant between calls.
use detour_mod_kit.Base.{
  ◌+◌, ◌-◌, ◌≡◌, refl, Bool, true, false, not, List, [], ◌∷◌, ◌++◌, Option, none, some, arith, ltb,
}
use detour_mod_kit.Gate.Hold.{
  HoldGate, Reaction, forward, deliver, release, fresh, Event, edge, releases_guard, sets_enabled,
  handle, run,
}

-- The state that a consumer is in who was in state `b` and has been told `bs`; `none` if it was told
-- what it knew.
abbrev pub follow : Bool → List Bool → Option Bool
follow b [] = some b
follow true (true ∷ bs) = none
follow true (false ∷ bs) = follow false bs
follow false (true ∷ bs) = follow true bs
follow false (false ∷ bs) = none

follow-concat :
    (b : Bool) (bs : List Bool) (c : Bool)
    → follow b bs ≡ some c
    → follow b (bs ++ not c ∷ []) ≡ some (not c)
follow-concat true [] c h = ground arith
follow-concat false [] c h = ground arith
follow-concat true (true ∷ bs) c h = cc
follow-concat true (false ∷ bs) c h = follow-concat false bs c h
follow-concat false (true ∷ bs) c h = follow-concat true bs c h
follow-concat false (false ∷ bs) c h = cc

-- Between calls: nothing is being delivered or put off; the consumer has been told edges in turn, and
-- is in the state that the gate keeps; until the release, that is whether an entry is held; after
-- it, not held.
pub record Inv (g : HoldGate) : Type 0 where
  pub idle : g.delivering ≡ false
  pub settled : g.deferred_final ≡ false
  pub in_turn : g.has_callback ≡ true → follow false g.told ≡ some g.forwarded_active
  pub aggregate : g.released ≡ false → g.forwarded_active ≡ ltb 0 g.active_entries
  pub balanced : g.released ≡ true → g.has_callback ≡ true → g.forwarded_active ≡ false

pub fresh-Inv : (c : Bool) → Inv (fresh c)
fresh-Inv c = record {
  idle = refl;
  settled = refl;
  in_turn = λ h. refl;
  aggregate = λ h. refl;
  balanced = λ h k. refl;
}

forward-Inv :
    (r r' : Reaction) (active : Bool) (g : HoldGate)
    → g.released ≡ false
    → g.deferred_final ≡ false
    → (g.has_callback ≡ true → follow false g.told ≡ some (not active))
    → active ≡ ltb 0 g.active_entries
    → Inv (forward r r' active g).0
unfolding forward
forward-Inv r r' true g a b c d =
    let once = follow-concat false g.told false in
    let twice = follow-concat false (g.told ++ true ∷ []) true in ground (arith, once, twice)
forward-Inv r r' false g a b c d =
    let once = follow-concat false g.told true in ground (arith, once)

pub release-Inv : (r : Reaction) (g : HoldGate) → Inv g → Inv (release r g).0
unfolding release
release-Inv r g v = ground (arith, follow-concat false g.told true)

pub deliver-Inv :
    (r r' : Reaction) (active : Bool) (g : HoldGate) → Inv g → Inv (deliver r r' active g).0
unfolding deliver
deliver-Inv r r' true g v =
    ground (arith, forward-Inv r r' true (record g { active_entries = g.active_entries + 1 }))
deliver-Inv r r' false g v =
    ground (arith, forward-Inv r r' false (record g { active_entries = g.active_entries - 1 }))

pub handle-Inv : (e : Event) (g : HoldGate) → Inv g → Inv (handle e g)
unfolding handle
handle-Inv (edge r r' active) g v = deliver-Inv r r' active g v
handle-Inv (releases_guard r) g v = release-Inv r g v
handle-Inv (sets_enabled on) g v = ground arith

run-Inv : (es : List Event) (g : HoldGate) → Inv g → Inv (run es g)
unfolding run
run-Inv [] g v = v
run-Inv (e ∷ es) g v = run-Inv es (handle e g) (handle-Inv e g v)

pub run-fresh-Inv : (has_callback : Bool) (es : List Event) → Inv (run es (fresh has_callback))
run-fresh-Inv c es = run-Inv es (fresh c) (fresh-Inv c)
