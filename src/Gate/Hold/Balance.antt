-- ===== src/Gate/Hold/Balance.antt =====
-- What the consumer of a hold is told.
use detour_mod_kit.Gate.Hold.Invariant.{follow, release-Inv, run-fresh-Inv}
use detour_mod_kit.Base.{
  ℕ, ◌+◌, ◌-◌, ◌≡◌, refl, ap, ◌∙◌, Bool, true, false, List, [], ◌∷◌, some, arith,
}
use detour_mod_kit.Gate.Hold.{
  HoldGate, Reaction, deliver, release, fresh, Event, edge, releases_guard, sets_enabled, handle,
  run,
}

handle-released : (e : Event) (g : HoldGate) → g.released ≡ true → (handle e g).released ≡ true
unfolding handle deliver release
handle-released (edge r r' active) g h = ground arith
handle-released (releases_guard r) g h = ground arith
handle-released (sets_enabled on) g h = ground arith

handle-quiet : (e : Event) (g : HoldGate) → g.released ≡ true → (handle e g).told ≡ g.told
unfolding handle deliver release
handle-quiet (edge r r' active) g h = ground arith
handle-quiet (releases_guard r) g h = ground arith
handle-quiet (sets_enabled on) g h = ground arith

run-quiet : (es : List Event) (g : HoldGate) → g.released ≡ true → (run es g).told ≡ g.told
unfolding run
run-quiet [] g h = refl
run-quiet (e ∷ es) g h = run-quiet es (handle e g) (handle-released e g h) ∙ handle-quiet e g h

release-released :
    (r : Reaction) (g : HoldGate) → g.delivering ≡ false → (release r g).0.released ≡ true
unfolding release
release-released r g h = ground arith

handle-has_callback : (e : Event) (g : HoldGate) → (handle e g).has_callback ≡ g.has_callback
unfolding handle deliver release
handle-has_callback (edge r r' true) g = ground arith
handle-has_callback (edge r r' false) g = ground arith
handle-has_callback (releases_guard r) g = ground arith
handle-has_callback (sets_enabled on) g = refl

release-has_callback : (r : Reaction) (g : HoldGate) → (release r g).0.has_callback ≡ g.has_callback
unfolding handle
release-has_callback r g = handle-has_callback (releases_guard r) g

run-has_callback : (es : List Event) (g : HoldGate) → (run es g).has_callback ≡ g.has_callback
unfolding run
run-has_callback [] g = refl
run-has_callback (e ∷ es) g = run-has_callback es (handle e g) ∙ handle-has_callback e g

-- How many entries of the hold are held behind a list of events, with the shared flag and `n` held
-- before it: a press counts one up and a release one down, not below none, while the flag is set; an
-- edge that arrives while it is clear is dropped.
abbrev pub held_count : Bool → ℕ → List Event → ℕ
held_count on n [] = n
held_count true n (edge r r' true ∷ es) = held_count true (n + 1) es
held_count true n (edge r r' false ∷ es) = held_count true (n - 1) es
held_count false n (edge r r' active ∷ es) = held_count false n es
held_count on n (releases_guard r ∷ es) = held_count on n es
held_count on n (sets_enabled on' ∷ es) = held_count on' n es

-- The gate's flag, and its counter until it is released.
abbrev Counts : Bool → ℕ → HoldGate → Type 0
Counts on n g = (g.enabled ≡ some on) × (g.released ≡ false → g.active_entries ≡ n)

-- A guard that is released between deliveries leaves its consumer told not held, and nothing that
-- happens to the gate afterwards tells it anything more.
pub release_final :
    (before after : List Event) (r : Reaction)
    → let g = (release r (run before (fresh true))).0 in
      (follow false g.told ≡ some false) × ((run after g).told ≡ g.told)
release_final before after r =
    let g = run before (fresh true) in
    let v = run-fresh-Inv true before in
    let done = release-released r g v.idle in
    let w = release-Inv r g v in
    let same = release-has_callback r g ∙ run-has_callback before (fresh true) in
    (w.in_turn same ∙ ap some (w.balanced done same), run-quiet after _ done)
