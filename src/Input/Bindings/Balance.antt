-- ===== src/Input/Bindings/Balance.antt =====
-- Every callback of holds is told of as many releases as presses, but for those that are still held.
pub mod Reshapes
pub mod Operations
pub mod Histories
use detour_mod_kit.Base.{
  ℕ, zero, suc, ◌+◌, ◌≤◌, ◌≡◌, refl, sym, ap, ◌∙◌, Bool, true, false, not, ◌&&◌, ◌||◌, List, [],
  ◌∷◌, ◌++◌, map, Option, none, some, arith, ◌==◌, if◌then◌else◌, Bool-cases, inl, inr, length,
}
use detour_mod_kit.Text.{Text}
use detour_mod_kit.Input.{
  InputCode, Trigger, press, hold, InputBinding, Sample, Entry, Call, pressed_call, state_call,
}
use detour_mod_kit.Input.Cycle.{
  Claims, no_claims, evaluate, press_calls, state_calls, differ, edge_calls, can_stage, Pass,
  pass_entry, pass_over, poll_cycle,
}
use detour_mod_kit.Input.Bindings.{
  KeyCombo, Poller, recompute, named, with_name, without_name, release_of, release_call,
  release_calls, with_combo, with_consume, fresh_entry, rewrite_combos, fresh_entries, appended,
  update_named, update_combos, inactive, add_bindings, remove_named, remove_bindings_by_name,
  clear_bindings, deactivate, release_active_holds, set_named_consume, set_consume, owned_by,
  set_owned_consume, set_consume_by_owner,
}

abbrev told_by : ℕ → Bool → Call → ℕ
told_by f true (state_call g true) = if g == f then 1 else 0
told_by f false (state_call g false) = if g == f then 1 else 0
told_by f v _ = 0

-- How often callback `f` is told this value.
unfoldable pub told : ℕ → Bool → List Call → ℕ
told f v [] = 0
told f v (c ∷ cs) = told_by f v c + told f v cs

abbrev pub holds_of : ℕ → Bool → Trigger → Option ℕ → ℕ
holds_of f true hold (some g) = if g == f then 1 else 0
holds_of f _ _ _ = 0

abbrev pub active_hold : ℕ → Entry → ℕ
active_hold f e = holds_of f e.active e.binding.trigger e.binding.on_state_change

-- How many active holds have it as their callback.
unfoldable pub active_holds : ℕ → List Entry → ℕ
active_holds f [] = 0
active_holds f (e ∷ es) = active_hold f e + active_holds f es

pub told-append :
    (f : ℕ) (v : Bool) (cs ds : List Call) → told f v (cs ++ ds) ≡ told f v cs + told f v ds
unfolding told
told-append f v [] ds = omega arith
told-append f v (c ∷ cs) ds = omega (arith, told-append f v cs ds)

pub active_holds-append :
    (f : ℕ) (es ds : List Entry) → active_holds f (es ++ ds) ≡ active_holds f es + active_holds f ds
unfolding active_holds
active_holds-append f [] ds = omega arith
active_holds-append f (e ∷ es) ds = omega (arith, active_holds-append f es ds)

-- The edge of one binding.
edge_told :
    (f : ℕ) (t : Trigger) (b : InputBinding) (was now : Bool)
    → told f true (edge_calls t b was now) + holds_of f was t b.on_state_change
      ≡ told f false (edge_calls t b was now) + holds_of f now t b.on_state_change
unfolding told edge_calls
edge_told f press b was now = go b.on_press was now
  where
    go :
        (o : Option ℕ) (was now : Bool)
        → told f true (if now && not was then press_calls o else [])
            + holds_of f was press b.on_state_change
          ≡ told f false (if now && not was then press_calls o else [])
            + holds_of f now press b.on_state_change
    go none true true = refl
    go none true false = refl
    go none false true = refl
    go none false false = refl
    go (some g) true true = refl
    go (some g) true false = refl
    go (some g) false true = refl
    go (some g) false false = refl
edge_told f hold b was now = go b.on_state_change was now
  where
    go :
        (o : Option ℕ) (was now : Bool)
        → told f true (if differ now was then state_calls o now else []) + holds_of f was hold o
          ≡ told f false (if differ now was then state_calls o now else []) + holds_of f now hold o
    go none true true = refl
    go none true false = refl
    go none false true = refl
    go none false false = refl
    go (some g) true true = omega arith
    go (some g) true false = ground arith
    go (some g) false true = ground arith
    go (some g) false false = omega arith

unfoldable pub Balanced : ℕ → List Call → List Entry → List Entry → Type 0
unfolding told active_holds
Balanced f calls before after =
    told f true calls + active_holds f before ≡ told f false calls + active_holds f after

can_stage-all :
    (memory : Call → Bool)
    → ((c : Call) → memory c ≡ true)
    → (cs : List Call) → can_stage memory cs ≡ true
can_stage-all memory all [] = refl
can_stage-all memory all (c ∷ cs) =
    ap (λ b. b && can_stage memory cs) (all c) ∙ can_stage-all memory all cs

kept :
    (f : ℕ) (e : Entry) (es ds : List Entry) (cs : List Call)
    → Balanced f cs es ds
    → Balanced f cs (e ∷ es) (e ∷ ds)
unfolding Balanced active_holds
kept f e es ds cs h = omega (arith, h)

moved :
    (f : ℕ) (e : Entry) (now : Bool) (es ds : List Entry) (cs : List Call)
    → Balanced f cs es ds
    → Balanced f
        (edge_calls e.binding.trigger e.binding e.active now ++ cs)
        (e ∷ es)
        (record e { active = now } ∷ ds)
unfolding Balanced active_holds
moved f e now es ds cs h = omega (
  arith,
  h,
  edge_told f e.binding.trigger e.binding e.active now,
  told-append f true (edge_calls e.binding.trigger e.binding e.active now) cs,
  told-append f false (edge_calls e.binding.trigger e.binding e.active now) cs,
)

pub unchanged : (f : ℕ) (es : List Entry) → Balanced f [] es es
unfolding Balanced told
unchanged f es = refl

Settled : ℕ → List Entry → Pass → Type 0
unfolding Balanced
Settled f es p = (p.broken ≡ false) × Balanced f p.calls es p.entries

entry-Settled :
    (f : ℕ) (ks : List InputCode) (e : Entry) (es : List Entry) (r : Bool × Claims)
    (rest further : Pass)
    → Settled f es rest
    → Settled f es further
    → Settled f (e ∷ es) (
        pass_entry ks true e es r
          (edge_calls e.binding.trigger e.binding e.active r.0)
          rest
          further)
unfolding Settled pass_entry
entry-Settled f [] e es r rest further h k = (h.0, kept f e es _ _ h.1)
entry-Settled f (key ∷ ks) e es r rest further h k = (k.0, moved f e r.0 es _ _ k.1)

pass-Settled :
    (memory : Call → Bool)
    → ((c : Call) → memory c ≡ true)
    → (f : ℕ) (focused : Bool) (s : Sample) (known : List InputCode) (es : List Entry) (c : Claims)
    → Settled f es (pass_over memory focused s known es c)
unfolding pass_over
pass-Settled memory all f focused s known [] c = unfold Settled in (refl, unchanged f [])
pass-Settled memory all f focused s known (e ∷ es) c =
    let r = evaluate focused s known e.binding c in
    let staged = edge_calls e.binding.trigger e.binding e.active r.0 in
    rw (can_stage-all memory all staged) (
      entry-Settled f e.binding.keys e es r _ _ (pass-Settled memory all f focused s known es c)
        (pass-Settled memory all f focused s known es r.1))

pub cycle-Balanced :
    (reserves : Bool) (memory : Call → Bool)
    → ((c : Call) → memory c ≡ true)
    → (f : ℕ) (focused : Bool) (s : Sample) (known : List InputCode) (es : List Entry)
    → let p = poll_cycle reserves memory focused s known es in Balanced f p.calls es p.entries
unfolding poll_cycle Settled
cycle-Balanced false memory all f focused s known es = unchanged f es
cycle-Balanced true memory all f focused s known es =
    let h = pass-Settled memory all f focused s known es no_claims in rw h.0 h.1
