-- ===== src/Input/Bindings/Balance/Reshapes.antt =====
-- What the operations on the binding set of internal/input_poller.cpp tell the callbacks of holds.
use detour_mod_kit.Base.{
  ℕ, ◌+◌, ◌≡◌, refl, Bool, true, false, List, [], ◌∷◌, map, Option, none, some, arith,
  if◌then◌else◌, Bool-cases, inl, inr,
}
use detour_mod_kit.Text.{Text}
use detour_mod_kit.Input.{Trigger, press, hold, InputBinding, Entry}
use detour_mod_kit.Input.Bindings.{
  KeyCombo, named, with_name, without_name, release_of, release_call, release_calls, rewrite_combos,
  fresh_entries, appended, inactive, deactivate, set_named_consume, owned_by, set_owned_consume,
}
use detour_mod_kit.Input.Bindings.Balance.{told, active_holds, active_hold, holds_of, told-append}

pub active_holds-split :
    (f : ℕ) (name : Text) (es : List Entry)
    → active_holds f es ≡ active_holds f (with_name name es) + active_holds f (without_name name es)
unfolding active_holds with_name without_name
active_holds-split f name [] = refl
active_holds-split f name (e ∷ es) =
    let h = active_holds-split f name es in
    elim (Bool-cases (named name e)) [
      | inl q ↦ rw q (omega (arith, h))
      | inr q ↦ rw q (omega (arith, h))
    ]

told-release :
    (f : ℕ) (e : Entry)
    → (told f true (release_call e) ≡ 0) × (told f false (release_call e) ≡ active_hold f e)
unfolding told
told-release f e = go e.binding.on_state_change e.active e.binding.trigger
  where
    go :
        (o : Option ℕ) (a : Bool) (t : Trigger)
        → (told f true (if a then release_of t (record e.binding { on_state_change = o }) else [])
            ≡ 0)
          × (told f false
                (if a then release_of t (record e.binding { on_state_change = o }) else [])
              ≡ holds_of f a t o)
    go none true press = (refl, refl)
    go none true hold = (refl, refl)
    go none false press = (refl, refl)
    go none false hold = (refl, refl)
    go (some g) true press = (refl, refl)
    go (some g) true hold = (omega arith, omega arith)
    go (some g) false press = (refl, refl)
    go (some g) false hold = (refl, refl)

pub told-release_calls :
    (f : ℕ) (es : List Entry)
    → (told f true (release_calls es) ≡ 0) × (told f false (release_calls es) ≡ active_holds f es)
unfolding told release_calls active_holds
told-release_calls f [] = (refl, refl)
told-release_calls f (e ∷ es) =
    let one = told-release f e in
    let more = told-release_calls f es in
    (
      omega (arith, one.0, more.0, told-append f true (release_call e) (release_calls es)),
      omega (arith, one.1, more.1, told-append f false (release_call e) (release_calls es)),
    )

pub active_holds-rewrite_combos :
    (f : ℕ) (name : Text) (combos : List KeyCombo) (es : List Entry)
    → active_holds f (rewrite_combos name combos es) ≡ active_holds f es
unfolding active_holds rewrite_combos
active_holds-rewrite_combos f name combos [] = refl
active_holds-rewrite_combos f name [] (e ∷ es) = refl
active_holds-rewrite_combos f name (c ∷ cs) (e ∷ es) =
    let here = active_holds-rewrite_combos f name cs es in
    let later = active_holds-rewrite_combos f name (c ∷ cs) es in
    elim (Bool-cases (named name e)) [
      | inl q ↦ rw q (omega (arith, here))
      | inr q ↦ rw q (omega (arith, later))
    ]

active_holds-fresh_entries :
    (f : ℕ) (b : InputBinding) (cs : List KeyCombo) → active_holds f (fresh_entries b cs) ≡ 0
unfolding active_holds fresh_entries
active_holds-fresh_entries f b [] = refl
active_holds-fresh_entries f b (c ∷ cs) = omega (arith, active_holds-fresh_entries f b cs)

pub active_holds-appended :
    (f : ℕ) (b : InputBinding) (cs : List KeyCombo) → active_holds f (appended b cs) ≡ 0
unfolding active_holds
active_holds-appended f b [] = refl
active_holds-appended f b (c ∷ cs) = active_holds-fresh_entries f b (c ∷ cs)

pub active_holds-inactive : (f : ℕ) (bs : List InputBinding) → active_holds f (map inactive bs) ≡ 0
unfolding active_holds
active_holds-inactive f [] = refl
active_holds-inactive f (b ∷ bs) = omega (arith, active_holds-inactive f bs)

pub active_holds-deactivate : (f : ℕ) (es : List Entry) → active_holds f (map deactivate es) ≡ 0
unfolding active_holds
active_holds-deactivate f [] = refl
active_holds-deactivate f (e ∷ es) = omega (arith, active_holds-deactivate f es)

pub active_holds-set_named_consume :
    (f : ℕ) (name : Text) (consume : Bool) (es : List Entry)
    → active_holds f (set_named_consume name consume es) ≡ active_holds f es
unfolding active_holds set_named_consume
active_holds-set_named_consume f name consume [] = refl
active_holds-set_named_consume f name consume (e ∷ es) =
    let h = active_holds-set_named_consume f name consume es in
    elim (Bool-cases (named name e)) [
      | inl q ↦ rw q (omega (arith, h))
      | inr q ↦ rw q (omega (arith, h))
    ]

pub active_holds-set_owned_consume :
    (f owner : ℕ) (consume : Bool) (es : List Entry)
    → active_holds f (set_owned_consume owner consume es) ≡ active_holds f es
unfolding active_holds set_owned_consume
active_holds-set_owned_consume f owner consume [] = refl
active_holds-set_owned_consume f owner consume (e ∷ es) =
    let h = active_holds-set_owned_consume f owner consume es in
    elim (Bool-cases (owned_by owner consume e)) [
      | inl q ↦ rw q (omega (arith, h))
      | inr q ↦ rw q (omega (arith, h))
    ]
