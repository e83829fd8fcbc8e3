-- ===== src/Input/Bindings/Tokens/Agreement.antt =====
-- A token of internal/input_poller.cpp is current for as long as nothing has reshaped the bindings, and then
-- answers as the name does.
use detour_mod_kit.Base.{
  All, ℕ, suc, ◌≡◌, ◌≢◌, inl, inr, refl, sym, ap, ◌∙◌, Bool, true, false, ◌&&◌, List, [], ◌∷◌, map,
  arith, ◌==◌, if◌then◌else◌, Bool-cases,
}
use detour_mod_kit.Text.{Text}
use detour_mod_kit.Input.{InputBinding, Entry}
use detour_mod_kit.Input.Bindings.{Poller, named}
use detour_mod_kit.Input.Bindings.History.{Op, run}
use detour_mod_kit.Input.Bindings.Tokens.Reshapes.{binding_of, Same, Kept, DrawsAnew, run-Kept}
use detour_mod_kit.Input.Bindings.Tokens.{
  indices_of, looked_up, is_name_active, token_of, acquire_binding_token, binding_token_current,
  is_token_active,
}

-- Where a name stands is up to the bindings.
indices_in : Text → ℕ → List InputBinding → List ℕ
indices_in name i [] = []
indices_in name i (b ∷ bs) =
    let rest = indices_in name (suc i) bs in
    if named name (record { binding = b; active = false }) then i ∷ rest else rest

indices_of-in :
    (name : Text) (i : ℕ) (es : List Entry)
    → indices_of name i es ≡ indices_in name i (map binding_of es)
unfolding indices_of indices_in named
indices_of-in name i [] = refl
indices_of-in name i (e ∷ es) =
    ap (λ r. if named name e then i ∷ r else r) (indices_of-in name (suc i) es)

looked_up-Same :
    (name : Text) (p q : Poller)
    → Same p q
    → looked_up q.indexed name q.entries ≡ looked_up p.indexed name p.entries
unfolding Same
looked_up-Same name p q (same, indexed) = go q.indexed p.indexed indexed
  where
    go : (i j : Bool) → i ≡ j → looked_up i name q.entries ≡ looked_up j name p.entries
    go true true h =
        indices_of-in name 0 q.entries
        ∙ ap (indices_in name 0) same
        ∙ sym (indices_of-in name 0 p.entries)
    go false false h = refl
    go true false h = ground arith
    go false true h = ground arith

-- A token of some generation, of what was looked up.
token_answers :
    (g : ℕ) (is : List ℕ) (name : Text) (q : Poller)
    → g ≢ 0
    → (q.generation ≡ g → looked_up q.indexed name q.entries ≡ is)
    → is_token_active (token_of g is) q
      ≡ (binding_token_current (token_of g is) q && is_name_active name q)
unfolding is_token_active binding_token_current is_name_active
token_answers g [] name q z h = refl
token_answers g (i ∷ is) name q z h =
    let positive : (g == 0) ≡ false = ground arith in
    elim (Bool-cases (g == q.generation)) [
      | inr c ↦ rw (positive, c) refl
      | inl c ↦ let same = h (ground arith) in rw (positive, c, same) refl
    ]

-- Whatever cycles and reshapes come after a token was taken, of which none draws its generation again: the
-- token answers as its name does while it is current, and no once it is not.
pub token_agrees :
    (memory : Bool) (name : Text) (os : List Op) (p : Poller)
    → p.generation ≢ 0
    → All (DrawsAnew p.generation) os
    → let q = (run os p).0 in
      let token = acquire_binding_token memory name p in
      is_token_active token q ≡ (binding_token_current token q && is_name_active name q)
unfolding acquire_binding_token Kept
token_agrees true name os p z t =
    let q = (run os p).0 in
    token_answers p.generation (looked_up p.indexed name p.entries) name q z
      (λ e. looked_up-Same name p q (run-Kept p.generation os p t e).1)
token_agrees false name os p z t = unfold is_token_active binding_token_current in refl
