-- ===== src/Input/Cycle/Matching.antt =====
-- When a binding of internal/input_poller.cpp is pressed: its modifiers held, no other known one held, and one
-- of its keys.
use detour_mod_kit.Base.{
  AnyOf, ◌≡◌, ◌↔◌, ◌⊎◌, Bool, true, false, ◌&&◌, ◌||◌, List, [], ◌∷◌, All, arith,
}
use detour_mod_kit.Input.{InputCode, InputBinding, Sample, is_code_pressed, modifier_satisfies}
use detour_mod_kit.Input.Cycle.{
  all_pressed, satisfies_any, no_other_held, Claims, claim, scan_keys, evaluate,
}

unfoldable pub IsDown : Sample → InputCode → Type 0
IsDown s c = is_code_pressed c s ≡ true

and_iff : (a b : Bool) → ((a && b) ≡ true) ↔ ((a ≡ true) × (b ≡ true))
and_iff a b = ground arith

or_iff : (a b : Bool) → ((a || b) ≡ true) ↔ ((a ≡ true) ⊎ (b ≡ true))
or_iff a b = ground arith

all_pressed_iff : (s : Sample) (cs : List InputCode) → (all_pressed s cs ≡ true) ↔ All (IsDown s) cs
unfolding all_pressed IsDown
all_pressed_iff s [] = ground arith
all_pressed_iff s (c ∷ cs) = let h = all_pressed_iff s cs in ground arith

satisfies_any_iff :
    (ms : List InputCode) (km : InputCode)
    → (satisfies_any ms km ≡ true) ↔ AnyOf (λ m. modifier_satisfies m km ≡ true) ms
unfolding satisfies_any
satisfies_any_iff [] km = ground arith
satisfies_any_iff (m ∷ ms) km = let h = satisfies_any_iff ms km in ground arith

-- A held modifier that a binding does not ask for.
unfoldable pub Allows : Sample → List InputCode → InputCode → Type 0
unfolding IsDown
Allows s ms km = IsDown s km → AnyOf (λ m. modifier_satisfies m km ≡ true) ms

no_other_held_iff :
    (s : Sample) (ms kms : List InputCode) → (no_other_held s ms kms ≡ true) ↔ All (Allows s ms) kms
unfolding no_other_held Allows IsDown
no_other_held_iff s ms [] = ground arith
no_other_held_iff s ms (km ∷ kms) =
    let h = no_other_held_iff s ms kms in let k = satisfies_any_iff ms km in ground arith

scan_keys_iff :
    (consume : Bool) (s : Sample) (ks : List InputCode) (any : Bool) (c : Claims)
    → ((scan_keys consume s ks any c).0 ≡ true) ↔ ((any ≡ true) ⊎ AnyOf (IsDown s) ks)
unfolding scan_keys IsDown
scan_keys_iff true s [] any c = ground arith
scan_keys_iff false s [] any c = ground arith
scan_keys_iff true s (k ∷ ks) any c =
    let h = scan_keys_iff true s ks (is_code_pressed k s || any) (claim k c) in ground arith
scan_keys_iff false s (k ∷ ks) any c = let h = scan_keys_iff false s ks any c in ground arith

-- A binding is pressed exactly where the process has the focus, all its modifiers are down, every known
-- modifier that is down satisfies one of its own, and one of its keys is down; whatever it consumes, and
-- whatever the bindings before it claim.
pub evaluate_iff :
    (focused : Bool) (s : Sample) (known : List InputCode) (b : InputBinding) (c : Claims)
    → ((evaluate focused s known b c).0 ≡ true) ↔ (
        (focused ≡ true)
        × All (IsDown s) b.modifiers
        × All (Allows s b.modifiers) known
        × AnyOf (IsDown s) b.keys)
unfolding evaluate
evaluate_iff focused s known b c =
    let mods = all_pressed_iff s b.modifiers in
    let others = no_other_held_iff s b.modifiers known in
    let keys = scan_keys_iff b.consume s b.keys false c in ground arith
