-- ===== src/Input/Bindings/Strict.antt =====
-- The strict matching of the modifiers over the whole binding set of internal/input_poller.cpp.
use detour_mod_kit.Base.{
  AnyOf, ◌≡◌, ◌⊎◌, inl, inr, refl, Bool, true, false, List, [], ◌∷◌, ◌++◌, if◌then◌else◌,
  Bool-cases, arith,
}
use detour_mod_kit.Input.{
  InputSource, keyboard, mouse, gamepad, mouse_wheel, InputCode, InputBinding, Sample, same_source,
  same_code, Entry,
}
use detour_mod_kit.Input.Cycle.{satisfies_any, no_other_held, Claims, evaluate}
use detour_mod_kit.Input.Cycle.Matching.{IsDown}
use detour_mod_kit.Input.Bindings.{contains_code, insert_codes, modifiers_of}

same_source-eq : (a b : InputSource) → same_source a b ≡ true → a ≡ b
same_source-eq keyboard keyboard h = refl
same_source-eq mouse mouse h = refl
same_source-eq gamepad gamepad h = refl
same_source-eq mouse_wheel mouse_wheel h = refl
same_source-eq keyboard mouse h = ground arith
same_source-eq keyboard gamepad h = ground arith
same_source-eq keyboard mouse_wheel h = ground arith
same_source-eq mouse keyboard h = ground arith
same_source-eq mouse gamepad h = ground arith
same_source-eq mouse mouse_wheel h = ground arith
same_source-eq gamepad keyboard h = ground arith
same_source-eq gamepad mouse h = ground arith
same_source-eq gamepad mouse_wheel h = ground arith
same_source-eq mouse_wheel keyboard h = ground arith
same_source-eq mouse_wheel mouse h = ground arith
same_source-eq mouse_wheel gamepad h = ground arith

same_code-eq : (a b : InputCode) → same_code a b ≡ true → a ≡ b
unfolding same_code
same_code-eq a b h =
    let s : same_source a.source b.source ≡ true = ground arith in
    let q : a.code ≡ b.code = ground arith in
    let p = same_source-eq a.source b.source s in λ i. record { source = p i; code = q i }

module _ (P : InputCode → Type 0) where
  contains-AnyOf :
      (known : List InputCode) (c : InputCode) → contains_code known c ≡ true → P c → AnyOf P known
  unfolding contains_code
  contains-AnyOf [] c h p = ground arith
  contains-AnyOf (d ∷ ds) c h p = elim (Bool-cases (same_code d c)) [
    | inl q ↦ inl (rw (same_code-eq d c q) p)
    | inr q ↦ inr (contains-AnyOf ds c (ground arith) p)
  ]

  AnyOf-append : (xs ys : List InputCode) → AnyOf P xs ⊎ AnyOf P ys → AnyOf P (xs ++ ys)
  AnyOf-append [] ys (inl h) = elim h [ ]
  AnyOf-append [] ys (inr h) = h
  AnyOf-append (x ∷ xs) ys (inl (inl h)) = inl h
  AnyOf-append (x ∷ xs) ys (inl (inr h)) = inr (AnyOf-append xs ys (inl h))
  AnyOf-append (x ∷ xs) ys (inr h) = inr (AnyOf-append xs ys (inr h))

  -- What was known stays known.
  AnyOf-insert_codes : (cs known : List InputCode) → AnyOf P known → AnyOf P (insert_codes cs known)
  unfolding insert_codes
  AnyOf-insert_codes [] known h = h
  AnyOf-insert_codes (c ∷ cs) known h = elim (Bool-cases (contains_code known c)) [
    | inl q ↦ rw q (AnyOf-insert_codes cs known h)
    | inr q ↦ rw q (AnyOf-insert_codes cs (known ++ c ∷ []) (AnyOf-append known (c ∷ []) (inl h)))
  ]

  insert_codes-AnyOf : (cs known : List InputCode) → AnyOf P cs → AnyOf P (insert_codes cs known)
  unfolding insert_codes
  insert_codes-AnyOf [] known h = elim h [ ]
  insert_codes-AnyOf (c ∷ cs) known (inr h) =
      insert_codes-AnyOf cs (if contains_code known c then known else known ++ c ∷ []) h
  insert_codes-AnyOf (c ∷ cs) known (inl p) = elim (Bool-cases (contains_code known c)) [
    | inl q ↦ rw q (AnyOf-insert_codes cs known (contains-AnyOf known c q p))
    | inr q ↦
        rw q (AnyOf-insert_codes cs (known ++ c ∷ []) (AnyOf-append known (c ∷ []) (inr (inl p))))
  ]

  AnyOf-modifiers_of :
      (es : List Entry) (known : List InputCode) → AnyOf P known → AnyOf P (modifiers_of es known)
  unfolding modifiers_of
  AnyOf-modifiers_of [] known h = h
  AnyOf-modifiers_of (e ∷ es) known h =
      AnyOf-modifiers_of es (insert_codes e.binding.modifiers known)
        (AnyOf-insert_codes e.binding.modifiers known h)

  modifiers_of-AnyOf :
      (es : List Entry) (known : List InputCode)
      → AnyOf (λ e. AnyOf P e.binding.modifiers) es
      → AnyOf P (modifiers_of es known)
  unfolding modifiers_of
  modifiers_of-AnyOf [] known h = elim h [ ]
  modifiers_of-AnyOf (e ∷ es) known (inl h) =
      AnyOf-modifiers_of es (insert_codes e.binding.modifiers known)
        (insert_codes-AnyOf e.binding.modifiers known h)
  modifiers_of-AnyOf (e ∷ es) known (inr h) =
      modifiers_of-AnyOf es (insert_codes e.binding.modifiers known) h

-- A code that is down and satisfies none of the modifiers.
unfoldable pub Blocks : Sample → List InputCode → InputCode → Type 0
unfolding IsDown satisfies_any
Blocks s ms km = IsDown s km × (satisfies_any ms km ≡ false)

no_other_held-Blocks :
    (s : Sample) (ms kms : List InputCode)
    → AnyOf (Blocks s ms) kms
    → no_other_held s ms kms ≡ false
unfolding no_other_held Blocks IsDown
no_other_held-Blocks s ms [] h = elim h [ ]
no_other_held-Blocks s ms (km ∷ kms) (inl h) = ground arith
no_other_held-Blocks s ms (km ∷ kms) (inr h) =
    let q = no_other_held-Blocks s ms kms h in ground arith

-- While a code is down that any binding of the set has among its modifiers, no binding is pressed of which no
-- modifier is satisfied by it, and it claims nothing: V is not pressed while Shift+V is bound and Shift is
-- held.
pub strict_matching :
    (focused : Bool) (s : Sample) (es : List Entry) (b : InputBinding) (c : Claims)
    → AnyOf (λ e. AnyOf (Blocks s b.modifiers) e.binding.modifiers) es
    → evaluate focused s (modifiers_of es []) b c ≡ (false, c)
unfolding evaluate
strict_matching focused s es b c h =
    let q =
      no_other_held-Blocks s b.modifiers (modifiers_of es [])
        (modifiers_of-AnyOf (Blocks s b.modifiers) es [] h) in
    ground arith
