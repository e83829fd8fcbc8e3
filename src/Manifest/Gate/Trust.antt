-- ===== src/Manifest/Gate/Trust.antt =====
-- What the gate of src/manifest.cpp trusts.
use detour_mod_kit.Manifest.Gate.Admit.{
  admits, admitted, refused, reported, is_below, resolved_lem, partition-admitted,
  falls_short-is_below, rejections-reported,
}
use detour_mod_kit.Base.{
  suc, ◌++◌, ◌≤◌, ◌≡◌, ◌⊎◌, inl, inr, refl, sym, ap, ◌∙◌, true, false, List, [], ◌∷◌, map, none,
  some, arith, ltb, if◌then◌else◌, length, All, AnyOf, Bool-cases,
}
use detour_mod_kit.Text.{Text, text_eq, eq_of_text_eq}
use detour_mod_kit.Anchors.{resolved}
use detour_mod_kit.Manifest.Gate.{
  FingerprintState, unset, match, drifted, Signature, fingerprint_state, GatePolicy, strict_policy,
  GatedSignature, is_drifted, is_unset, gated, resolve_and_gate, find,
}

-- The gate takes a manifest's signatures apart exactly: it trusts those that the policy admits, in their
-- order, and reports each other one as rejected, once, under its own label with its own status and the
-- state of its fingerprint; where the part that is admitted is below the floor of the policy it trusts
-- none and reports those that it would have trusted too, behind the others.
pub resolve_and_gate-admitted :
    (signatures : List Signature) (policy : GatePolicy)
    → let good = admitted policy signatures in
      let bad = map reported (refused policy signatures) in
      let r = resolve_and_gate signatures policy in
      (r.trusted ≡ (if is_below policy signatures then [] else map gated good))
      × (r.rejected ≡ (if is_below policy signatures then bad ++ map reported good else bad))
unfolding resolve_and_gate
resolve_and_gate-admitted signatures policy =
    let split = partition-admitted policy signatures in
    let short = falls_short-is_below policy signatures in
    elim (Bool-cases (is_below policy signatures)) [
      | inl q ↦
          rw (split, resolve_and_gate)
            (rw (short, q)
              (
                refl,
                ap (λ x. map reported (refused policy signatures) ++ x)
                    (rejections-reported policy signatures),
              ))
      | inr q ↦ rw (split, resolve_and_gate) (rw (short, q) (refl, refl))
    ]

-- A trusted signature that a search can hand out for a label.
abbrev pub TrustedAs : GatePolicy → Text → GatedSignature → Signature → Type 0
TrustedAs policy label g s = (admits policy s ≡ true) × (s.definition.label ≡ label) × (gated s ≡ g)

find-admitted :
    (policy : GatePolicy) (label : Text) (g : GatedSignature) (ss : List Signature)
    → find label (map gated (admitted policy ss)) ≡ some g
    → AnyOf (TrustedAs policy label g) ss
unfolding find admitted
find-admitted policy label g [] h = ground arith
find-admitted policy label g (s ∷ ss) h = elim (Bool-cases (admits policy s)) [
  | inr a ↦ inr (find-admitted policy label g ss (rw a at h))
  | inl a ↦
      let k = rw a at h in
      elim (Bool-cases (text_eq s.definition.label label)) [
        | inl t ↦
            let e : some (gated s) ≡ some g = rw t at k in
            inl (a, eq_of_text_eq s.definition.label label t, ground arith)
        | inr t ↦ inr (find-admitted policy label g ss (rw t at k))
      ]
]

-- What a search in the trusted ones hands out is a signature of the manifest with this label that the
-- policy admits: one that was located, that has not drifted where the policy rejects drift, and that
-- has a fingerprint where the policy asks for one.
pub find-trusted :
    (signatures : List Signature) (policy : GatePolicy) (label : Text) (g : GatedSignature)
    → find label (resolve_and_gate signatures policy).trusted ≡ some g
    → AnyOf (TrustedAs policy label g) signatures
unfolding find
find-trusted signatures policy label g h =
    let t = (resolve_and_gate-admitted signatures policy).0 in
    let k : find label
          (if is_below policy signatures then [] else map gated (admitted policy signatures))
        ≡ some g =
      sym (ap (find label) t) ∙ h in
    elim (Bool-cases (is_below policy signatures)) [
      | inl q ↦ let none_found : none ≡ some g = rw q at k in ground arith
      | inr q ↦ find-admitted policy label g signatures (rw q at k)
    ]

length-admitted-le :
    (policy : GatePolicy) (ss : List Signature) → length (admitted policy ss) ≤ length ss
unfolding admitted
length-admitted-le policy [] = omega arith
length-admitted-le policy (s ∷ ss) = let h = length-admitted-le policy ss in ground arith

admitted-All :
    (policy : GatePolicy) (ss : List Signature)
    → length ss ≤ length (admitted policy ss)
    → All (λ s. admits policy s ≡ true) ss × (admitted policy ss ≡ ss)
unfolding admitted
admitted-All policy [] h = (tt, refl)
admitted-All policy (s ∷ ss) h = elim (Bool-cases (admits policy s)) [
  | inl a ↦
      let k : suc (length ss) ≤ suc (length (admitted policy ss)) = rw a at h in
      let more = admitted-All policy ss (omega (arith, k)) in
      ((a, more.0), rw a (ap (λ r. s ∷ r) more.1))
  | inr a ↦
      let k : suc (length ss) ≤ length (admitted policy ss) = rw a at h in
      let le = length-admitted-le policy ss in elim (absurd_lt (omega (arith, k, le))) [ ]
]
  where
    absurd_lt : 1 ≤ 0 → ⊥
    absurd_lt p = ground arith

match_lem : (f : FingerprintState) → is_drifted f ≡ false → is_unset f ≡ false → f ≡ match
match_lem unset h k = ground arith
match_lem match h k = refl
match_lem drifted h k = ground arith

abbrev IsSound : Signature → Type 0
IsSound s = (s.status ≡ resolved) × (fingerprint_state s ≡ match)

strict-IsSound : (s : Signature) → admits strict_policy s ≡ true → IsSound s
unfolding admits
strict-IsSound s h = (
  resolved_lem s.status (ground arith),
  match_lem (fingerprint_state s) (ground arith) (ground arith),
)

All-IsSound : (ss : List Signature) → All (λ s. admits strict_policy s ≡ true) ss → All IsSound ss
All-IsSound [] h = tt
All-IsSound (s ∷ ss) h = (strict-IsSound s h.0, All-IsSound ss h.1)

-- The strict policy trusts all of a manifest or none of it: all where every signature was located and has a
-- fingerprint that it still matches.
pub strict_all_or_none :
    (signatures : List Signature)
    → let r = resolve_and_gate signatures strict_policy in
      (r.trusted ≡ [])
      ⊎ ((r.trusted ≡ map gated signatures)
          × All (λ s. (s.status ≡ resolved) × (fingerprint_state s ≡ match)) signatures)
strict_all_or_none [] =
    inr ((resolve_and_gate-admitted [] strict_policy).0 ∙ (unfold admitted in refl), tt)
strict_all_or_none (s ∷ ss) =
    let some_there : ltb 0 (suc (length ss)) ≡ true = ground arith in
    let t = rw some_there at ((resolve_and_gate-admitted (s ∷ ss) strict_policy).0) in
    elim (Bool-cases (ltb (length (admitted strict_policy (s ∷ ss))) (suc (length ss)))) [
      | inl q ↦ inl (rw q at t)
      | inr q ↦
          let all = admitted-All strict_policy (s ∷ ss) (ground arith) in
          inr ((rw q at t) ∙ ap (map gated) all.1, All-IsSound (s ∷ ss) all.0)
    ]
