-- ===== src/Tests/TrustGate.antt =====
-- The gate of a manifest.
use detour_mod_kit.Base.{
  ℕ, ◌++◌, ◌≡◌, ◌⊎◌, refl, true, false, List, [], ◌∷◌, map, AnyOf, All, if◌then◌else◌,
}
use detour_mod_kit.Base.Int.{pos}
use detour_mod_kit.Text.{Text, codes, text_eq}
use detour_mod_kit.Anchors.{AnchorStatus, resolved, failed}
use detour_mod_kit.Manifest.{default_record, rip_global}
use detour_mod_kit.Manifest.Gate.{
  match, drifted, Signature, fingerprint_state, GatePolicy, strict_policy, gated, resolve_and_gate,
  find,
}
use detour_mod_kit.Manifest.Gate.Admit.{admits, admitted, refused, reported, is_below}
use detour_mod_kit.Manifest.Gate.Trust.{
  resolve_and_gate-admitted, TrustedAs, find-trusted, strict_all_or_none,
}

abbrev signature : Text → ℕ → AnchorStatus → Signature
signature label current status = record {
  definition = record default_record {
    label = label;
    kind = rip_global;
    expected_fingerprint = 77;
  };
  current_fingerprint = current;
  status = status;
  resolved_value = pos 0x140001000;
}

-- One that holds, one that drifted and one that was not located.
abbrev three : List Signature
three =
    signature (codes "hp") 77 resolved
    ∷ signature (codes "mp") 78 resolved
    ∷ signature (codes "xp") 77 failed
    ∷ []

abbrev default_policy : GatePolicy
default_policy = record {
  reject_on_fingerprint_drift = true;
  reject_unset_fingerprint = false;
  has_floor = false;
  below_floor = λ a b. false;
}

gate_of_three :
    ((resolve_and_gate three default_policy).trusted
      ≡ gated (signature (codes "hp") 77 resolved) ∷ [])
    × ((resolve_and_gate three strict_policy).trusted ≡ [])
unfolding resolve_and_gate
gate_of_three = (refl, refl)

reports_of_three :
    let lost = map reported (refused default_policy three) in
    (lost
      ≡ record { label = codes "mp"; status = resolved; fingerprint = drifted }
        ∷ record { label = codes "xp"; status = failed; fingerprint = match }
        ∷ [])
    × ((resolve_and_gate three strict_policy).rejected
        ≡ lost ++ record { label = codes "hp"; status = resolved; fingerprint = match } ∷ [])
unfolding resolve_and_gate refused admits fingerprint_state
reports_of_three = (refl, refl)

resolve_and_gate-admitted_example :
    let good = admitted strict_policy three in
    let bad = map reported (refused strict_policy three) in
    let r = resolve_and_gate three strict_policy in
    (r.trusted ≡ (if is_below strict_policy three then [] else map gated good))
    × (r.rejected ≡ (if is_below strict_policy three then bad ++ map reported good else bad))
resolve_and_gate-admitted_example = resolve_and_gate-admitted three strict_policy

find-trusted_example :
    AnyOf (TrustedAs default_policy (codes "hp") (gated (signature (codes "hp") 77 resolved))) three
unfolding resolve_and_gate find text_eq
find-trusted_example =
    find-trusted three default_policy (codes "hp") (gated (signature (codes "hp") 77 resolved)) refl

strict_all_or_none_example :
    let r = resolve_and_gate three strict_policy in
    (r.trusted ≡ [])
    ⊎ ((r.trusted ≡ map gated three)
        × All (λ s. (s.status ≡ resolved) × (fingerprint_state s ≡ match)) three)
strict_all_or_none_example = strict_all_or_none three
