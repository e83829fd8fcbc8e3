-- ===== src/Manifest/Gate/Admit.antt =====
-- How the gate of src/manifest.cpp takes the signatures apart.
use detour_mod_kit.Base.{
  ◌≡◌, inl, inr, refl, Bool, true, not, ◌&&◌, List, [], ◌∷◌, map, none, some, arith, ltb,
  if◌then◌else◌, length, Bool-cases, Option-cases,
}
use detour_mod_kit.Anchors.{
  AnchorStatus, unresolved, resolved, failed, unsupported, quorum_not_independent,
}
use detour_mod_kit.Manifest.Gate.{
  FingerprintState, unset, match, drifted, Signature, fingerprint_state, GatePolicy,
  RejectedSignature, is_resolved, is_drifted, is_unset, rejection, judge, partition, falls_short,
}

-- A signature that the policy takes: located, not drifted where that counts and not without a fingerprint
-- where that counts.
unfoldable pub admits : GatePolicy → Signature → Bool
admits policy s =
    is_resolved s.status
    && not (policy.reject_on_fingerprint_drift && is_drifted (fingerprint_state s))
    && not (policy.reject_unset_fingerprint && is_unset (fingerprint_state s))

unfoldable pub admitted : GatePolicy → List Signature → List Signature
admitted policy [] = []
admitted policy (s ∷ ss) =
    let rest = admitted policy ss in if admits policy s then s ∷ rest else rest

-- Those that it does not take, and the entry of one in the list of the rejected.
unfoldable pub refused : GatePolicy → List Signature → List Signature
refused policy [] = []
refused policy (s ∷ ss) = let rest = refused policy ss in if admits policy s then rest else s ∷ rest

abbrev pub reported : Signature → RejectedSignature
reported s = record {
  label = s.definition.label;
  status = s.status;
  fingerprint = fingerprint_state s;
}

-- Whether the policy has a floor and the part of a manifest's signatures that it takes is below it; a
-- manifest without signatures is below no floor.
abbrev pub is_below : GatePolicy → List Signature → Bool
is_below policy ss =
    policy.has_floor
    && ltb 0 (length ss)
    && policy.below_floor (length (admitted policy ss)) (length ss)

pub resolved_lem : (a : AnchorStatus) → is_resolved a ≡ true → a ≡ resolved
resolved_lem unresolved h = ground arith
resolved_lem resolved h = refl
resolved_lem failed h = ground arith
resolved_lem unsupported h = ground arith
resolved_lem quorum_not_independent h = ground arith

drifted_lem : (f : FingerprintState) → is_drifted f ≡ true → f ≡ drifted
drifted_lem unset h = ground arith
drifted_lem match h = ground arith
drifted_lem drifted h = refl

unset_lem : (f : FingerprintState) → is_unset f ≡ true → f ≡ unset
unset_lem unset h = refl
unset_lem match h = ground arith
unset_lem drifted h = ground arith

judge_admitted :
    (policy : GatePolicy) (s : Signature) → admits policy s ≡ true → judge policy s ≡ none
unfolding judge admits
judge_admitted policy s h = ground arith

admits-judge :
    (policy : GatePolicy) (s : Signature) → judge policy s ≡ none → admits policy s ≡ true
unfolding judge admits
admits-judge policy s h = ground arith

judge-reported :
    (policy : GatePolicy) (s : Signature) (r : RejectedSignature)
    → judge policy s ≡ some r
    → r ≡ reported s
unfolding judge
judge-reported policy s r h = elim (Bool-cases (is_resolved s.status)) [
  | inr lost ↦ ground arith
  | inl found ↦
      let q = resolved_lem s.status found in
      elim (Bool-cases (policy.reject_on_fingerprint_drift && is_drifted (fingerprint_state s))) [
        | inl d ↦ let p = drifted_lem (fingerprint_state s) (ground arith) in ground arith
        | inr d ↦
            elim (Bool-cases (policy.reject_unset_fingerprint && is_unset (fingerprint_state s))) [
              | inl u ↦ let p = unset_lem (fingerprint_state s) (ground arith) in ground arith
              | inr u ↦ ground arith
            ]
      ]
]

-- The partition keeps the admitted ones, in order, and reports the others.
pub partition-admitted :
    (policy : GatePolicy) (ss : List Signature)
    → partition policy ss ≡ (admitted policy ss, map reported (refused policy ss))
unfolding partition admitted refused
partition-admitted policy [] = refl
partition-admitted policy (s ∷ ss) =
    let more = partition-admitted policy ss in
    elim (Option-cases (judge policy s)) [
      | inl q ↦ rw (q, admits-judge policy s q) (rw more refl)
      | inr (r, q) ↦ elim (Bool-cases (admits policy s)) [
        | inl a ↦ let clash = judge_admitted policy s a in ground arith
        | inr a ↦ rw (q, a) (rw more (rw (judge-reported policy s r q) refl))
      ]
    ]

pub falls_short-is_below :
    (policy : GatePolicy) (ss : List Signature)
    → falls_short policy (admitted policy ss) ss ≡ is_below policy ss
unfolding falls_short
falls_short-is_below policy [] = ground arith
falls_short-is_below policy (s ∷ ss) = ground arith

rejection-reported : (s : Signature) → s.status ≡ resolved → rejection resolved s ≡ reported s
rejection-reported s q = ground arith

-- A signature that is admitted was located, which is what it is reported as below the floor.
pub rejections-reported :
    (policy : GatePolicy) (ss : List Signature)
    → map (rejection resolved) (admitted policy ss) ≡ map reported (admitted policy ss)
unfolding admitted admits
rejections-reported policy [] = refl
rejections-reported policy (s ∷ ss) = elim (Bool-cases (admits policy s)) [
  | inl a ↦
      let q = resolved_lem s.status (ground arith) in
      rw a (rw (rejection-reported s q, rejections-reported policy ss) refl)
  | inr a ↦ rw a (rejections-reported policy ss)
]
