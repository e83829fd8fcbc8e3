-- ===== src/Manifest/Gate.antt =====
-- The gate of src/manifest.cpp: revision_compatible, Signature::fingerprint_state, resolve_and_gate and
-- GateResult::find. A signature stands with what its anchor resolves to and its current fingerprint, which the
-- anchors' back ends make. What a floor, folded into [0, 1], is to the code is whether it is above 0 and
-- whether the fraction of two counts is below it.
pub mod Admit
pub mod Trust
use detour_mod_kit.Base.{
  ℕ, zero, suc, ◌+◌, Bool, true, false, not, ◌&&◌, ◌||◌, List, [], ◌∷◌, ◌++◌, map, Option, none,
  some, ltb, ◌==◌, if◌then◌else◌, length,
}
use detour_mod_kit.Base.Int.{ℤ}
use detour_mod_kit.Text.{Text, text_eq}
use detour_mod_kit.Memory.{to_word}
use detour_mod_kit.Manifest.{AnchorKind, Binding, SignatureRecord}
use detour_mod_kit.Anchors.{
  AnchorStatus, unresolved, resolved, failed, unsupported, quorum_not_independent, ResolvedAnchor,
  AnchorQuality, assess_quality,
}

unfoldable pub revision_compatible : ℕ → ℕ → Bool
revision_compatible revision build_revision = build_revision == 0 || revision == build_revision

pub data FingerprintState : Type 0 where
  unset match drifted : FingerprintState

pub record Signature : Type 0 where
  pub definition : SignatureRecord
  pub current_fingerprint : ℕ
  pub status : AnchorStatus
  pub resolved_value : ℤ

unfoldable pub fingerprint_state : Signature → FingerprintState
fingerprint_state s =
    if s.definition.expected_fingerprint == 0
    then unset
    else if s.current_fingerprint == s.definition.expected_fingerprint
    then match
    else drifted

pub record GatePolicy : Type 0 where
  pub reject_on_fingerprint_drift : Bool
  pub reject_unset_fingerprint : Bool
  pub has_floor : Bool
  pub below_floor : ℕ → ℕ → Bool

-- A fraction is below 1 where its counts are.
abbrev pub strict_policy : GatePolicy
strict_policy = record {
  reject_on_fingerprint_drift = true;
  reject_unset_fingerprint = true;
  has_floor = true;
  below_floor = ltb;
}

pub record GatedSignature : Type 0 where
  pub label : Text
  pub kind : AnchorKind
  pub address : ℕ
  pub binding : Binding

pub record RejectedSignature : Type 0 where
  pub label : Text
  pub status : AnchorStatus
  pub fingerprint : FingerprintState

pub record GateResult : Type 0 where
  pub trusted : List GatedSignature
  pub rejected : List RejectedSignature
  pub quality : AnchorQuality

abbrev pub is_resolved : AnchorStatus → Bool
is_resolved resolved = true
is_resolved _ = false

abbrev pub is_drifted : FingerprintState → Bool
is_drifted drifted = true
is_drifted _ = false

abbrev pub is_unset : FingerprintState → Bool
is_unset unset = true
is_unset _ = false

abbrev pub rejection : AnchorStatus → Signature → RejectedSignature
rejection status s = record {
  label = s.definition.label;
  status = status;
  fingerprint = fingerprint_state s;
}

unfoldable pub judge : GatePolicy → Signature → Option RejectedSignature
unfolding fingerprint_state
judge policy s =
    if not (is_resolved s.status)
    then some (rejection s.status s)
    else if policy.reject_on_fingerprint_drift && is_drifted (fingerprint_state s)
    then some (record { label = s.definition.label; status = resolved; fingerprint = drifted })
    else if policy.reject_unset_fingerprint && is_unset (fingerprint_state s)
    then some (record { label = s.definition.label; status = resolved; fingerprint = unset })
    else none

abbrev pub placed :
    Signature
    → Option RejectedSignature
    → List Signature × List RejectedSignature
    → List Signature × List RejectedSignature
placed s none rest = (s ∷ rest.0, rest.1)
placed s (some r) rest = (rest.0, r ∷ rest.1)

-- The provisionally trusted ones and the rejected ones.
unfoldable pub partition : GatePolicy → List Signature → List Signature × List RejectedSignature
unfolding judge
partition policy [] = ([], [])
partition policy (s ∷ ss) = placed s (judge policy s) (partition policy ss)

abbrev pub gated : Signature → GatedSignature
gated s = record {
  label = s.definition.label;
  kind = s.definition.kind;
  address = to_word s.resolved_value;
  binding = s.definition.binding;
}

abbrev pub located : Signature → ResolvedAnchor
located s = record {
  label = s.definition.label;
  kind = s.definition.kind;
  status = s.status;
  value = s.resolved_value;
}

abbrev pub any_signature : List Signature → Bool
any_signature [] = false
any_signature (s ∷ ss) = true

unfoldable pub falls_short : GatePolicy → List Signature → List Signature → Bool
falls_short policy good signatures =
    any_signature signatures
    && policy.has_floor
    && policy.below_floor (length good) (length signatures)

-- Where too small a part is trusted none of it is.
unfoldable pub resolve_and_gate : List Signature → GatePolicy → GateResult
unfolding partition falls_short
resolve_and_gate signatures policy =
    let r = partition policy signatures in
    let quality = assess_quality (map located signatures) in
    if falls_short policy r.0 signatures
    then record { trusted = []; rejected = r.1 ++ map (rejection resolved) r.0; quality = quality }
    else record { trusted = map gated r.0; rejected = r.1; quality = quality }

unfoldable pub find : Text → List GatedSignature → Option GatedSignature
find label [] = none
find label (g ∷ gs) = let rest = find label gs in if text_eq g.label label then some g else rest
