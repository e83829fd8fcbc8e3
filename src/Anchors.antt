-- ===== src/Anchors.antt =====
-- The health summary of a report and its gate: assess_quality and evaluate_gate of src/anchor.cpp. What a
-- ratio of the policy, folded into [0, 1], is to the code is whether a count is below it times another.
pub mod Verdict
use detour_mod_kit.Base.{
  ℕ, zero, suc, ◌+◌, ◌-◌, Bool, true, false, not, ◌&&◌, ◌||◌, List, [], ◌∷◌, ltb, leb, ◌==◌,
  if◌then◌else◌,
}
use detour_mod_kit.Base.Int.{ℤ}
use detour_mod_kit.Text.{Text}
use detour_mod_kit.Manifest.{AnchorKind, manual, quorum}

pub data AnchorStatus : Type 0 where
  unresolved resolved failed unsupported quorum_not_independent : AnchorStatus

pub record ResolvedAnchor : Type 0 where
  pub label : Text
  pub kind : AnchorKind
  pub status : AnchorStatus
  pub value : ℤ

pub record AnchorQuality : Type 0 where
  pub total : ℕ
  pub resolved : ℕ
  pub failed : ℕ
  pub unsupported : ℕ
  pub not_independent : ℕ
  pub manual_at_risk : ℕ
  pub corroborated : ℕ

abbrev pub no_quality : AnchorQuality
no_quality = record {
  total = 0;
  resolved = 0;
  failed = 0;
  unsupported = 0;
  not_independent = 0;
  manual_at_risk = 0;
  corroborated = 0;
}

unfoldable pub count_status : AnchorStatus → AnchorQuality → AnchorQuality
count_status unresolved q = q
count_status resolved q = record q { resolved = suc q.resolved }
count_status failed q = record q { failed = suc q.failed }
count_status unsupported q = record q { unsupported = suc q.unsupported }
count_status quorum_not_independent q = record q { not_independent = suc q.not_independent }

abbrev pub is_manual : AnchorKind → Bool
is_manual manual = true
is_manual _ = false

abbrev pub is_resolved_quorum : AnchorKind → AnchorStatus → Bool
is_resolved_quorum quorum resolved = true
is_resolved_quorum _ _ = false

-- A pinned literal, whatever became of it, and a quorum that resolved.
unfoldable pub count_kind : AnchorKind → AnchorStatus → AnchorQuality → AnchorQuality
count_kind k s q = record q {
  manual_at_risk = if is_manual k then suc q.manual_at_risk else q.manual_at_risk;
  corroborated = if is_resolved_quorum k s then suc q.corroborated else q.corroborated;
}

unfoldable pub assess_quality : List ResolvedAnchor → AnchorQuality
unfolding count_status count_kind
assess_quality [] = no_quality
assess_quality (e ∷ es) =
    let q = count_kind e.kind e.status (count_status e.status (assess_quality es)) in
    record q { total = suc q.total }

pub data GateVerdict : Type 0 where
  pass degraded fail : GateVerdict

pub record GatePolicy : Type 0 where
  pub below_ratio : ℕ → ℕ → Bool
  pub max_failed : ℕ
  pub manual_at_risk_degrades : Bool

-- Whether the counts, taken off the total one after the other, fit.
unfoldable pub counts_fit : AnchorQuality → Bool
counts_fit q =
    leb q.resolved q.total
    && leb q.failed (q.total - q.resolved)
    && leb q.unsupported (q.total - (q.resolved + q.failed))
    && leb q.not_independent (q.total - (q.resolved + q.failed + q.unsupported))

unfoldable pub evaluate_gate : AnchorQuality → GatePolicy → GateVerdict
unfolding counts_fit
evaluate_gate q policy =
    if not (counts_fit q)
    then fail
    else if ltb policy.max_failed q.failed
    then fail
    else if ltb (policy.max_failed - q.failed) q.not_independent
    then fail
    else if q.total - q.unsupported == 0
    then degraded
    else if policy.below_ratio q.resolved (q.total - q.unsupported)
    then fail
    else if policy.manual_at_risk_degrades && ltb 0 q.manual_at_risk
    then degraded
    else pass

unfoldable pub evaluate_report : List ResolvedAnchor → GatePolicy → GateVerdict
evaluate_report report policy = evaluate_gate (assess_quality report) policy
