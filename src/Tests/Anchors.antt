-- ===== src/Tests/Anchors.antt =====
-- The gate of a report.
use detour_mod_kit.Base.{
  ◌+◌, ◌-◌, ◌≤◌, ◌<◌, ◌≡◌, ◌↔◌, refl, true, false, ◌&&◌, List, [], ◌∷◌, ltb, length,
}
use detour_mod_kit.Base.Int.{pos}
use detour_mod_kit.Text.{codes}
use detour_mod_kit.Anchors.{
  AnchorStatus, resolved, failed, unsupported, quorum_not_independent, ResolvedAnchor, GatePolicy,
  pass, fail, evaluate_report, evaluate_gate, assess_quality, counts_fit, count_status, count_kind,
}
use detour_mod_kit.Anchors.Verdict.{having, pinned, evaluate_report_iff}
use detour_mod_kit.Manifest.{AnchorKind, rip_global, call_arg_home}

abbrev entry : AnchorKind → AnchorStatus → ResolvedAnchor
entry k s = record { label = codes "a"; kind = k; status = s; value = pos 0 }

abbrev report : List ResolvedAnchor
report =
    entry rip_global resolved
    ∷ entry rip_global failed
    ∷ entry rip_global resolved
    ∷ entry call_arg_home unsupported
    ∷ []

-- Half of them, and one may fail.
abbrev lenient : GatePolicy
lenient = record {
  below_ratio = λ a b. ltb (a + a) b;
  max_failed = 1;
  manual_at_risk_degrades = true;
}

abbrev full : GatePolicy
full = record { below_ratio = ltb; max_failed = 0; manual_at_risk_degrades = true }

verdicts : (evaluate_report report lenient ≡ pass) × (evaluate_report report full ≡ fail)
unfolding evaluate_report evaluate_gate assess_quality counts_fit count_status count_kind
verdicts = (refl, refl)

evaluate_report_iff_example : (evaluate_report report lenient ≡ pass) ↔ (
    (having failed report + having quorum_not_independent report ≤ 1)
    × (having unsupported report < length report)
    × (lenient.below_ratio (having resolved report) (length report - having unsupported report)
        ≡ false)
    × ((true && ltb 0 (pinned report)) ≡ false))
evaluate_report_iff_example = evaluate_report_iff report lenient
