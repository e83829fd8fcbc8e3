-- ===== src/Anchors/Verdict.antt =====
-- The verdict of the gate of src/anchor.cpp in terms of the entries of a report.
use detour_mod_kit.Base.{
  ℕ, ◌+◌, ◌-◌, ◌≤◌, ◌<◌, ◌≡◌, ◌↔◌, refl, sym, Bool, true, false, ◌&&◌, List, [], ◌∷◌, arith, ltb,
  length,
}
use detour_mod_kit.Anchors.{
  AnchorStatus, unresolved, resolved, failed, unsupported, quorum_not_independent, ResolvedAnchor,
  AnchorQuality, count_status, is_manual, count_kind, assess_quality, pass, GatePolicy, counts_fit,
  evaluate_gate, evaluate_report,
}

abbrev is_status : AnchorStatus → AnchorStatus → Bool
is_status unresolved unresolved = true
is_status resolved resolved = true
is_status failed failed = true
is_status unsupported unsupported = true
is_status quorum_not_independent quorum_not_independent = true
is_status _ _ = false

abbrev one : Bool → ℕ
one true = 1
one false = 0

-- The entries of a report with this status, and the pinned ones.
unfoldable pub having : AnchorStatus → List ResolvedAnchor → ℕ
having s [] = 0
having s (e ∷ es) = one (is_status s e.status) + having s es

unfoldable pub pinned : List ResolvedAnchor → ℕ
pinned [] = 0
pinned (e ∷ es) = one (is_manual e.kind) + pinned es

-- The counts of a summary are those of the report.
Counts : List ResolvedAnchor → AnchorQuality → Type 0
unfolding having pinned
Counts es q =
    (q.total ≡ length es)
    × (q.resolved ≡ having resolved es)
    × (q.failed ≡ having failed es)
    × (q.unsupported ≡ having unsupported es)
    × (q.not_independent ≡ having quorum_not_independent es)
    × (q.manual_at_risk ≡ pinned es)

counted :
    (s : AnchorStatus) (q : AnchorQuality)
    → let c = count_status s q in
      (c.total ≡ q.total)
      × (c.resolved ≡ one (is_status resolved s) + q.resolved)
      × (c.failed ≡ one (is_status failed s) + q.failed)
      × (c.unsupported ≡ one (is_status unsupported s) + q.unsupported)
      × (c.not_independent ≡ one (is_status quorum_not_independent s) + q.not_independent)
      × (c.manual_at_risk ≡ q.manual_at_risk)
unfolding count_status
counted unresolved q = ground arith
counted resolved q = ground arith
counted failed q = ground arith
counted unsupported q = ground arith
counted quorum_not_independent q = ground arith

assess_quality-Counts : (es : List ResolvedAnchor) → Counts es (assess_quality es)
unfolding Counts having pinned assess_quality count_kind
assess_quality-Counts [] = (refl, refl, refl, refl, refl, refl)
assess_quality-Counts (e ∷ es) =
    let h = assess_quality-Counts es in let c = counted e.status (assess_quality es) in ground arith

one_status :
    (s : AnchorStatus)
    → one (is_status resolved s)
        + one (is_status failed s)
        + one (is_status unsupported s)
        + one (is_status quorum_not_independent s)
      ≤ 1
one_status unresolved = omega arith
one_status resolved = omega arith
one_status failed = omega arith
one_status unsupported = omega arith
one_status quorum_not_independent = omega arith

-- No entry has two statuses.
having-le :
    (es : List ResolvedAnchor)
    → having resolved es
        + having failed es
        + having unsupported es
        + having quorum_not_independent es
      ≤ length es
unfolding having
having-le [] = omega arith
having-le (e ∷ es) = omega (arith, one_status e.status, having-le es)

verdict_iff :
    (q : AnchorQuality) (policy : GatePolicy)
    → q.resolved + q.failed + q.unsupported + q.not_independent ≤ q.total
    → (evaluate_gate q policy ≡ pass) ↔ (
        (q.failed + q.not_independent ≤ policy.max_failed)
        × (q.unsupported < q.total)
        × (policy.below_ratio q.resolved (q.total - q.unsupported) ≡ false)
        × ((policy.manual_at_risk_degrades && ltb 0 q.manual_at_risk) ≡ false))
unfolding evaluate_gate
verdict_iff q policy h =
    let fits : counts_fit q ≡ true = unfold counts_fit in ground arith in ground arith

-- The gate passes a report exactly where its failed entries and its quorums that are not independent are
-- together within the bound of the policy, an entry has a backend, the resolved entries are not below the
-- ratio of those that have one, and no pinned literal counts against it. The counts are those of the report, so
-- that the test of impossible counts refuses none.
pub evaluate_report_iff :
    (es : List ResolvedAnchor) (policy : GatePolicy)
    → (evaluate_report es policy ≡ pass) ↔ (
        (having failed es + having quorum_not_independent es ≤ policy.max_failed)
        × (having unsupported es < length es)
        × (policy.below_ratio (having resolved es) (length es - having unsupported es) ≡ false)
        × ((policy.manual_at_risk_degrades && ltb 0 (pinned es)) ≡ false))
unfolding evaluate_report Counts
evaluate_report_iff es policy =
    let (t, r, f, u, n, m) = assess_quality-Counts es in
    let q = verdict_iff (assess_quality es) policy (omega (arith, t, r, f, u, n, having-le es)) in
    rw (sym t, sym r, sym f, sym u, sym n, sym m) q
