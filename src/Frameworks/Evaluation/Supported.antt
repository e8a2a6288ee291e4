-- ===== src/Frameworks/Evaluation/Supported.antt =====
-- What the findings say of the controls of a pack that was evaluated.
use collector_security_analy.Common.{
  ◌≡◌, ◌↔◌, subst, String, Bool, true, false, not, ◌&&◌, List, arith, Together, Together-map, ltb,
}
use collector_security_analy.Common.Dict.{Dict}
use collector_security_analy.Frameworks.{
  FindingStatus, Finding, satisfied, not_satisfied, FrameworkControl, FrameworkPack,
  AssessmentPolicy, ControlResult,
}
use collector_security_analy.Frameworks.Findings.{
  ok, and_then-ok, ok-injective, unless-ok, findings_by_rule, provisional_in_active, unreviewed,
  not_assessable_pack,
}
use collector_security_analy.Frameworks.Findings.Worst.{
  all_pass, some_fail, findings_by_rule-passes, findings_by_rule-fails,
}
use collector_security_analy.Frameworks.Evaluator.{
  passes, fails, is_provisional, result_of, evaluate_control,
}
use collector_security_analy.Frameworks.Evaluator.Decisions.{
  IsMet, IsMissed, evaluate_control-satisfied, evaluate_control-not_satisfied,
}
use collector_security_analy.Frameworks.Evaluation.{
  Evaluation, evaluation_of, evaluate, count_mappings, is_active, is_review_required,
  is_for_assessment,
}

-- The result of a control, by the findings
abbrev pub IsDecided : List Finding → AssessmentPolicy → FrameworkControl → ControlResult → Type 0
IsDecided findings policy c r =
    (r.control_id ≡ c.control_id)
    × ((r.status ≡ satisfied) ↔ IsMet policy c (all_pass findings))
    × ((r.status ≡ not_satisfied) ↔ IsMissed policy c (some_fail findings))

pub record IsSupported (pack : FrameworkPack) (findings : List Finding) (policy : AssessmentPolicy)
    (e : Evaluation) : Type 0 where
  pub decided : Together (IsDecided findings policy) pack.controls e.results
  pub formal : (e.formal_assessment_performed ≡ true) ↔ (
      (is_active pack ≡ true)
      × (is_for_assessment pack ≡ true)
      × (count_mappings is_provisional pack.controls ≡ 0))

module _ (pack : FrameworkPack) (findings : List Finding) (policy : AssessmentPolicy)
    (found : Dict FindingStatus) (h : findings_by_rule findings ≡ ok found) where
  passes-all_pass : passes found ≡ all_pass findings
  passes-all_pass i rule = findings_by_rule-passes rule findings found h i

  fails-some_fail : fails found ≡ some_fail findings
  fails-some_fail i rule = findings_by_rule-fails rule findings found h i

  control-IsDecided :
      (c : FrameworkControl) → IsDecided findings policy c (evaluate_control pack c found policy)
  unfolding evaluate_control result_of
  control-IsDecided c = (
    ground arith,
    subst (λ p. ((evaluate_control pack c found policy).status ≡ satisfied) ↔ IsMet policy c p)
        passes-all_pass (evaluate_control-satisfied pack c found policy),
    subst
        (λ p. ((evaluate_control pack c found policy).status ≡ not_satisfied) ↔ IsMissed policy c p)
        fails-some_fail (evaluate_control-not_satisfied pack c found policy),
  )

-- An evaluation that returned: the statuses of the rules, and what they make of the pack
pub evaluate-returned :
    (pack : FrameworkPack) (findings : List Finding) (policy : AssessmentPolicy)
    (allow_unreviewed : Bool) (now : String) (e : Evaluation)
    → evaluate pack findings policy allow_unreviewed now ≡ ok e
    → (found : Dict FindingStatus) × (findings_by_rule findings ≡ ok found)
      × (evaluation_of pack policy now found ≡ e)
      × ((is_active pack && ltb 0 (count_mappings is_provisional pack.controls)) ≡ false)
unfolding evaluate
evaluate-returned pack findings policy allow now e h =
    let complete =
      unless-ok (is_active pack && ltb 0 (count_mappings is_provisional pack.controls))
        provisional_in_active _ h in
    let reviewed = unless-ok (is_review_required pack && not allow) unreviewed _ complete.1 in
    let open_pack =
      unless-ok (not (is_active pack) && not (is_review_required pack)) not_assessable_pack _
        reviewed.1 in
    let collected =
      and_then-ok (λ x. ok (evaluation_of pack policy now x)) (findings_by_rule findings)
        open_pack.1 in
    (collected.0, collected.1, ok-injective collected.2, complete.0)

-- A pack that is evaluated has the result of each of its controls in order: SATISFIED exactly where the
-- control is not excluded, is technical, has a validated direct mapping, and the rule of each such mapping
-- has findings, all PASS; NOT_SATISFIED exactly where it is not excluded and the rule of some validated
-- direct mapping has a finding FAIL or WARNING and none that is ERROR. The assessment is reported as
-- formal exactly where the pack is ACTIVE, is meant for formal assessment and has no provisional mapping.
pub evaluate-IsSupported :
    (pack : FrameworkPack) (findings : List Finding) (policy : AssessmentPolicy)
    (allow_unreviewed : Bool) (now : String) (e : Evaluation)
    → evaluate pack findings policy allow_unreviewed now ≡ ok e
    → IsSupported pack findings policy e
unfolding evaluation_of
evaluate-IsSupported pack findings policy allow now e h =
    let returned = evaluate-returned pack findings policy allow now e h in
    subst (IsSupported pack findings policy) {x = evaluation_of pack policy now returned.0}
      returned.2
      (record {
        decided =
            Together-map (IsDecided findings policy) _
              (control-IsDecided pack findings policy returned.0 returned.1) pack.controls;
        formal = ground (arith, returned.3);
      })
