-- ===== src/Frameworks/Evaluation/Bounded.antt =====
-- The coverage of a pack that was evaluated.
use collector_security_analy.Common.{
  ◌≡◌, refl, subst, String, Bool, true, List, [], ◌∷◌, map, length, are_distinct, arith,
}
use collector_security_analy.Common.Dict.{Dict}
use collector_security_analy.Frameworks.{
  FindingStatus, Finding, FrameworkControl, FrameworkPack, AssessmentPolicy,
}
use collector_security_analy.Frameworks.Findings.{ok}
use collector_security_analy.Frameworks.Evaluator.{evaluate_control, result_of}
use collector_security_analy.Frameworks.Coverage.{control_ids}
use collector_security_analy.Frameworks.Coverage.Bounds.{
  result_ids, IsBounded, calculate_coverage-IsBounded,
}
use collector_security_analy.Frameworks.Evaluation.{Evaluation, evaluation_of, evaluate}
use collector_security_analy.Frameworks.Evaluation.Supported.{evaluate-returned}

module _ (pack : FrameworkPack) (policy : AssessmentPolicy) (found : Dict FindingStatus) where
  same_id :
      (c : FrameworkControl) → (evaluate_control pack c found policy).control_id ≡ c.control_id
  unfolding evaluate_control result_of
  same_id c = ground arith

  same_ids :
      (cs : List FrameworkControl)
      → result_ids (map (λ c. evaluate_control pack c found policy) cs) ≡ control_ids cs
  same_ids [] = refl
  same_ids (c ∷ cs) = cc (same_id c, same_ids cs)

-- The evaluation of a pack whose control identifiers are distinct counts at most as many controls
-- evaluated as assessable, assessable as mapped and validated, and these as mapped at all; mapped and
-- unmapped ones together are all; the counts of statuses are not more than the results; and each
-- percentage is 0 or of a part of a whole that is not empty, so at most 100.
pub evaluate-IsBounded :
    (pack : FrameworkPack) (findings : List Finding) (policy : AssessmentPolicy)
    (allow_unreviewed : Bool) (now : String) (e : Evaluation)
    → are_distinct (control_ids pack.controls) ≡ true
    → evaluate pack findings policy allow_unreviewed now ≡ ok e
    → IsBounded e.coverage (length e.results)
unfolding evaluation_of
evaluate-IsBounded pack findings policy allow now e distinct h =
    let returned = evaluate-returned pack findings policy allow now e h in
    subst (λ (e : Evaluation). IsBounded e.coverage (length e.results))
      {x = evaluation_of pack policy now returned.0} returned.2
      (calculate_coverage-IsBounded pack _ distinct (same_ids pack policy returned.0 pack.controls))
