-- ===== src/Frameworks/Evaluation.antt =====
-- frameworks/evaluator.py: the evaluation of a pack.
pub mod Supported
pub mod Errors
pub mod Bounded
use Prim.Native.String.{◌++◌ as text_append}
use collector_security_analy.Common.{
  ℕ, String, Bool, true, false, not, ◌&&◌, List, [], ◌∷◌, ◌+◌, map, keep, is_empty, if◌then◌else◌,
  ltb,
}
use collector_security_analy.Common.Dict.{Dict}
use collector_security_analy.Frameworks.{
  FindingStatus, Finding, Mode, formal_assessment, traceability_only, PackStatus, active,
  review_required, RuleMapping, FrameworkControl, FrameworkPack, AssessmentPolicy, ControlResult,
}
use collector_security_analy.Frameworks.Findings.{
  Evaluated, ok, raises, and_then, provisional_in_active, unreviewed, not_assessable_pack,
  findings_by_rule,
}
use collector_security_analy.Frameworks.Evaluator.{is_validated, is_provisional, evaluate_control}
use collector_security_analy.Frameworks.Coverage.{Coverage, count, calculate_coverage}

-- `FrameworkEvaluation`, without the pack
pub record Evaluation : Type 0 where
  pub results : List ControlResult
  pub coverage : Coverage
  pub evaluated_at : String
  pub warnings : List String
  pub evaluation_mode : Mode
  pub formal_assessment_performed : Bool
  pub validated_mapping_count : ℕ
  pub provisional_mapping_count : ℕ

-- `sum` of a test over the mappings of all controls
unfoldable pub count_mappings : (RuleMapping → Bool) → List FrameworkControl → ℕ
count_mappings p [] = 0
count_mappings p (c ∷ cs) = count p c.mappings + count_mappings p cs

abbrev pub is_active : FrameworkPack → Bool
is_active p = elim p.status [ active ↦ true | _ ↦ false ]

abbrev pub is_review_required : FrameworkPack → Bool
is_review_required p = elim p.status [ review_required ↦ true | _ ↦ false ]

abbrev pub is_for_assessment : FrameworkPack → Bool
is_for_assessment p = elim p.assessment_mode [
  | formal_assessment ↦ true
  | traceability_only ↦ false
]

abbrev pub warnings_of : List ControlResult → List String
warnings_of results =
    map
      (λ (r : ControlResult).
        text_append r.control_id ": provisional mappings require human review")
      (keep (λ (r : ControlResult). not (is_empty r.provisional_rule_ids)) results)

abbrev pub is_formal_assessment : FrameworkPack → Bool
is_formal_assessment pack = is_active pack && is_for_assessment pack

-- The evaluation of a pack that may be assessed
unfoldable pub evaluation_of :
    FrameworkPack → AssessmentPolicy → (now : String) → Dict FindingStatus → Evaluation
unfolding count_mappings
evaluation_of pack policy now finding_map =
    let results = map (λ c. evaluate_control pack c finding_map policy) pack.controls in
    record {
      results = results;
      coverage = calculate_coverage pack results;
      evaluated_at = now;
      warnings = warnings_of results;
      evaluation_mode = if is_formal_assessment pack then formal_assessment else traceability_only;
      formal_assessment_performed = is_formal_assessment pack;
      validated_mapping_count = count_mappings is_validated pack.controls;
      provisional_mapping_count = count_mappings is_provisional pack.controls;
    }

-- `FrameworkEvaluator.evaluate`; `now` is the time that the clock gives.
unfoldable pub evaluate :
    FrameworkPack
    → List Finding
    → AssessmentPolicy
    → (allow_unreviewed : Bool) → (now : String) → Evaluated Evaluation
unfolding count_mappings evaluation_of
evaluate pack findings policy allow_unreviewed now =
    if is_active pack && ltb 0 (count_mappings is_provisional pack.controls)
    then raises provisional_in_active
    else if is_review_required pack && not allow_unreviewed
    then raises unreviewed
    else if not (is_active pack) && not (is_review_required pack)
    then raises not_assessable_pack
    else and_then (λ finding_map. ok (evaluation_of pack policy now finding_map))
        (findings_by_rule findings)
