-- ===== src/Frameworks/Tests.antt =====
-- The framework theorems at a pack with two controls.
use collector_security_analy.Common.{◌≡◌, refl, String, false, not, ◌&&◌, List, [], ◌∷◌, length}
use collector_security_analy.Common.Dict.{lookup, insert}
use collector_security_analy.Frameworks.{
  FindingStatus, Finding, Level, Automation, Strength, MappingStatus, Mode, PackStatus, RuleMapping,
  FrameworkPack, AssessmentPolicy,
}
use collector_security_analy.Frameworks.Findings.{ok, collect, place}
use collector_security_analy.Frameworks.Findings.Clashes.{returns, clashes}
use collector_security_analy.Frameworks.Coverage.Bounds.{IsBounded}
use collector_security_analy.Frameworks.Evaluation.{
  Evaluation, evaluation_of, evaluate, count_mappings,
}
use collector_security_analy.Frameworks.Evaluation.Supported.{IsSupported, evaluate-IsSupported}
use collector_security_analy.Frameworks.Evaluation.Bounded.{evaluate-IsBounded}
use collector_security_analy.Frameworks.Evaluation.Errors.{is_assessable_pack, evaluate-returns}

abbrev mapping_to : Strength → String → RuleMapping
mapping_to strength rule = record {
  rule_id = rule;
  strength = strength;
  status = MappingStatus.validated;
  evidence_limitations = "endpoint only" ∷ [];
}

abbrev pack : FrameworkPack
pack = record {
  framework_id = "F";
  version = "1";
  status = PackStatus.active;
  assessment_mode = Mode.formal_assessment;
  controls =
      record {
        control_id = "C1";
        title = "Firewall";
        level = Level.technical;
        automation = Automation.automated;
        mappings = mapping_to Strength.direct "R1" ∷ mapping_to Strength.supporting "R2" ∷ [];
      }
      ∷ record {
        control_id = "C2";
        title = "Updates";
        level = Level.mixed;
        automation = Automation.partly_automated;
        mappings = mapping_to Strength.direct "R2" ∷ [];
      }
      ∷ [];
}

abbrev findings : List Finding
findings =
    record { rule_id = "R1"; status = FindingStatus.pass }
    ∷ record { rule_id = "R2"; status = FindingStatus.pass }
    ∷ record { rule_id = "R2"; status = FindingStatus.fail }
    ∷ []

abbrev policy : AssessmentPolicy
policy = record { not_applicable_controls = [] }

evaluation : Evaluation
evaluation =
    evaluation_of pack policy "now" (("R1", FindingStatus.pass) ∷ ("R2", FindingStatus.fail) ∷ [])

evaluated : evaluate pack findings policy false "now" ≡ ok evaluation
unfolding evaluate evaluation count_mappings collect place lookup insert
evaluated = refl

evaluate-IsSupported_example : IsSupported pack findings policy evaluation
evaluate-IsSupported_example =
    evaluate-IsSupported pack findings policy false "now" evaluation evaluated

evaluate-IsBounded_example : IsBounded evaluation.coverage (length evaluation.results)
evaluate-IsBounded_example =
    evaluate-IsBounded pack findings policy false "now" evaluation refl evaluated

evaluate-returns_example :
    returns (evaluate pack findings policy false "now")
    ≡ (is_assessable_pack pack false && not (clashes findings))
evaluate-returns_example = evaluate-returns pack findings policy false "now"
