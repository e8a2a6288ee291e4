-- ===== src/Compliance/Tests.antt =====
-- The compliance theorems at one control with one finding.
use collector_security_analy.Common.{
  ◌≡◌, ◌↔◌, String, true, false, ◌&&◌, none, some, List, [], ◌∷◌, any, keep, map, str_eq, is_empty,
}
use mathlib.Core.List.{Memᴰ}
use collector_security_analy.Compliance.{
  ComplianceStatus, EvidenceResult, SourceType, Scope, Relationship, Requirement, Control, Evidence,
  Profile, Mapping, Assessment, supports, contradicts,
}
use collector_security_analy.Compliance.Evaluator.{
  Sources, extract, evaluate_control, is_sure, is_contradicts, is_mandatory,
}
use collector_security_analy.Compliance.Selection.{is_better, select_mapping}
use collector_security_analy.Compliance.Evaluator.Decisions.{
  IsConvincing, IsEvaluated, compliant_iff, non_compliant_iff,
}
use collector_security_analy.Compliance.Evaluator.Mappings.{select_mapping-best}
use collector_security_analy.Compliance.Engine.{overall_status, is_applicable_assessment}
use collector_security_analy.Compliance.Engine.Summaries.{
  overall_compliant_iff, frameworks, status_in, is_open_status,
}

abbrev requirement : Requirement
requirement = record {
  evidence_id = "e";
  source_type = SourceType.finding;
  source_reference = "RULE-1";
  mandatory = true;
  is_composite = false;
}

abbrev evidence : EvidenceResult → Requirement → Evidence
evidence result r = record {
  evidence_id = r.evidence_id;
  source_type = r.source_type;
  source_reference = r.source_reference;
  result = result;
  confidence = 95;
  mandatory = r.mandatory;
  mapping_relationship = none;
  mapping_confidence = none;
  mapping_validated = none;
}

abbrev mapping : Mapping
mapping = record {
  rule_id = "RULE-1";
  relationship = Relationship.supporting;
  confidence = 80;
  validated = true;
}

abbrev sources : EvidenceResult → Sources
sources result = record {
  from_finding = evidence result;
  from_field = evidence result;
  from_composite = evidence result;
  mappings = some (mapping ∷ []);
}

abbrev control : Control
control = record {
  control_id = "C";
  framework_id = "F";
  scope = Scope.endpoint ∷ [];
  implementation_groups = [];
  requirements = requirement ∷ [];
  alternative = false;
}

abbrev profile : Profile
profile = record { enabled_controls = []; excluded_controls = []; cis_ig = "" }

compliant_iff_example :
    ((evaluate_control 60 (sources supports) control profile).status ≡ ComplianceStatus.compliant)
    ↔ (IsEvaluated 60 (sources supports) control profile
        × IsConvincing 60 control (map (extract (sources supports)) control.requirements))
compliant_iff_example = compliant_iff 60 (sources supports) control profile

non_compliant_iff_example :
    ((evaluate_control 60 (sources contradicts) control profile).status
      ≡ ComplianceStatus.non_compliant)
    ↔ (IsEvaluated 60 (sources contradicts) control profile
        × (any (is_sure 60 is_contradicts) (
              keep
                (is_mandatory control)
                (map (extract (sources contradicts)) control.requirements))
            ≡ true))
non_compliant_iff_example = non_compliant_iff 60 (sources contradicts) control profile

select_mapping-best_example :
    ((m : Mapping)
      → select_mapping (mapping ∷ []) "RULE-1" ≡ some m
      → Memᴰ m (mapping ∷ [])
        × (m.rule_id ≡ "RULE-1")
        × (any (λ (n : Mapping). str_eq n.rule_id "RULE-1" && is_better n m) (mapping ∷ [])
            ≡ false))
    × (select_mapping (mapping ∷ []) "RULE-1" ≡ none
        → any (λ (n : Mapping). str_eq n.rule_id "RULE-1") (mapping ∷ []) ≡ false)
select_mapping-best_example = select_mapping-best (mapping ∷ []) "RULE-1"

abbrev controls : List Assessment
controls =
    evaluate_control 60 (sources supports) control profile
    ∷ evaluate_control 60 (sources contradicts) control profile
    ∷ []

overall_compliant_iff_example :
    (overall_status (frameworks (controls ∷ [])) [] ≡ ComplianceStatus.compliant) ↔ (
      (is_empty {A = String} [] ≡ true)
      × (any (any is_applicable_assessment) (controls ∷ []) ≡ true)
      × (any (any (status_in is_open_status)) (controls ∷ []) ≡ false))
overall_compliant_iff_example = overall_compliant_iff (controls ∷ []) []
