-- ===== src/Compliance/Evaluator.antt =====
-- compliance/evaluator.py: the status of a control from its evidence. The extractors are parameters.
pub mod Decisions
pub mod Mappings
use collector_security_analy.Compliance.Selection.{
  is_better, best, best_of, select_mapping, mapped_result, apply_mapping,
}
use collector_security_analy.Common.{
  ℕ, min, String, Bool, true, false, not, ◌&&◌, ◌||◌, Option, none, some, List, [], ◌∷◌, leb, ltb,
  ◌==◌, str_eq, any, all, contains, keep, length, map, if◌then◌else◌, is_empty,
}
use collector_security_analy.Common.Dict.{Dict, lookup}
use collector_security_analy.Compliance.{
  ComplianceStatus, EvidenceResult, supports, contradicts, inconclusive, missing, excluded,
  SourceType, finding, raw_field, rule_metadata, Scope, organisation, Relationship, supporting,
  contradicting, partial, context_only, Requirement, Control, Evidence, Profile, Mapping,
  Assessment,
}

abbrev pub is_supports : EvidenceResult → Bool
is_supports supports = true
is_supports _ = false

abbrev pub is_contradicts : EvidenceResult → Bool
is_contradicts contradicts = true
is_contradicts _ = false

abbrev pub is_inconclusive : EvidenceResult → Bool
is_inconclusive inconclusive = true
is_inconclusive _ = false

abbrev pub is_missing : EvidenceResult → Bool
is_missing missing = true
is_missing _ = false

abbrev pub is_excluded : EvidenceResult → Bool
is_excluded excluded = true
is_excluded _ = false

abbrev pub is_organisation : Scope → Bool
is_organisation organisation = true
is_organisation _ = false

abbrev pub has_relationship : (Relationship → Bool) → Evidence → Bool
has_relationship p e = elim e.mapping_relationship [ none ↦ false | some r ↦ p r ]

abbrev pub is_partial : Relationship → Bool
is_partial partial = true
is_partial _ = false

abbrev pub is_context : Relationship → Bool
is_context context_only = true
is_context _ = false

-- `record.mapping_validated is False`
abbrev pub is_unvalidated : Evidence → Bool
is_unvalidated e = elim e.mapping_validated [ none ↦ false | some v ↦ not v ]

-- `dict.get(key, [])`
abbrev pub entries : Option (List String) → List String
entries none = []
entries (some l) = l

-- `_is_applicable`
unfoldable pub is_applicable : Control → Profile → Bool
is_applicable c p =
    let enabled = entries (lookup c.framework_id p.enabled_controls) in
    if contains c.control_id (entries (lookup c.framework_id p.excluded_controls))
    then false
    else if not (is_empty enabled) && not (contains c.control_id enabled)
    then false
    else if not (is_empty c.implementation_groups) && not (str_eq p.cis_ig "")
    then contains p.cis_ig c.implementation_groups
    else true

-- `_mandatory`
unfoldable pub is_mandatory : Control → Evidence → Bool
is_mandatory c e =
    any (λ (r : Requirement). str_eq r.evidence_id e.evidence_id && r.mandatory) c.requirements

-- The extractors, for the context and the findings of a run, and the mappings of the control; `none`
-- where there is no mapping repository.
pub record Sources : Type 0 where
  pub from_finding : Requirement → Evidence
  pub from_field : Requirement → Evidence
  pub from_composite : Requirement → Evidence
  pub mappings : Option (List Mapping)

-- A source type with no extractor
abbrev pub unregistered : Requirement → Evidence
unregistered r = record {
  evidence_id = r.evidence_id;
  source_type = r.source_type;
  source_reference = r.source_reference;
  result = inconclusive;
  confidence = 0;
  mandatory = r.mandatory;
  mapping_relationship = none;
  mapping_confidence = none;
  mapping_validated = none;
}

abbrev pub with_mappings : Option (List Mapping) → Requirement → Evidence → Evidence
with_mappings none r e = e
with_mappings (some ms) r e = apply_mapping e (select_mapping ms r.source_reference)

-- `_extract`
unfoldable pub extract : Sources → Requirement → Evidence
unfolding apply_mapping select_mapping
extract s r = if r.is_composite then s.from_composite r else elim r.source_type [
  | finding ↦ with_mappings s.mappings r (s.from_finding r)
  | raw_field ↦ s.from_field r
  | rule_metadata ↦ s.from_finding r
  | _ ↦ unregistered r
]

-- `_coverage_counts`
abbrev pub count_of : (Evidence → Bool) → List Evidence → ℕ
count_of p es = length (keep p es)

abbrev pub is_required : Evidence → Bool
is_required e = not (is_excluded e.result)

abbrev pub is_covered : Evidence → Bool
is_covered e = not (is_missing e.result) && not (is_excluded e.result)

-- `_assessment`
unfoldable pub assessment :
    ComplianceStatus
    → List Evidence
    → String
    → Option String
    → Bool
    → Bool
    → List Scope
    → List Scope
    → Assessment
assessment status evidence rationale remediation applicable manual assessed unassessed = record {
  status = status;
  evidence = evidence;
  rationale = rationale;
  remediation = remediation;
  applicable = applicable;
  manual_review_required = manual;
  assessed_scopes = assessed;
  unassessed_scopes = unassessed;
  requirement_count = count_of is_required evidence;
  covered_count = count_of is_covered evidence;
  mandatory_count = count_of (λ e. e.mandatory && is_required e) evidence;
  covered_mandatory_count = count_of (λ e. e.mandatory && is_covered e) evidence;
}

abbrev pub is_sure : ℕ → (EvidenceResult → Bool) → Evidence → Bool
is_sure minimum p e = p e.result && leb minimum e.confidence

-- `control.scope == [AssessmentScope.ORGANISATION]`
abbrev pub only_organisation : List Scope → Bool
only_organisation (organisation ∷ []) = true
only_organisation _ = false

-- The decision of `evaluate_control` on the evidence, for a minimum confidence
unfoldable pub decide : ℕ → Control → List Evidence → Assessment
unfolding is_mandatory assessment
decide minimum c evidence =
    let mandatory = keep (is_mandatory c) evidence in
    let has_unassessed = any is_organisation c.scope && ltb 1 (length c.scope) in
    let assessed = keep (λ s. not (is_organisation s)) c.scope in
    let unassessed = keep is_organisation c.scope in
    let has_context = any (has_relationship is_context) evidence in
    let supported = any (λ e. is_supports e.result) evidence in
    if any (is_sure minimum is_contradicts) mandatory
    then assessment ComplianceStatus.non_compliant evidence
        "Mandatory evidence contradicts the control."
        (some "Review and remediate the related finding.") true false assessed unassessed
    else if any (λ e. is_contradicts e.result) evidence && supported
    then assessment ComplianceStatus.manual_review evidence
        "Evidence is conflicting and requires manual review." none true true assessed unassessed
    else if any is_unvalidated evidence && not (is_empty mandatory)
    then assessment ComplianceStatus.manual_review evidence
        "Mapping validation is incomplete; manual review required." none true true assessed
        unassessed
    else if not (is_empty mandatory) && all (is_sure minimum is_supports) mandatory
    then (if has_unassessed || (any (has_relationship is_partial) evidence || has_context)
        then assessment ComplianceStatus.partially_compliant evidence
            "Endpoint evidence supports the control, but mapping or scope is partial." none true
            has_context assessed unassessed
        else if any
            (λ e. (is_missing e.result || is_inconclusive e.result) && not (is_mandatory c e))
            evidence
        then assessment ComplianceStatus.partially_compliant evidence
            "Mandatory evidence supports the control, but optional evidence is incomplete." none
            true false assessed unassessed
        else assessment ComplianceStatus.compliant evidence
            "Available endpoint evidence supports the control." none true false assessed unassessed)
    else if supported
    then assessment ComplianceStatus.partially_compliant evidence
        "Some endpoint evidence supports the control, but required evidence is incomplete." none
        true false assessed unassessed
    else if any (λ e. is_inconclusive e.result) evidence
    then assessment ComplianceStatus.manual_review evidence "Evidence is inconclusive." none true
        true assessed unassessed
    else assessment ComplianceStatus.not_assessed evidence
        "Required evidence is missing from endpoint data." none true false assessed unassessed

-- `evaluate_control`
unfoldable pub evaluate_control : ℕ → Sources → Control → Profile → Assessment
unfolding is_applicable extract decide assessment
evaluate_control minimum s c p =
    if not (is_applicable c p)
    then assessment ComplianceStatus.not_applicable [] "Control is outside profile scope." none
        false false [] []
    else if only_organisation c.scope
    then assessment ComplianceStatus.not_assessed []
        "Organisation-level control cannot be assessed from endpoint evidence." none true false []
        c.scope
    else if c.alternative && is_empty c.requirements
    then assessment ComplianceStatus.manual_review []
        "Alternative equivalent measures require manual review." none true true [] c.scope
    else decide minimum c (map (extract s) c.requirements)
