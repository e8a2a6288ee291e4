-- ===== src/Compliance/Engine.antt =====
-- compliance/engine.py and compliance/coverage.py: the summary of a framework and of a run. Percentages and
-- scores are left out.
pub mod Summaries
use collector_security_analy.Common.{
  ℕ, ◌+◌, String, Bool, true, false, not, ◌&&◌, ◌||◌, List, [], ◌∷◌, ltb, ◌==◌, any, keep, length,
  map, str_eq, if◌then◌else◌, is_empty,
}
use collector_security_analy.Common.Dict.{Dict, lookup, insert}
use collector_security_analy.Compliance.{
  ComplianceStatus, compliant, non_compliant, partially_compliant, not_assessed, not_applicable,
  manual_review, Assessment, Profile,
}
use collector_security_analy.Compliance.Evaluator.{entries}

-- `==` on statuses
abbrev pub same_status : ComplianceStatus → ComplianceStatus → Bool
same_status compliant compliant = true
same_status non_compliant non_compliant = true
same_status partially_compliant partially_compliant = true
same_status not_assessed not_assessed = true
same_status not_applicable not_applicable = true
same_status manual_review manual_review = true
same_status _ _ = false

-- `Counter(control.status for control in controls)[status]`
unfoldable pub count_status : ComplianceStatus → List Assessment → ℕ
count_status st [] = 0
count_status st (a ∷ rest) = (if same_status a.status st then 1 else 0) + count_status st rest

-- `sum(… for control in …)`
unfoldable pub sum_of : {A : Type 0} → (A → ℕ) → List A → ℕ
sum_of f [] = 0
sum_of f (a ∷ rest) = f a + sum_of f rest

-- `FrameworkAssessment`, with its counts
pub record FrameworkAssessment : Type 0 where
  pub controls : List Assessment
  pub compliant_count : ℕ
  pub non_compliant_count : ℕ
  pub partially_compliant_count : ℕ
  pub not_assessed_count : ℕ
  pub not_applicable_count : ℕ
  pub manual_review_count : ℕ
  pub assessed_controls : ℕ
  pub applicable_controls : ℕ
  pub assessment_complete : Bool
  pub requirement_count : ℕ
  pub covered_count : ℕ
  pub mandatory_count : ℕ
  pub covered_mandatory_count : ℕ

abbrev pub is_applicable_assessment : Assessment → Bool
is_applicable_assessment a = a.applicable

abbrev pub is_assessed : Assessment → Bool
is_assessed a = not (same_status a.status not_assessed) && not (same_status a.status not_applicable)

-- `_framework_assessment`
unfoldable pub framework_assessment : List Assessment → FrameworkAssessment
unfolding count_status sum_of
framework_assessment controls =
    let applicable = keep is_applicable_assessment controls in
    let mandatory = sum_of (λ (a : Assessment). a.mandatory_count) applicable in
    let covered_mandatory = sum_of (λ (a : Assessment). a.covered_mandatory_count) applicable in
    record {
      controls = controls;
      compliant_count = count_status compliant controls;
      non_compliant_count = count_status non_compliant controls;
      partially_compliant_count = count_status partially_compliant controls;
      not_assessed_count = count_status not_assessed controls;
      not_applicable_count = count_status not_applicable controls;
      manual_review_count = count_status manual_review controls;
      assessed_controls = length (keep is_assessed applicable);
      applicable_controls = length applicable;
      assessment_complete =
          (count_status not_assessed controls == 0 && count_status manual_review controls == 0)
          && (not (is_empty applicable) && mandatory == covered_mandatory);
      requirement_count = sum_of (λ (a : Assessment). a.requirement_count) applicable;
      covered_count = sum_of (λ (a : Assessment). a.covered_count) applicable;
      mandatory_count = mandatory;
      covered_mandatory_count = covered_mandatory;
    }

-- A count that is not 0
abbrev pub positive : ℕ → Bool
positive n = not (n == 0)

-- `_overall_status`
unfoldable pub overall_status : List FrameworkAssessment → List String → ComplianceStatus
unfolding sum_of
overall_status fs warnings =
    if not (is_empty warnings)
    then manual_review
    else if is_empty fs
    then not_assessed
    else if sum_of (λ (f : FrameworkAssessment). f.applicable_controls) fs == 0
    then not_assessed
    else if any (λ (f : FrameworkAssessment). positive f.non_compliant_count) fs
    then non_compliant
    else if any (λ (f : FrameworkAssessment). positive f.manual_review_count) fs
    then manual_review
    else if any
        (λ (f : FrameworkAssessment).
          positive f.not_assessed_count || positive f.partially_compliant_count)
        fs
    then partially_compliant
    else compliant

-- `if incoming.get(framework_id): base[framework_id] = incoming[framework_id]`
abbrev pub override : String → Dict (List String) → Dict (List String) → Dict (List String)
override framework_id incoming base =
    let l = entries (lookup framework_id incoming) in
    if is_empty l then base else insert framework_id l base

-- `_merge_profiles`, for the controls and the CIS group
unfoldable pub merge_profiles : Profile → Profile → String → Profile
merge_profiles base incoming framework_id = record {
  enabled_controls = override framework_id incoming.enabled_controls base.enabled_controls;
  excluded_controls = override framework_id incoming.excluded_controls base.excluded_controls;
  cis_ig = if str_eq incoming.cis_ig "" then base.cis_ig else incoming.cis_ig;
}
