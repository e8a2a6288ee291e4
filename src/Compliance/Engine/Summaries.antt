-- ===== src/Compliance/Engine/Summaries.antt =====
-- What the summaries say of the controls.
use collector_security_analy.Common.{
  ◌+◌, ◌≡◌, ◌↔◌, refl, String, Bool, true, false, ◌||◌, List, [], ◌∷◌, arith, any, keep, length,
  map, is_empty,
}
use collector_security_analy.Compliance.{
  ComplianceStatus, compliant, non_compliant, partially_compliant, not_assessed, manual_review,
  Assessment,
}
use collector_security_analy.Compliance.Engine.{
  count_status, sum_of, FrameworkAssessment, framework_assessment, overall_status, positive,
  is_applicable_assessment,
}

-- The six counts of a framework add up to the number of its controls.
counts_total :
    (cs : List Assessment)
    → let f = framework_assessment cs in
      f.compliant_count + f.non_compliant_count + f.partially_compliant_count + f.not_assessed_count
        + f.not_applicable_count + f.manual_review_count
      ≡ length cs
unfolding framework_assessment count_status
counts_total [] = omega arith
counts_total (a ∷ cs) = ground (arith, counts_total cs)

abbrev pub status_in : (ComplianceStatus → Bool) → Assessment → Bool
status_in p a = p a.status

abbrev pub is_open_status : ComplianceStatus → Bool
is_open_status not_assessed = true
is_open_status manual_review = true
is_open_status non_compliant = true
is_open_status partially_compliant = true
is_open_status _ = false

abbrev pub frameworks : List (List Assessment) → List FrameworkAssessment
frameworks = map framework_assessment

-- A control whose status keeps a run from being COMPLIANT, by the four counts
is_open_status-counts :
    (cs : List Assessment)
    → any (status_in is_open_status) cs ≡ (
        positive (count_status non_compliant cs)
        || (positive (count_status manual_review cs)
            || (positive (count_status not_assessed cs)
                || positive (count_status partially_compliant cs))))
unfolding count_status
is_open_status-counts [] = refl
is_open_status-counts (c ∷ cs) = ground (arith, is_open_status-counts cs)

is_empty-keep :
    (cs : List Assessment)
    → positive (length (keep is_applicable_assessment cs)) ≡ any is_applicable_assessment cs
is_empty-keep [] = refl
is_empty-keep (c ∷ cs) = ground (arith, is_empty-keep cs)

applicable-sum :
    (runs : List (List Assessment))
    → positive (sum_of (λ (f : FrameworkAssessment). f.applicable_controls) (frameworks runs))
      ≡ any (any is_applicable_assessment) runs
unfolding framework_assessment sum_of
applicable-sum [] = refl
applicable-sum (cs ∷ runs) = ground (arith, applicable-sum runs, is_empty-keep cs)

open-counts :
    (runs : List (List Assessment))
    → (any (λ (f : FrameworkAssessment). positive f.non_compliant_count) (frameworks runs)
        || (any (λ (f : FrameworkAssessment). positive f.manual_review_count) (frameworks runs)
            || any
                (λ (f : FrameworkAssessment).
                  positive f.not_assessed_count || positive f.partially_compliant_count)
                (frameworks runs)))
      ≡ any (any (status_in is_open_status)) runs
unfolding framework_assessment
open-counts [] = refl
open-counts (cs ∷ runs) = ground (arith, open-counts runs, is_open_status-counts cs)

overall-compliant :
    (fs : List FrameworkAssessment) (warnings : List String)
    → (overall_status fs warnings ≡ compliant) ↔ (
        (is_empty warnings ≡ true)
        × (positive (sum_of (λ (f : FrameworkAssessment). f.applicable_controls) fs) ≡ true)
        × ((any (λ (f : FrameworkAssessment). positive f.non_compliant_count) fs
              || (any (λ (f : FrameworkAssessment). positive f.manual_review_count) fs
                  || any
                      (λ (f : FrameworkAssessment).
                        positive f.not_assessed_count || positive f.partially_compliant_count)
                      fs))
            ≡ false))
unfolding overall_status sum_of
overall-compliant [] warnings = ground arith
overall-compliant (f ∷ fs) warnings = ground arith

-- A run over the controls of some frameworks is COMPLIANT overall exactly where it has no warnings, some
-- control of some framework is applicable, and no control is NON_COMPLIANT, PARTIALLY_COMPLIANT,
-- NOT_ASSESSED or for MANUAL_REVIEW.
pub overall_compliant_iff :
    (runs : List (List Assessment)) (warnings : List String)
    → (overall_status (frameworks runs) warnings ≡ compliant) ↔ (
        (is_empty warnings ≡ true)
        × (any (any is_applicable_assessment) runs ≡ true)
        × (any (any (status_in is_open_status)) runs ≡ false))
overall_compliant_iff runs warnings =
    ground
      (arith, overall-compliant (frameworks runs) warnings, applicable-sum runs, open-counts runs)
