-- ===== src/Frameworks/Coverage.antt =====
-- frameworks/coverage.py: calculate_coverage, on the controls of a pack and their results.
pub mod Bounds
use collector_security_analy.Common.{
  ℕ, String, Bool, true, false, not, ◌&&◌, ◌-◌, Option, none, some, List, [], ◌∷◌, map, any,
  contains, keep, length, ◌==◌, if◌then◌else◌,
}
use collector_security_analy.Common.Texts.{as_set}
use collector_security_analy.Common.Dict.{Dict, lookup, insert}
use collector_security_analy.Frameworks.{
  Automation, automated, partly_automated, manual, automation_not_applicable, MappingStatus,
  deprecated, ControlStatus, satisfied, not_satisfied, partially_satisfied, not_assessable,
  control_not_applicable, control_not_evaluated, RuleMapping, FrameworkControl, FrameworkPack,
  ControlResult,
}
use collector_security_analy.Frameworks.Evaluator.{is_validated, is_technical}

-- `_percent`: 0.0, or the percentage of a numerator and a denominator, rounded to a tenth
pub data Percent : Type 0 where
  nothing : Percent
  rounded : (numerator denominator : ℕ) → Percent

abbrev pub percent : ℕ → ℕ → Percent
percent n d = if d == 0 then nothing else rounded n d

-- `FrameworkCoverage`
pub record Coverage : Type 0 where
  pub framework_control_count : ℕ
  pub mapped_control_count : ℕ
  pub validated_mapped_control_count : ℕ
  pub unmapped_control_count : ℕ
  pub automated_control_count : ℕ
  pub partially_automated_control_count : ℕ
  pub manual_control_count : ℕ
  pub assessable_control_count : ℕ
  pub evaluated_control_count : ℕ
  pub satisfied_control_count : ℕ
  pub not_satisfied_control_count : ℕ
  pub partially_satisfied_control_count : ℕ
  pub not_assessable_control_count : ℕ
  pub mapping_coverage_percent : Percent
  pub validated_mapping_coverage_percent : Percent
  pub traceability_coverage_percent : Percent
  pub formal_assessment_coverage_percent : Percent
  pub technical_automation_coverage_percent : Percent
  pub assessment_coverage_percent : Percent
  pub satisfied_assessable_controls_percent : Percent

-- `sum(p(x) for x in xs)`
abbrev pub count : {A : Type 0} → (A → Bool) → List A → ℕ
count p xs = length (keep p xs)

abbrev pub is_automated : FrameworkControl → Bool
is_automated c = elim c.automation [ automated ↦ true | _ ↦ false ]

abbrev pub is_partly_automated : FrameworkControl → Bool
is_partly_automated c = elim c.automation [ partly_automated ↦ true | _ ↦ false ]

abbrev pub is_manual : FrameworkControl → Bool
is_manual c = elim c.automation [ manual ↦ true | _ ↦ false ]

-- `automation not in {MANUAL, NOT_APPLICABLE}`
abbrev pub is_automatable : FrameworkControl → Bool
is_automatable c = elim c.automation [
  | manual ↦ false
  | automation_not_applicable ↦ false
  | _ ↦ true
]

abbrev pub is_mapped : FrameworkControl → Bool
is_mapped c = any (λ (m : RuleMapping). elim m.status [ deprecated ↦ false | _ ↦ true ]) c.mappings

abbrev pub is_validated_mapped : FrameworkControl → Bool
is_validated_mapped c = any is_validated c.mappings

abbrev pub has_technical_level : FrameworkControl → Bool
has_technical_level c = is_technical c.level

-- `{result.control_id: result for result in results}`
unfoldable pub by_id : List ControlResult → Dict ControlResult → Dict ControlResult
by_id [] d = d
by_id (r ∷ rs) d = by_id rs (insert r.control_id r d)

abbrev pub applies : Option ControlResult → Bool
applies none = false
applies (some r) = elim r.status [ control_not_applicable ↦ false | _ ↦ true ]

-- The condition of `assessable_ids`
abbrev pub is_assessable : Dict ControlResult → FrameworkControl → Bool
is_assessable result_by_id c =
    is_automatable c && is_validated_mapped c && applies (lookup c.control_id result_by_id)

abbrev pub control_ids : List FrameworkControl → List String
control_ids = map (λ (c : FrameworkControl). c.control_id)

-- `status in evaluated_statuses`
abbrev pub is_evaluated : ControlStatus → Bool
is_evaluated satisfied = true
is_evaluated not_satisfied = true
is_evaluated partially_satisfied = true
is_evaluated _ = false

abbrev pub is_satisfied : ControlResult → Bool
is_satisfied r = elim r.status [ satisfied ↦ true | _ ↦ false ]

abbrev pub is_not_satisfied : ControlResult → Bool
is_not_satisfied r = elim r.status [ not_satisfied ↦ true | _ ↦ false ]

abbrev pub is_partially_satisfied : ControlResult → Bool
is_partially_satisfied r = elim r.status [ partially_satisfied ↦ true | _ ↦ false ]

abbrev pub is_not_assessable : ControlResult → Bool
is_not_assessable r = elim r.status [ not_assessable ↦ true | _ ↦ false ]

abbrev pub is_evaluated_in : List String → ControlResult → Bool
is_evaluated_in assessable r = contains r.control_id assessable && is_evaluated r.status

-- `calculate_coverage`
unfoldable pub calculate_coverage : FrameworkPack → List ControlResult → Coverage
unfolding by_id
calculate_coverage pack results =
    let total = length pack.controls in
    let mapped = count is_mapped pack.controls in
    let validated_mapped = count is_validated_mapped pack.controls in
    let technical = keep has_technical_level pack.controls in
    let result_by_id = by_id results [] in
    let assessable_ids = as_set (control_ids (keep (is_assessable result_by_id) pack.controls)) in
    let evaluated = keep (is_evaluated_in assessable_ids) results in
    record {
      framework_control_count = total;
      mapped_control_count = mapped;
      validated_mapped_control_count = validated_mapped;
      unmapped_control_count = total - mapped;
      automated_control_count = count is_automated pack.controls;
      partially_automated_control_count = count is_partly_automated pack.controls;
      manual_control_count = count is_manual pack.controls;
      assessable_control_count = length assessable_ids;
      evaluated_control_count = length evaluated;
      satisfied_control_count = count is_satisfied results;
      not_satisfied_control_count = count is_not_satisfied results;
      partially_satisfied_control_count = count is_partially_satisfied results;
      not_assessable_control_count = count is_not_assessable results;
      mapping_coverage_percent = percent mapped total;
      validated_mapping_coverage_percent = percent validated_mapped total;
      traceability_coverage_percent = percent mapped total;
      formal_assessment_coverage_percent = percent (length evaluated) (length assessable_ids);
      technical_automation_coverage_percent =
          percent (count is_automated technical) (length technical);
      assessment_coverage_percent = percent (length evaluated) (length assessable_ids);
      satisfied_assessable_controls_percent =
          percent (count is_satisfied evaluated) (length evaluated);
    }
