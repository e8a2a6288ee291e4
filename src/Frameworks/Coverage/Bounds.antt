-- ===== src/Frameworks/Coverage/Bounds.antt =====
-- The bounds of the counts and percentages of a pack.
use collector_security_analy.Common.{
  ℕ, zero, suc, ◌≤◌, ◌<◌, ◌+◌, ◌≡◌, refl, ap, subst, sym, String, Bool, true, false, not, ◌&&◌,
  List, [], ◌∷◌, arith, any, keep, length, length-keep, map, contains, str_eq, eq_iff, Bool-cases,
  inl, inr, are_distinct,
}
use collector_security_analy.Common.Texts.{as_set}
use collector_security_analy.Frameworks.{
  RuleMapping, FrameworkControl, FrameworkPack, ControlResult,
}
use collector_security_analy.Frameworks.Evaluator.{is_validated}
use collector_security_analy.Frameworks.Coverage.{
  Percent, nothing, rounded, percent, Coverage, count, is_automated, is_mapped, is_validated_mapped,
  has_technical_level, by_id, is_assessable, control_ids, is_satisfied, is_not_satisfied,
  is_partially_satisfied, is_not_assessable, is_evaluated_in, calculate_coverage,
}

abbrev pub result_ids : List ControlResult → List String
result_ids = map (λ (r : ControlResult). r.control_id)

abbrev without : String → List String → List String
without i = keep (λ j. not (str_eq i j))

contains-without :
    (i j : String) (ids : List String)
    → contains j (without i ids) ≡ (not (str_eq i j) && contains j ids)
contains-without i j [] = ground arith
contains-without i j (k ∷ ids) =
    ground (arith, eq_iff i j, eq_iff i k, eq_iff j k, contains-without i j ids)

length-without :
    (i : String) (ids : List String) → contains i ids ≡ true → length (without i ids) < length ids
length-without i [] h = cc h
length-without i (k ∷ ids) h =
    ground (arith, h, length-without i ids, length-keep (λ j. not (str_eq i j)) ids)

abbrev common : List String → List String → ℕ
common ids known = length (keep (λ i. contains i known) ids)

common-without :
    (i : String) (ids known : List String)
    → contains i ids ≡ false
    → common ids known ≡ common ids (without i known)
common-without i [] known h = refl
common-without i (j ∷ ids) known h =
    ground (arith, h, contains-without i j known, common-without i ids known)

-- Distinct texts of a list are at most as many as the list has.
common-bounded :
    (ids known : List String) → are_distinct ids ≡ true → common ids known ≤ length known
common-bounded [] known h = omega arith
common-bounded (i ∷ ids) known h = elim (Bool-cases (contains i known)) [
  | inl own ↦
      let less = length-without i known own in
      let ih = common-bounded ids (without i known) (ground (arith, h)) in
      let moved = common-without i ids known (ground (arith, h)) in
      ground (arith, own, less, ih, moved)
  | inr other ↦ ground (arith, other, common-bounded ids known, h)
]

evaluated-common :
    (known : List String) (rs : List ControlResult)
    → count (is_evaluated_in known) rs ≤ common (result_ids rs) known
evaluated-common known [] = omega arith
evaluated-common known (r ∷ rs) = ground (arith, evaluated-common known rs)

length-as_set : (ts : List String) → length (as_set ts) ≤ length ts
unfolding as_set
length-as_set [] = omega arith
length-as_set (t ∷ ts) = ground (arith, length-as_set ts)

length-map : (cs : List FrameworkControl) → length (control_ids cs) ≡ length cs
length-map [] = refl
length-map (c ∷ cs) = ap suc (length-map cs)

count_mono :
    (p q : FrameworkControl → Bool)
    → ((c : FrameworkControl) → p c ≡ true → q c ≡ true)
    → (cs : List FrameworkControl) → count p cs ≤ count q cs
count_mono p q h [] = omega arith
count_mono p q h (c ∷ cs) = ground (arith, h c, count_mono p q h cs)

validated-mapped : (c : FrameworkControl) → is_validated_mapped c ≡ true → is_mapped c ≡ true
validated-mapped c h = some_mapped c.mappings h
  where
    some_mapped :
        (ms : List RuleMapping)
        → any is_validated ms ≡ true
        → is_mapped (record c { mappings = ms }) ≡ true
    some_mapped [] h = cc h
    some_mapped (m ∷ ms) h = ground (arith, h, some_mapped ms)

-- A percentage of a part of a whole that is not empty, or none
abbrev pub IsProper : Percent → Type 0
IsProper nothing = Unit
IsProper (rounded n d) = (n ≤ d) × (0 < d)

percent-proper : (n d : ℕ) → n ≤ d → IsProper (percent n d)
percent-proper n zero h = tt
percent-proper n (suc d) h = ground (arith, h)

statuses_apart :
    (rs : List ControlResult)
    → count is_satisfied rs
        + count is_not_satisfied rs
        + count is_partially_satisfied rs
        + count is_not_assessable rs
      ≤ length rs
statuses_apart [] = omega arith
statuses_apart (r ∷ rs) = ground (arith, statuses_apart rs)

-- What the counts of a coverage are among each other, and that each percentage is proper
pub record IsBounded (c : Coverage) (results : ℕ) : Type 0 where
  pub evaluated_of_assessable : c.evaluated_control_count ≤ c.assessable_control_count
  pub assessable_of_validated : c.assessable_control_count ≤ c.validated_mapped_control_count
  pub validated_of_mapped : c.validated_mapped_control_count ≤ c.mapped_control_count
  pub mapped_or_not : c.mapped_control_count + c.unmapped_control_count ≡ c.framework_control_count
  pub statuses :
      c.satisfied_control_count + c.not_satisfied_control_count
        + c.partially_satisfied_control_count + c.not_assessable_control_count
      ≤ results
  pub mapping : IsProper c.mapping_coverage_percent
  pub validated_mapping : IsProper c.validated_mapping_coverage_percent
  pub traceability : IsProper c.traceability_coverage_percent
  pub formal_assessment : IsProper c.formal_assessment_coverage_percent
  pub technical_automation : IsProper c.technical_automation_coverage_percent
  pub assessment : IsProper c.assessment_coverage_percent
  pub satisfied_assessable : IsProper c.satisfied_assessable_controls_percent

pub calculate_coverage-IsBounded :
    (pack : FrameworkPack) (results : List ControlResult)
    → are_distinct (control_ids pack.controls) ≡ true
    → result_ids results ≡ control_ids pack.controls
    → IsBounded (calculate_coverage pack results) (length results)
unfolding calculate_coverage
calculate_coverage-IsBounded pack results distinct same =
    let assessable = is_assessable (by_id results []) in
    let listed = control_ids (keep assessable pack.controls) in
    let evaluated : count (is_evaluated_in (as_set listed)) results ≤ length (as_set listed) =
      omega (
        arith,
        evaluated-common (as_set listed) results,
        common-bounded (result_ids results) (as_set listed)
            (subst (λ ids. are_distinct ids ≡ true) (sym same) distinct),
      ) in
    let validated : length (as_set listed) ≤ count is_validated_mapped pack.controls = omega (
      arith,
      length-as_set listed,
      length-map (keep assessable pack.controls),
      count_mono assessable is_validated_mapped (λ c h. ground (arith, h)) pack.controls,
    ) in
    let mapped : count is_validated_mapped pack.controls ≤ count is_mapped pack.controls =
      count_mono is_validated_mapped is_mapped validated-mapped pack.controls in
    let all_mapped : count is_mapped pack.controls ≤ length pack.controls =
      length-keep is_mapped pack.controls in
    record {
      evaluated_of_assessable = evaluated;
      assessable_of_validated = validated;
      validated_of_mapped = mapped;
      mapped_or_not = omega (arith, all_mapped);
      statuses = statuses_apart results;
      mapping = percent-proper _ _ all_mapped;
      validated_mapping = percent-proper _ _ (omega (arith, mapped, all_mapped));
      traceability = percent-proper _ _ all_mapped;
      formal_assessment = percent-proper _ _ evaluated;
      technical_automation =
          percent-proper _ _ (length-keep is_automated (keep has_technical_level pack.controls));
      assessment = percent-proper _ _ evaluated;
      satisfied_assessable =
          percent-proper _ _
            (length-keep is_satisfied (keep (is_evaluated_in (as_set listed)) results));
    }
