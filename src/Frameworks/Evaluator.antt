-- ===== src/Frameworks/Evaluator.antt =====
-- frameworks/evaluator.py: the evaluation of one control from the statuses of rules.
pub mod Rules
pub mod Decisions
use collector_security_analy.Common.{
  ℕ, String, Bool, true, false, not, ◌&&◌, Option, none, some, List, [], ◌∷◌, ◌++◌, map, contains,
  str_eq, keep, is_empty, length, ◌==◌, if◌then◌else◌,
}
use collector_security_analy.Common.Dict.{Dict, lookup}
use collector_security_analy.Frameworks.{
  FindingStatus, pass, fail, warning, Level, technical, Strength, direct, supporting, contextual,
  MappingStatus, validated, provisional, ControlStatus, satisfied, not_satisfied,
  partially_satisfied, not_assessable, control_not_applicable, control_not_evaluated, RuleMapping,
  FrameworkControl, FrameworkPack, AssessmentPolicy, ControlResult,
}

-- `status in PASS_STATUSES`
abbrev pub is_pass : FindingStatus → Bool
is_pass pass = true
is_pass _ = false

-- `status in FAIL_STATUSES`
abbrev pub is_fail : FindingStatus → Bool
is_fail fail = true
is_fail warning = true
is_fail _ = false

-- A test on `findings.get(rule_id)`, which fails on `None`
abbrev pub holds : (FindingStatus → Bool) → Option FindingStatus → Bool
holds p none = false
holds p (some s) = p s

abbrev pub passes : Dict FindingStatus → String → Bool
passes findings rule = holds is_pass (lookup rule findings)

abbrev pub fails : Dict FindingStatus → String → Bool
fails findings rule = holds is_fail (lookup rule findings)

abbrev pub is_unavailable : Dict FindingStatus → String → Bool
is_unavailable findings rule = not (passes findings rule) && not (fails findings rule)

abbrev pub has_strength : Strength → RuleMapping → Bool
has_strength direct m = elim m.strength [ direct ↦ true | _ ↦ false ]
has_strength supporting m = elim m.strength [ supporting ↦ true | _ ↦ false ]
has_strength contextual m = elim m.strength [ contextual ↦ true | _ ↦ false ]

abbrev pub is_validated : RuleMapping → Bool
is_validated m = elim m.status [ validated ↦ true | _ ↦ false ]

abbrev pub is_provisional : RuleMapping → Bool
is_provisional m = elim m.status [ provisional ↦ true | _ ↦ false ]

abbrev pub is_technical : Level → Bool
is_technical technical = true
is_technical _ = false

-- A mapping of the list `formal`
abbrev pub is_formal : RuleMapping → Bool
is_formal m = is_validated m && not (has_strength contextual m)

abbrev pub rule_ids : List RuleMapping → List String
rule_ids = map (λ (m : RuleMapping). m.rule_id)

abbrev pub in_rules : List String → RuleMapping → Bool
in_rules ids m = contains m.rule_id ids

-- The rules of mappings whose status passes a test
abbrev pub rules_where : (String → Bool) → List RuleMapping → List String
rules_where p ms = rule_ids (keep (λ (m : RuleMapping). p m.rule_id) ms)

unfoldable pub limitations_of : List RuleMapping → List String
limitations_of [] = []
limitations_of (m ∷ ms) = m.evidence_limitations ++ limitations_of ms

-- The status, and the limitation that it adds
abbrev pub decide :
    Level → (formal : List RuleMapping) → Dict FindingStatus → ControlStatus × List String
decide level formal findings =
    let passed = rules_where (passes findings) formal in
    let failed = rules_where (fails findings) formal in
    let unavailable = rules_where (is_unavailable findings) formal in
    let directs = keep (has_strength direct) formal in
    if is_empty formal
    then (control_not_evaluated, "No validated non-contextual mapping is available." ∷ [])
    else if not (is_empty (keep (in_rules failed) directs))
    then (not_satisfied, [])
    else if is_empty directs
    then (
      if not (is_empty (keep (has_strength supporting) formal)) && not (is_empty passed)
          then partially_satisfied
          else not_assessable,
      "Supporting evidence alone cannot satisfy a control." ∷ [],
    )
    else if not (is_empty (keep (in_rules unavailable) directs))
    then (not_assessable, "Required direct rule evidence is unavailable." ∷ [])
    else if length (keep (in_rules passed) directs) == length directs
    then (if is_technical level then (satisfied, []) else (
      partially_satisfied,
      "Endpoint evidence cannot fully assess procedural, organizational, or mixed scope." ∷ [],
    ))
    else (not_assessable, [])

-- `_confidence`
abbrev pub confidence_of : ControlStatus → List String → List String → ℕ
confidence_of status provisionals unavailable =
    let low : ℕ = if is_empty unavailable then 25 else 0 in
    let high : ℕ = if is_empty provisionals then 100 else 75 in
    elim status [ control_not_evaluated ↦ low | not_assessable ↦ low | _ ↦ high ]

abbrev label : ControlStatus → String
label satisfied = "SUPPORTED_BY_TECHNICAL_EVIDENCE"
label not_satisfied = "TECHNICAL_EVIDENCE_INDICATES_GAP"
label partially_satisfied = "PARTIALLY_SUPPORTED"
label not_assessable = "NOT_ASSESSABLE_BY_ENDPOINT"
label control_not_applicable = "NOT_APPLICABLE"
label control_not_evaluated = "NOT_EVALUATED"

-- `_presentation_status`
abbrev pub presentation_status_of : ControlStatus → List String → List String → String
presentation_status_of status mapped provisionals =
    if is_empty mapped
    then "NOT_MAPPED"
    else if not (is_empty provisionals)
    then "REVIEW_PENDING"
    else label status

-- `dict.fromkeys(limitations)`
unfoldable pub first_of_each : List String → List String
first_of_each [] = []
first_of_each (t ∷ ts) = t ∷ keep (λ u. not (str_eq u t)) (first_of_each ts)

-- `_result`
unfoldable pub result_of :
    FrameworkPack
    → FrameworkControl
    → ControlStatus
    → (mapped passed failed unavailable provisionals : List String) → ℕ
    → List String
    → ControlResult
unfolding first_of_each
result_of pack c status mapped passed failed unavailable provisionals confidence limitations =
    record {
      framework_id = pack.framework_id;
      framework_version = pack.version;
      control_id = c.control_id;
      title = c.title;
      status = status;
      automation = c.automation;
      mapped_rule_ids = mapped;
      passed_rule_ids = passed;
      failed_rule_ids = failed;
      unavailable_rule_ids = unavailable;
      provisional_rule_ids = provisionals;
      confidence = confidence;
      limitations = first_of_each limitations;
      presentation_status = presentation_status_of status mapped provisionals;
    }

abbrev pub limitations_before : FrameworkControl → List String
unfolding limitations_of
limitations_before c =
    limitations_of c.mappings
    ++ (if is_empty (keep is_provisional c.mappings)
        then []
        else "Provisional mappings are excluded from formal evaluation." ∷ [])

-- `FrameworkEvaluator.evaluate_control`
unfoldable pub evaluate_control :
    FrameworkPack → FrameworkControl → Dict FindingStatus → AssessmentPolicy → ControlResult
unfolding result_of
evaluate_control pack c findings policy =
    let mapped = rule_ids c.mappings in
    let provisionals = rule_ids (keep is_provisional c.mappings) in
    let limitations = limitations_before c in
    let formal = keep is_formal c.mappings in
    let unavailable = rules_where (is_unavailable findings) formal in
    let decision = decide c.level formal findings in
    if contains c.control_id policy.not_applicable_controls
    then result_of pack c control_not_applicable mapped [] [] [] provisionals 100 limitations
    else if is_empty c.mappings
    then result_of pack c control_not_evaluated [] [] [] [] [] 0
        ("No CSA rule mapping is available." ∷ [])
    else result_of pack c decision.0 mapped (rules_where (passes findings) formal)
        (rules_where (fails findings) formal) unavailable provisionals
        (confidence_of decision.0 provisionals unavailable) (limitations ++ decision.1)
