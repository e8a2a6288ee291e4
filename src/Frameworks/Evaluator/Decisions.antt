-- ===== src/Frameworks/Evaluator/Decisions.antt =====
-- When a control is SATISFIED and when it is NOT_SATISFIED, by the statuses of rules.
use collector_security_analy.Common.{
  ◌≡◌, ◌↔◌, refl, ap, ◌∙◌, String, Bool, true, false, not, ◌&&◌, Option, none, some, List, [], ◌∷◌,
  arith, any, all, any-keep, any_ext, is_empty, is_empty-keep, length, length-keep_all, ◌==◌, keep,
  contains,
}
use collector_security_analy.Common.Dict.{Dict, lookup}
use collector_security_analy.Frameworks.{
  FindingStatus, direct, Level, satisfied, not_satisfied, RuleMapping, FrameworkControl,
  FrameworkPack, AssessmentPolicy,
}
use collector_security_analy.Frameworks.Evaluator.{
  holds, is_pass, is_fail, passes, fails, is_unavailable, has_strength, is_formal, is_technical,
  in_rules, rules_where, decide, result_of, evaluate_control,
}
use collector_security_analy.Frameworks.Evaluator.Rules.{
  is_direct, direct_to, if_direct, directs, any-directs, all-directs,
}

-- A technical control that is not excluded, with a direct mapping, and all of these to rules that pass
abbrev pub IsMet : AssessmentPolicy → FrameworkControl → (String → Bool) → Type 0
IsMet policy c p =
    (contains c.control_id policy.not_applicable_controls ≡ false)
    × (is_technical c.level ≡ true)
    × (any is_direct c.mappings ≡ true)
    × (all (if_direct p) c.mappings ≡ true)

-- A control that is not excluded, with a direct mapping to a rule that passes the test
abbrev pub IsMissed : AssessmentPolicy → FrameworkControl → (String → Bool) → Type 0
IsMissed policy c p =
    (contains c.control_id policy.not_applicable_controls ≡ false)
    × (any (direct_to p) c.mappings ≡ true)

no_directs : (ms : List RuleMapping) → is_empty (directs ms) ≡ not (any is_direct ms)
no_directs ms =
    is_empty-keep (has_strength direct) (keep is_formal ms)
    ∙ ap not
        (any-keep is_formal (has_strength direct) ms ∙ any_ext _ is_direct (λ m. ground arith) ms)

empty-keep :
    (p : RuleMapping → Bool) (ms : List RuleMapping)
    → is_empty ms ≡ true
    → is_empty (keep p ms) ≡ true
empty-keep p [] h = refl
empty-keep p (m ∷ ms) h = cc h

no_formal : (ms : List RuleMapping) → is_empty (keep is_formal ms) ≡ true → any is_direct ms ≡ false
no_formal ms h =
    ground (arith, no_directs ms, empty-keep (has_strength direct) (keep is_formal ms) h)

exclusive :
    (o : Option FindingStatus) → holds is_fail o ≡ (holds is_fail o && not (holds is_pass o))
exclusive none = refl
exclusive (some s) = ground arith

-- A rule whose status passes neither fails nor is unavailable.
passing_only :
    (findings : Dict FindingStatus) (r : String)
    → (fails findings r ≡ (fails findings r && not (passes findings r)))
      × (is_unavailable findings r ≡ (is_unavailable findings r && not (passes findings r)))
passing_only findings r = ground (arith, exclusive (lookup r findings))

all_passing :
    (p q : String → Bool) (ms : List RuleMapping)
    → ((r : String) → q r ≡ (q r && not (p r)))
    → all (if_direct p) ms ≡ true
    → any (direct_to q) ms ≡ false
all_passing p q [] h k = refl
all_passing p q (m ∷ ms) h k = ground (arith, h m.rule_id, k, all_passing p q ms h)

some_direct :
    (p : String → Bool) (ms : List RuleMapping)
    → any (direct_to p) ms ≡ true
    → any is_direct ms ≡ true
some_direct p [] h = cc h
some_direct p (m ∷ ms) h = ground (arith, h, some_direct p ms)

no_mappings :
    (p : String → Bool) (ms : List RuleMapping)
    → is_empty ms ≡ true
    → (any is_direct ms ≡ false) × (any (direct_to p) ms ≡ false)
no_mappings p [] h = (refl, refl)
no_mappings p (m ∷ ms) h = cc h

module _ (level : Level) (ms : List RuleMapping) (findings : Dict FindingStatus) where
  among :
      (p : String → Bool)
      → is_empty (keep (in_rules (rules_where p (keep is_formal ms))) (directs ms))
        ≡ not (any (direct_to p) ms)
  among p =
      is_empty-keep (in_rules (rules_where p (keep is_formal ms))) (directs ms)
      ∙ ap not (any-directs p ms)

  all_among :
      (length (keep (in_rules (rules_where (passes findings) (keep is_formal ms))) (directs ms))
        == length (directs ms))
      ≡ all (if_direct (passes findings)) ms
  all_among =
      length-keep_all (in_rules (rules_where (passes findings) (keep is_formal ms))) (directs ms)
      ∙ all-directs (passes findings) ms

  decide-satisfied : ((decide level (keep is_formal ms) findings).0 ≡ satisfied) ↔ (
      (is_technical level ≡ true)
      × (any is_direct ms ≡ true)
      × (all (if_direct (passes findings)) ms ≡ true))
  decide-satisfied = ground (
    arith,
    among (fails findings),
    among (is_unavailable findings),
    all_among,
    no_directs ms,
    no_formal ms,
    all_passing (passes findings) (fails findings) ms (λ r. (passing_only findings r).0),
    all_passing (passes findings) (is_unavailable findings) ms (λ r. (passing_only findings r).1),
  )

  decide-not_satisfied :
      ((decide level (keep is_formal ms) findings).0 ≡ not_satisfied)
      ↔ (any (direct_to (fails findings)) ms ≡ true)
  decide-not_satisfied = ground (
    arith,
    among (fails findings),
    among (is_unavailable findings),
    all_among,
    no_directs ms,
    no_formal ms,
    some_direct (fails findings) ms,
  )

module _ (pack : FrameworkPack) (c : FrameworkControl) (findings : Dict FindingStatus)
    (policy : AssessmentPolicy) where
  -- A control is SATISFIED exactly where it is not excluded, is technical, has a validated direct mapping,
  -- and the status of the rule of each such mapping is PASS.
  pub evaluate_control-satisfied :
      ((evaluate_control pack c findings policy).status ≡ satisfied)
      ↔ IsMet policy c (passes findings)
  unfolding evaluate_control result_of
  evaluate_control-satisfied = ground (
    arith,
    decide-satisfied c.level c.mappings findings,
    no_mappings (passes findings) c.mappings,
  )

  -- A control is NOT_SATISFIED exactly where it is not excluded and the status of the rule of some
  -- validated direct mapping is FAIL or WARNING.
  pub evaluate_control-not_satisfied :
      ((evaluate_control pack c findings policy).status ≡ not_satisfied)
      ↔ IsMissed policy c (fails findings)
  unfolding evaluate_control result_of
  evaluate_control-not_satisfied = ground (
    arith,
    decide-not_satisfied c.level c.mappings findings,
    no_mappings (fails findings) c.mappings,
  )
