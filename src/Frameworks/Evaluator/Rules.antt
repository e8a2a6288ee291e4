-- ===== src/Frameworks/Evaluator/Rules.antt =====
-- The rules of the direct mappings of a control, among those whose status passes a test.
use collector_security_analy.Common.{
  ◌≡◌, refl, ap, ◌∙◌, String, Bool, true, not, ◌&&◌, ◌||◌, List, [], ◌∷◌, arith, any, all, any-keep,
  all-keep, any_ext, all_ext, keep, contains, str_eq, eq_iff, Bool-cases, inl, inr,
}
use collector_security_analy.Frameworks.{direct, RuleMapping}
use collector_security_analy.Frameworks.Evaluator.{
  has_strength, is_validated, is_formal, rule_ids, in_rules, rules_where,
}

-- A validated mapping of direct strength
abbrev pub is_direct : RuleMapping → Bool
is_direct m = is_validated m && has_strength direct m

-- A direct mapping to a rule that passes a test
abbrev pub direct_to : (String → Bool) → RuleMapping → Bool
direct_to p m = is_direct m && p m.rule_id

-- A mapping to a rule that passes a test, unless it is not direct
abbrev pub if_direct : (String → Bool) → RuleMapping → Bool
if_direct p m = not (is_direct m) || p m.rule_id

contains-rules_where :
    (p : String → Bool) (r : String) (ms : List RuleMapping)
    → contains r (rules_where p ms) ≡ (p r && contains r (rule_ids ms))
contains-rules_where p r [] = ground arith
contains-rules_where p r (m ∷ ms) = elim (Bool-cases (str_eq r m.rule_id)) [
  | inl same ↦
      let e : r ≡ m.rule_id = ground (arith, same, eq_iff r m.rule_id) in
      ground (arith, same, ap p e, contains-rules_where p r ms)
  | inr other ↦ ground (arith, other, contains-rules_where p r ms)
]

all-in_rules :
    (ids : List String) (ms : List RuleMapping)
    → ((r : String) → contains r (rule_ids ms) ≡ true → contains r ids ≡ true)
    → all (in_rules ids) ms ≡ true
all-in_rules ids [] h = refl
all-in_rules ids (m ∷ ms) h = ground (
  arith,
  h m.rule_id,
  eq_iff m.rule_id m.rule_id,
  all-in_rules ids ms (λ r k. h r (ground (arith, k))),
)

-- The rules of a test, among mappings whose rules are all known
any_known :
    (d p q : RuleMapping → Bool) (ms : List RuleMapping)
    → all q ms ≡ true
    → any (λ m. d m && (p m && q m)) ms ≡ any (λ m. d m && p m) ms
any_known d p q [] h = refl
any_known d p q (m ∷ ms) h = ground (arith, h, any_known d p q ms)

all_known :
    (d p q : RuleMapping → Bool) (ms : List RuleMapping)
    → all q ms ≡ true
    → all (λ m. not (d m) || (p m && q m)) ms ≡ all (λ m. not (d m) || p m) ms
all_known d p q [] h = refl
all_known d p q (m ∷ ms) h = ground (arith, h, all_known d p q ms)

formal-direct :
    (m : RuleMapping) (b : Bool)
    → (is_formal m && (has_strength direct m && b)) ≡ (is_direct m && b)
formal-direct m b = ground arith

formal-if_direct :
    (m : RuleMapping) (b : Bool)
    → (not (is_formal m) || (not (has_strength direct m) || b)) ≡ (not (is_direct m) || b)
formal-if_direct m b = ground arith

abbrev pub directs : List RuleMapping → List RuleMapping
directs ms = keep (has_strength direct) (keep is_formal ms)

-- A direct mapping whose rule is among those that pass a test
pub any-directs :
    (p : String → Bool) (ms : List RuleMapping)
    → any (in_rules (rules_where p (keep is_formal ms))) (directs ms) ≡ any (direct_to p) ms
any-directs p ms =
    let formal = keep is_formal ms in
    let known = all-in_rules (rule_ids formal) formal (λ r h. h) in
    any-keep (has_strength direct) (in_rules (rules_where p formal)) formal
    ∙ any_ext _ (λ m. has_strength direct m && (p m.rule_id && in_rules (rule_ids formal) m))
        (λ m. ap (λ b. has_strength direct m && b) (contains-rules_where p m.rule_id formal)) formal
    ∙ any_known (has_strength direct) (λ m. p m.rule_id) (in_rules (rule_ids formal)) formal known
    ∙ any-keep is_formal (λ m. has_strength direct m && p m.rule_id) ms
    ∙ any_ext _ (direct_to p) (λ m. formal-direct m (p m.rule_id)) ms

-- All direct mappings have rules that pass a test.
pub all-directs :
    (p : String → Bool) (ms : List RuleMapping)
    → all (in_rules (rules_where p (keep is_formal ms))) (directs ms) ≡ all (if_direct p) ms
all-directs p ms =
    let formal = keep is_formal ms in
    let known = all-in_rules (rule_ids formal) formal (λ r h. h) in
    all-keep (has_strength direct) (in_rules (rules_where p formal)) formal
    ∙ all_ext _ (λ m. not (has_strength direct m) || (p m.rule_id && in_rules (rule_ids formal) m))
        (λ m. ap (λ b. not (has_strength direct m) || b) (contains-rules_where p m.rule_id formal))
        formal
    ∙ all_known (has_strength direct) (λ m. p m.rule_id) (in_rules (rule_ids formal)) formal known
    ∙ all-keep is_formal (λ m. not (has_strength direct m) || p m.rule_id) ms
    ∙ all_ext _ (if_direct p) (λ m. formal-if_direct m (p m.rule_id)) ms
