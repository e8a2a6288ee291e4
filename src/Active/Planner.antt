-- ===== src/Active/Planner.antt =====
-- active_validation/planner.py: `ValidationPlanner.plan`.
pub mod Permitted
pub mod Ordered
pub mod Ends
use collector_security_analy.Common.{
  ℕ, zero, suc, ◌+◌, min, String, Bool, true, false, not, ◌&&◌, ◌||◌, Option, none, some, List, [],
  ◌∷◌, leb, str_eq, any, all, contains, map, length, if◌then◌else◌,
}
use collector_security_analy.Active.Outcome.{
  Outcome, ok, err, ◌>>=◌, ◌>>◌, require, empty_selection, too_many_validators, unknown_validator,
  not_active, unsupported_platform, missing_privilege, no_related_rule, unsafe, too_long,
}
use collector_security_analy.Active.Model.{
  RiskLevel, is_active, Definition, Entry, get, Policy, Authorization, Plan,
}
use collector_security_analy.Active.Policy.{validate_validator_safety}
use collector_security_analy.Active.Selection.{
  profile_risks, stated, resolve_selection, require_scope, is_nil,
}
use collector_security_analy.Active.Dependencies.{resolve_dependencies}
use collector_security_analy.Active.Order.{topological_order}

-- The arguments of `plan` beside the policy and the authorization
pub record Request : Type 0 where
  pub run_id : String
  pub requested_validator_ids : List String
  pub device_identifier : String
  pub assessment_id : Option String
  pub profile : Option String
  pub platform : Option String
  pub observed_privileges : List String
  pub available_rule_ids : Option (List String)

-- `platform is None or platform.casefold() in {…}`, for `str.casefold`
abbrev pub supports : (String → String) → Option String → List String → Bool
supports fold none platforms = true
supports fold (some p) platforms = contains (fold p) (map fold platforms)

-- No passive rule of an explicitly selected validator is available.
abbrev pub is_unrelated : Option (List String) → Bool → List String → Bool
is_unrelated none explicit rules = false
is_unrelated (some available) explicit rules =
    explicit && (not (is_nil rules) && not (any (λ r. contains r available) rules))

module _ (fold : String → String) (registry : List Entry) (policy : Policy) (request : Request)
    (explicit : List String) where
  abbrev pub plan_of : ℕ → Definition → String → Plan
  plan_of sequence d id = record {
    run_id = request.run_id;
    validator_id = id;
    validator_version = d.version;
    timeout_seconds =
        min (min d.default_timeout_seconds d.maximum_timeout_seconds)
          policy.default_validator_timeout_seconds;
    risk_level = d.risk_level;
    requires_rollback = d.requires_rollback;
    sequence = sequence;
    profile = request.profile;
  }

  -- One round of the loop over the ordered validators
  abbrev pub plan_entry : ℕ → String → Option Entry → Outcome Plan
  plan_entry sequence id none = err unknown_validator
  plan_entry sequence id (some e) = do
    require (is_active e.status) not_active
    require (supports fold request.platform e.described.supported_platforms) unsupported_platform
    require (all (λ p. contains p request.observed_privileges) e.described.required_privileges)
        missing_privilege
    require
        (not (
          is_unrelated request.available_rule_ids (contains id explicit)
            e.described.supported_rule_ids))
        no_related_rule
    require (validate_validator_safety e.described policy).0 unsafe
    ok (plan_of sequence e.described id)

  unfoldable pub plan_all : ℕ → List String → Outcome (List Plan)
  unfolding validate_validator_safety get
  plan_all sequence [] = ok []
  plan_all sequence (id ∷ ids) = do
    p ← plan_entry sequence id (get id registry)
    ps ← plan_all (suc sequence) ids
    ok (p ∷ ps)

unfoldable pub total_timeout : List Plan → ℕ
total_timeout [] = 0
total_timeout (p ∷ ps) = p.timeout_seconds + total_timeout ps

-- `PROFILE_RISKS[profile]`, where there is a profile
abbrev pub risks_of_profile : Option String → Option (List RiskLevel)
risks_of_profile none = none
risks_of_profile (some p) = profile_risks p

-- `plan`
unfoldable pub plan :
    (String → String) → List Entry → Policy → Authorization → Request → Outcome (List Plan)
unfolding resolve_selection resolve_dependencies topological_order require_scope plan_all
    total_timeout profile_risks
plan fold registry policy authorization request = do
  selected ← resolve_selection registry request.profile request.requested_validator_ids
  require (not (is_nil selected)) empty_selection
  resolved ← resolve_dependencies registry (risks_of_profile (stated request.profile)) selected
  require (leb (length resolved) policy.maximum_validators_per_run) too_many_validators
  require_scope authorization request.device_identifier resolved request.assessment_id
  ordered ← topological_order registry resolved
  plans ← plan_all fold registry policy request selected 1 ordered
  require (leb (total_timeout plans) policy.maximum_total_duration_seconds) too_long
  ok plans
