-- ===== src/Active/Tests.antt =====
-- The theorems on active validation at a registry of two validators, one of which depends on the other.
use collector_security_analy.Common.{
  arith, ℕ, ◌≡◌, ◌↔◌, refl, String, Bool, true, false, ◌&&◌, none, some, List, [], ◌∷◌, contains,
}
use collector_security_analy.Active.Json.{
  Json, boolean, number, text, array, nil, cons, Fields, end, field, items, keys, at,
}
use collector_security_analy.Active.Outcome.{ok, ends}
use collector_security_analy.Active.Model.{
  safe_read_only, active, Definition, Entry, get, Policy, Authorization, Plan, load_registry,
  register, definition,
}
use collector_security_analy.Active.Policy.{
  parse_policy, policy_of, has_policy_keys, has_booleans, grants_prohibited, read_risks, risks_of,
  risk_of, read_bounded, validate_validator_safety, validate_deep_responder_policy,
}
use collector_security_analy.Active.Policy.Loaded.{IsSafe, parse_policy-IsSafe}
use collector_security_analy.Active.Policy.Deep.{
  has_deep_permits, validate_deep_responder_policy-loaded,
}
use collector_security_analy.Active.Dependencies.{
  resolve_dependencies, initial, expand_all, admit_all,
}
use collector_security_analy.Active.Dependencies.Closed.{Needed, resolve_dependencies-Needed}
use collector_security_analy.Common.{str_eq}
use collector_security_analy.Common.Texts.{sorted, insert_sorted}
use collector_security_analy.Common.Dict.{lookup}
use collector_security_analy.Active.Selection.{
  resolve_selection, of_profile, fit_all, profile_risks, ids_of, require_scope,
}
use collector_security_analy.Active.Order.{
  topological_order, visit_all, visit, sort_by, insert_by, key_le,
}
use collector_security_analy.Active.Outcome.{err, dependency_cycle}
use collector_security_analy.Active.Execution.{
  passed, timed_out, Rollback, Result, parsed, expired, Worker, Host, execute, result_of,
  read_result, rollback_in_recovery, failure_result,
}
use collector_security_analy.Active.Execution.Contained.{AreTracked}
use collector_security_analy.Active.Correlation.{
  confirmed_pass, pass_not_validated, correlate, correlation,
}
use collector_security_analy.Active.Run.{
  authorization_loaded, policy_loaded, plan_created, validator_started, validator_timed_out,
  validator_completed, run_completed, Setting, Run, run_all, correlate_all, correlate_rules,
  build_summary, count_of, execute_active_validation,
}
use collector_security_analy.Active.Run.Complete.{
  IsComplete, execute_active_validation-IsComplete, execute_active_validation-AreTracked,
}
use collector_security_analy.Active.Planner.{Request, plan, plan_all, total_timeout}
use collector_security_analy.Active.Planner.Ordered.{IsPlanned, plan-IsPlanned}
use collector_security_analy.Active.Planner.Ends.{plan-ends}

abbrev read_only : String → List String → Definition
read_only id depends = record {
  validator_id = id;
  version = "1.0";
  supported_rule_ids = "WIN-001" ∷ [];
  supported_platforms = "windows" ∷ [];
  required_privileges = "STANDARD_USER" ∷ [];
  risk_level = safe_read_only;
  network_impact = "NONE";
  requires_rollback = false;
  default_timeout_seconds = 15;
  maximum_timeout_seconds = 30;
  depends_on_validator_ids = depends;
  optional_dependency_ids = [];
  execution_order = 100;
}

abbrev entry : String → List String → Entry
entry id depends = record {
  validator_id = id;
  version = "1.0";
  status = active;
  supported_rule_ids = "WIN-001" ∷ [];
  described = read_only id depends;
}

-- VAL-SMB depends on VAL-UAC.
abbrev registry : List Entry
registry = entry "VAL-SMB" ("VAL-UAC" ∷ []) ∷ entry "VAL-UAC" [] ∷ []

registry_loads : load_registry registry ≡ ok registry
unfolding load_registry register definition get
registry_loads = refl

abbrev flags : Fields → Fields
flags fs = field "enabled" (boolean true) (
    field "allowTemporarySystemChanges" (boolean false) (
      field "allowNetworkListeners" (boolean false) (
        field "allowOutboundNetworkTests" (boolean false) (
          field "allowLoopbackNetworkTests" (boolean true) (
            field "requireExplicitAuthorization" (boolean true) (
              field "redactSensitivePaths" (boolean true) (
                field "retainRawEventData" (boolean false) (
                  field "allowDeepResponderValidation" (boolean false) (
                    field "allowNameResolutionResponses" (boolean false) (
                      field "allowAuthenticationChallenges" (boolean false) (
                        field "allowTemporaryNetworkListeners" (boolean false) (
                          field "allowTemporaryFirewallChanges" (boolean false) (
                            field "allowSyntheticCredentialFlow" (boolean false) (
                              field "allowRealCredentialObservation" (boolean false) (
                                field "allowCredentialMaterialRetention" (boolean false) (
                                  field "allowCredentialRelay" (boolean false) (
                                    field "allowHashCracking" (boolean false) (
                                      field "allowExternalTargets" (boolean false)
                                        fs))))))))))))))))))

abbrev document : Fields
document = field "schemaVersion" (text "1.0") (
    field "allowedRiskLevels" (array (cons (text "SAFE_READ_ONLY") nil)) (
      field "allowedTargetCidrs" (array nil) (
        field "maximumValidatorsPerRun" (number 10) (
          field "maximumTotalDurationSeconds" (number 300)
            (field "defaultValidatorTimeoutSeconds" (number 20) (flags end))))))

abbrev policy : Policy
policy = record {
  enabled = true;
  allowed_risk_levels = safe_read_only ∷ [];
  allow_temporary_system_changes = false;
  allow_network_listeners = false;
  allow_outbound_network_tests = false;
  allow_loopback_network_tests = true;
  allowed_target_cidrs = [];
  maximum_validators_per_run = 10;
  maximum_total_duration_seconds = 300;
  default_validator_timeout_seconds = 20;
  require_explicit_authorization = true;
  redact_sensitive_paths = true;
  retain_raw_event_data = false;
  allow_deep_responder_validation = false;
  allow_name_resolution_responses = false;
  allow_authentication_challenges = false;
  allow_temporary_network_listeners = false;
  allow_temporary_firewall_changes = false;
  allow_synthetic_credential_flow = false;
  allow_real_credential_observation = false;
  allow_credential_material_retention = false;
  allow_credential_relay = false;
  allow_hash_cracking = false;
  allow_external_targets = false;
}

abbrev any_network : Json → Bool
any_network j = true

policy_loads : parse_policy any_network document ≡ ok policy
unfolding parse_policy policy_of has_policy_keys has_booleans grants_prohibited read_risks risks_of
    risk_of read_bounded items keys at
policy_loads = refl

parse_policy-IsSafe_example : IsSafe policy
parse_policy-IsSafe_example = parse_policy-IsSafe any_network document policy policy_loads

validate_deep_responder_policy-loaded_example :
    (validate_deep_responder_policy policy).0 ≡ (policy.enabled && has_deep_permits policy)
validate_deep_responder_policy-loaded_example =
    validate_deep_responder_policy-loaded any_network document policy policy_loads

abbrev authorization : Authorization
authorization = record {
  assessment_id = "A-1";
  device_identifiers = "PC-1" ∷ [];
  validator_ids = "VAL-SMB" ∷ "VAL-UAC" ∷ [];
}

abbrev request : Request
request = record {
  run_id = "r1";
  requested_validator_ids = "VAL-SMB" ∷ [];
  device_identifier = "PC-1";
  assessment_id = none;
  profile = some "safe-read-only";
  platform = some "windows";
  observed_privileges = "STANDARD_USER" ∷ [];
  available_rule_ids = some ("WIN-001" ∷ []);
}

abbrev fold : String → String
fold t = t

abbrev planned_run : String → ℕ → Plan
planned_run id sequence = record {
  run_id = "r1";
  validator_id = id;
  validator_version = "1.0";
  timeout_seconds = 15;
  risk_level = safe_read_only;
  requires_rollback = false;
  sequence = sequence;
  profile = some "safe-read-only";
}

abbrev plans : List Plan
plans = planned_run "VAL-UAC" 1 ∷ planned_run "VAL-SMB" 2 ∷ []

-- The dependency comes first, though it was not requested.
plan_returns : plan fold registry policy authorization request ≡ ok plans
unfolding plan resolve_selection of_profile fit_all profile_risks sorted ids_of resolve_dependencies
    expand_all admit_all require_scope topological_order visit_all visit sort_by insert_by key_le
    plan_all total_timeout validate_validator_safety get insert_sorted
plan_returns = refl

plan-IsPlanned_example : IsPlanned fold registry policy authorization request plans
plan-IsPlanned_example =
    plan-IsPlanned fold registry policy authorization request plans plan_returns

-- VAL-SMB and VAL-UAC depend on each other.
abbrev cycle : List Entry
cycle = entry "VAL-SMB" ("VAL-UAC" ∷ []) ∷ entry "VAL-UAC" ("VAL-SMB" ∷ []) ∷ []

cycle_refused : plan fold cycle policy authorization request ≡ err dependency_cycle
unfolding plan resolve_selection of_profile fit_all profile_risks sorted ids_of resolve_dependencies
    expand_all admit_all require_scope topological_order visit_all visit sort_by insert_by key_le
    plan_all total_timeout validate_validator_safety get insert_sorted
cycle_refused = refl

plan-ends_example : ends (plan fold cycle policy authorization request) ≡ true
plan-ends_example = plan-ends fold cycle policy authorization request

resolved : resolve_dependencies registry none ("VAL-SMB" ∷ []) ≡ ok ("VAL-SMB" ∷ "VAL-UAC" ∷ [])
unfolding resolve_dependencies expand_all admit_all sorted get insert_sorted
resolved = refl

resolve_dependencies-Needed_example :
    (contains "VAL-UAC" ("VAL-SMB" ∷ "VAL-UAC" ∷ []) ≡ true)
    ↔ Needed registry (initial ("VAL-SMB" ∷ [])) "VAL-UAC"
resolve_dependencies-Needed_example =
    resolve_dependencies-Needed registry none ("VAL-SMB" ∷ []) ("VAL-SMB" ∷ "VAL-UAC" ∷ []) resolved
      "VAL-UAC"

abbrev no_cleanup : Rollback
no_cleanup = record {
  required = false;
  completed = true;
  manual_cleanup_required = false;
  error_code = none;
}

abbrev passing : Plan → Result
passing p = record {
  run_id = p.run_id;
  validator_id = p.validator_id;
  validator_version = p.validator_version;
  status = passed;
  cleanup = no_cleanup;
  error_code = none;
}

-- VAL-SMB does not end in time.
abbrev work : Plan → Worker
work p = record {
  directory = p.validator_id;
  is_tracked = true;
  is_blocked = false;
  is_timed_out = str_eq p.validator_id "VAL-SMB";
  stdout_size = 100;
  stderr_size = 0;
  is_failed = false;
  output = parsed (passing p);
  recovery = expired;
  is_removed = true;
  is_forgotten = true;
}

abbrev late : Result
late = record {
  run_id = "r1";
  validator_id = "VAL-SMB";
  validator_version = "1.0";
  status = timed_out;
  cleanup = no_cleanup;
  error_code = some "VALIDATOR_TIMEOUT";
}

abbrev setting : Setting
setting = record {
  fold = fold;
  upper = fold;
  digest = λ ps. "digest";
  required_plan_digest = some "digest";
  passive_results = ("WIN-001", "PASS") ∷ [];
  work = work;
}

abbrev host : Host
host = record { directories = "old" ∷ []; tracked = "old" ∷ [] }

abbrev run : Run
run = record {
  planned_validator_ids = "VAL-UAC" ∷ "VAL-SMB" ∷ [];
  results = passing (planned_run "VAL-UAC" 1) ∷ late ∷ [];
  correlations =
      record {
        rule_id = "WIN-001";
        validator_id = "VAL-UAC";
        active_status = passed;
        correlated_status = confirmed_pass;
      }
      ∷ record {
        rule_id = "WIN-001";
        validator_id = "VAL-SMB";
        active_status = timed_out;
        correlated_status = pass_not_validated;
      }
      ∷ [];
  summary = record {
    planned = 2;
    executed = 2;
    passed = 1;
    failed = 0;
    inconclusive = 0;
    skipped = 0;
    errors = 0;
    timeouts = 1;
    rollback_failures = 0;
  };
  events =
      authorization_loaded
      ∷ policy_loaded
      ∷ plan_created ("VAL-UAC" ∷ "VAL-SMB" ∷ [])
      ∷ validator_started "VAL-UAC"
      ∷ validator_completed "VAL-UAC" passed
      ∷ validator_started "VAL-SMB"
      ∷ validator_timed_out "VAL-SMB"
      ∷ validator_completed "VAL-SMB" timed_out
      ∷ run_completed 2 false
      ∷ [];
}

run_returns :
    execute_active_validation registry policy authorization request setting host ≡ (ok run, host)
unfolding execute_active_validation run_all execute result_of read_result rollback_in_recovery
    failure_result correlate_all correlate_rules correlate correlation lookup build_summary count_of
    plan resolve_selection of_profile fit_all profile_risks sorted ids_of resolve_dependencies
    expand_all admit_all require_scope topological_order visit_all visit sort_by insert_by key_le
    plan_all total_timeout validate_validator_safety get insert_sorted
run_returns = refl

execute_active_validation-IsComplete_example :
    IsComplete registry policy authorization request setting run
execute_active_validation-IsComplete_example =
    execute_active_validation-IsComplete registry policy authorization request setting host host run
      run_returns

always_tracked : (p : Plan) → (setting.work p).is_tracked ≡ true
always_tracked p = ground arith

execute_active_validation-AreTracked_example :
    AreTracked (execute_active_validation registry policy authorization request setting host).1
execute_active_validation-AreTracked_example =
    execute_active_validation-AreTracked registry policy authorization request setting host
      always_tracked (λ d m. m)
