-- ===== src/Active/Policy.antt =====
-- active_validation/policy.py: `_parse_policy`, `validate_validator_safety`, `validate_deep_responder_policy`.
pub mod Loaded
pub mod Deep
use Prim.Native.String.{◌++◌ as text_append}
use collector_security_analy.Common.{
  ℕ, String, Bool, true, false, not, ◌&&◌, ◌||◌, Option, none, some, List, [], ◌∷◌, ◌++◌, leb,
  str_eq, any, all, contains, keep, map, if◌then◌else◌, is_empty,
}
use collector_security_analy.Active.Json.{
  Json, null, other, boolean, number, text, array, object, Items, Fields, items, keys, at,
  is_boolean, is_true, is_text,
}
use collector_security_analy.Active.Outcome.{
  Outcome, ok, err, ◌>>=◌, ◌>>◌, require, policy_keys, policy_schema, policy_not_boolean,
  policy_unauthorized, policy_retention, policy_prohibited, policy_risks, policy_duplicate_risks,
  policy_restricted_risk, policy_cidrs, policy_outbound, policy_bounds,
}
use collector_security_analy.Active.Model.{
  RiskLevel, safe_read_only, low_impact, controlled_temporary_change, restricted, prohibited,
  same_risk, has_risk, Definition, Policy,
}

-- The keys of `DEFAULT_POLICY`: the Boolean ones, and all
abbrev pub boolean_keys : List String
boolean_keys =
    "enabled" ∷ "allowTemporarySystemChanges" ∷ "allowNetworkListeners"
    ∷ "allowOutboundNetworkTests" ∷ "allowLoopbackNetworkTests" ∷ "requireExplicitAuthorization"
    ∷ "redactSensitivePaths" ∷ "retainRawEventData" ∷ "allowDeepResponderValidation"
    ∷ "allowNameResolutionResponses" ∷ "allowAuthenticationChallenges"
    ∷ "allowTemporaryNetworkListeners" ∷ "allowTemporaryFirewallChanges"
    ∷ "allowSyntheticCredentialFlow" ∷ "allowRealCredentialObservation"
    ∷ "allowCredentialMaterialRetention" ∷ "allowCredentialRelay" ∷ "allowHashCracking"
    ∷ "allowExternalTargets" ∷ []

abbrev pub policy_key_set : List String
policy_key_set =
    "schemaVersion" ∷ "allowedRiskLevels" ∷ "allowedTargetCidrs" ∷ "maximumValidatorsPerRun"
    ∷ "maximumTotalDurationSeconds" ∷ "defaultValidatorTimeoutSeconds" ∷ boolean_keys

abbrev pub prohibited_keys : List String
prohibited_keys =
    "allowRealCredentialObservation" ∷ "allowCredentialMaterialRetention" ∷ "allowCredentialRelay"
    ∷ "allowHashCracking" ∷ "allowExternalTargets" ∷ []

-- `RiskLevel(value)` of a text
unfoldable pub risk_of : String → Outcome RiskLevel
risk_of t =
    if str_eq t "SAFE_READ_ONLY"
    then ok safe_read_only
    else if str_eq t "LOW_IMPACT"
    then ok low_impact
    else if str_eq t "CONTROLLED_TEMPORARY_CHANGE"
    then ok controlled_temporary_change
    else if str_eq t "RESTRICTED"
    then ok restricted
    else if str_eq t "PROHIBITED"
    then ok prohibited
    else err policy_risks

abbrev pub risk_value : Json → Outcome RiskLevel
risk_value (text t) = risk_of t
risk_value _ = err policy_risks

unfoldable pub risks_of : List Json → Outcome (List RiskLevel)
unfolding risk_of
risks_of [] = ok []
risks_of (j ∷ js) = do r ← risk_value j; rs ← risks_of js; ok (r ∷ rs)

-- The values that Python iterates over: the items of an array and the keys of an object. The characters of a
-- text are no risk levels, so only the empty text has none that fails.
unfoldable pub read_risks : Json → Outcome (List RiskLevel)
unfolding risks_of items keys
read_risks (array js) = risks_of (items js)
read_risks (object fs) = risks_of (map text (keys fs))
read_risks (text t) = if str_eq t "" then ok [] else err policy_risks
read_risks _ = err policy_risks

-- `len(risks) == len(set(risks))`
abbrev pub are_distinct_risks : List RiskLevel → Bool
are_distinct_risks [] = true
are_distinct_risks (r ∷ rs) = not (has_risk r rs) && are_distinct_risks rs

abbrev pub read_cidrs : Json → Outcome (List Json)
read_cidrs j = elim j [ array js ↦ ok (items js) | _ ↦ err policy_cidrs ]

-- An integer, no Boolean, within the bounds; the lower bound is 1.
unfoldable pub read_bounded : ℕ → Json → Outcome ℕ
read_bounded limit j = elim j [
  | number n ↦ if leb 1 n && leb n limit then ok n else err policy_bounds
  | _ ↦ err policy_bounds
]

-- No key is missing or unknown.
unfoldable pub has_policy_keys : Fields → Bool
unfolding keys
has_policy_keys d =
    all (λ k. contains k (keys d)) policy_key_set && all (λ k. contains k policy_key_set) (keys d)

unfoldable pub has_booleans : Fields → Bool
unfolding at
has_booleans d = all (λ k. is_boolean (at k d)) boolean_keys

-- Some prohibited permit is granted.
unfoldable pub grants_prohibited : Fields → Bool
unfolding at
grants_prohibited d = any (λ k. is_true (at k d)) prohibited_keys

-- The policy that is returned
unfoldable pub policy_of : Fields → List RiskLevel → List Json → ℕ → ℕ → ℕ → Policy
unfolding at
policy_of d risks cidrs count duration timeout = record {
  allowed_risk_levels = risks;
  allowed_target_cidrs = cidrs;
  maximum_validators_per_run = count;
  maximum_total_duration_seconds = duration;
  default_validator_timeout_seconds = timeout;
  enabled = is_true (at "enabled" d);
  allow_temporary_system_changes = is_true (at "allowTemporarySystemChanges" d);
  allow_network_listeners = is_true (at "allowNetworkListeners" d);
  allow_outbound_network_tests = is_true (at "allowOutboundNetworkTests" d);
  allow_loopback_network_tests = is_true (at "allowLoopbackNetworkTests" d);
  require_explicit_authorization = is_true (at "requireExplicitAuthorization" d);
  redact_sensitive_paths = is_true (at "redactSensitivePaths" d);
  retain_raw_event_data = is_true (at "retainRawEventData" d);
  allow_deep_responder_validation = is_true (at "allowDeepResponderValidation" d);
  allow_name_resolution_responses = is_true (at "allowNameResolutionResponses" d);
  allow_authentication_challenges = is_true (at "allowAuthenticationChallenges" d);
  allow_temporary_network_listeners = is_true (at "allowTemporaryNetworkListeners" d);
  allow_temporary_firewall_changes = is_true (at "allowTemporaryFirewallChanges" d);
  allow_synthetic_credential_flow = is_true (at "allowSyntheticCredentialFlow" d);
  allow_real_credential_observation = is_true (at "allowRealCredentialObservation" d);
  allow_credential_material_retention = is_true (at "allowCredentialMaterialRetention" d);
  allow_credential_relay = is_true (at "allowCredentialRelay" d);
  allow_hash_cracking = is_true (at "allowHashCracking" d);
  allow_external_targets = is_true (at "allowExternalTargets" d);
}

-- `_parse_policy`, for the test that a value is a network of the module ipaddress
unfoldable pub parse_policy : (Json → Bool) → Fields → Outcome Policy
unfolding has_policy_keys has_booleans grants_prohibited policy_of read_risks read_bounded items at
parse_policy is_network d = do
  require (has_policy_keys d) policy_keys
  require (is_text "1.0" (at "schemaVersion" d)) policy_schema
  require (has_booleans d) policy_not_boolean
  require (is_true (at "requireExplicitAuthorization" d)) policy_unauthorized
  require (not (is_true (at "retainRawEventData" d))) policy_retention
  require (not (grants_prohibited d)) policy_prohibited
  risks ← read_risks (at "allowedRiskLevels" d)
  require (are_distinct_risks risks) policy_duplicate_risks
  require (not (has_risk restricted risks || has_risk prohibited risks)) policy_restricted_risk
  cidrs ← read_cidrs (at "allowedTargetCidrs" d)
  require (all is_network cidrs) policy_cidrs
  require (not (is_true (at "allowOutboundNetworkTests" d) && is_empty cidrs)) policy_outbound
  count ← read_bounded 100 (at "maximumValidatorsPerRun" d)
  duration ← read_bounded 3600 (at "maximumTotalDurationSeconds" d)
  timeout ← read_bounded 300 (at "defaultValidatorTimeoutSeconds" d)
  ok (policy_of d risks cidrs count duration timeout)

-- The name of a risk level
abbrev risk_text : RiskLevel → String
risk_text r = elim r [
  | safe_read_only ↦ "SAFE_READ_ONLY"
  | low_impact ↦ "LOW_IMPACT"
  | controlled_temporary_change ↦ "CONTROLLED_TEMPORARY_CHANGE"
  | restricted ↦ "RESTRICTED"
  | prohibited ↦ "PROHIBITED"
]

-- `validate_validator_safety`
unfoldable pub validate_validator_safety : Definition → Policy → Bool × String
validate_validator_safety d p =
    if not p.enabled
    then (false, "Active validation policy is disabled")
    else if same_risk d.risk_level restricted || same_risk d.risk_level prohibited
    then (false, text_append "Risk level " (text_append (risk_text d.risk_level) " cannot run"))
    else if not (has_risk d.risk_level p.allowed_risk_levels)
    then (false, "Validator risk level is not allowed")
    else if same_risk d.risk_level controlled_temporary_change
        && not p.allow_temporary_system_changes
    then (false, "Temporary system changes are not allowed")
    else if (str_eq d.network_impact "LOOPBACK_LISTENER"
          || str_eq d.network_impact "SCOPED_LISTENER")
        && not p.allow_network_listeners
    then (false, "Network listener is not allowed")
    else if str_eq d.network_impact "LOOPBACK_LISTENER" && not p.allow_loopback_network_tests
    then (false, "Loopback listener is not allowed")
    else if str_eq d.network_impact "OUTBOUND" && not p.allow_outbound_network_tests
    then (false, "Outbound network tests are not allowed")
    else (true, "")

-- `values` of `validate_deep_responder_policy` beside what `DEEP_POLICY_REQUIREMENTS` expects
abbrev pub deep_values : Policy → List (String × Bool × Bool)
deep_values p =
    ("allowDeepResponderValidation", p.allow_deep_responder_validation, true)
    ∷ ("allowNameResolutionResponses", p.allow_name_resolution_responses, true)
    ∷ ("allowAuthenticationChallenges", p.allow_authentication_challenges, true)
    ∷ ("allowTemporaryNetworkListeners", p.allow_temporary_network_listeners, true)
    ∷ ("allowTemporaryFirewallChanges", p.allow_temporary_firewall_changes, true)
    ∷ ("allowSyntheticCredentialFlow", p.allow_synthetic_credential_flow, true)
    ∷ ("allowRealCredentialObservation", p.allow_real_credential_observation, false)
    ∷ ("allowCredentialMaterialRetention", p.allow_credential_material_retention, false)
    ∷ ("allowCredentialRelay", p.allow_credential_relay, false)
    ∷ ("allowHashCracking", p.allow_hash_cracking, false)
    ∷ ("allowExternalTargets", p.allow_external_targets, false)
    ∷ []

abbrev pub agree : Bool → Bool → Bool
agree true b = b
agree false b = not b

unfoldable pub missing_keys : List (String × Bool × Bool) → List String
missing_keys [] = []
missing_keys ((k, v, expected) ∷ vs) =
    let rest = missing_keys vs in if agree v expected then rest else k ∷ rest

-- `", ".join(texts)`
unfoldable pub join_texts : List String → String
join_texts [] = ""
join_texts (t ∷ []) = t
join_texts (t ∷ u ∷ ts) = text_append t (text_append ", " (join_texts (u ∷ ts)))

abbrev deep_gate : List String → Bool × String
deep_gate [] = (true, "")
deep_gate (k ∷ ks) =
    (false, text_append "Deep responder policy gate failed: " (join_texts (k ∷ ks)))

-- `validate_deep_responder_policy`
unfoldable pub validate_deep_responder_policy : Policy → Bool × String
unfolding missing_keys join_texts
validate_deep_responder_policy p =
    let missing = missing_keys (deep_values p) in
    deep_gate (if p.enabled then missing else "enabled" ∷ missing)
