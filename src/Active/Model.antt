-- ===== src/Active/Model.antt =====
-- active_validation/enums.py, models.py and registry.py: validators, policies, authorizations and plans,
-- with the fields that the policy and the planner read.
use collector_security_analy.Common.{
  ℕ, String, Bool, true, false, not, ◌&&◌, Option, none, some, List, [], ◌∷◌, ◌++◌, leb, ◌==◌,
  str_eq, any, contains, if◌then◌else◌, are_distinct,
}
use collector_security_analy.Active.Outcome.{
  Outcome, ok, ◌>>=◌, ◌>>◌, require, definition_mismatch, timeout_not_positive, timeout_order,
  execution_order, duplicate_dependencies, self_dependency, prohibited_active, duplicate_entry,
}
use collector_security_analy.Active.Json.{Json}

-- `RiskLevel`
pub data RiskLevel : Type 0 where
  safe_read_only low_impact controlled_temporary_change restricted prohibited : RiskLevel

abbrev rank : RiskLevel → ℕ
rank safe_read_only = 0
rank low_impact = 1
rank controlled_temporary_change = 2
rank restricted = 3
rank prohibited = 4

abbrev pub same_risk : RiskLevel → RiskLevel → Bool
same_risk r s = rank r == rank s

-- `risk in risks`
abbrev pub has_risk : RiskLevel → List RiskLevel → Bool
has_risk r = any (same_risk r)

-- `ValidatorStatus`
pub data ValidatorStatus : Type 0 where
  draft review_required active deprecated disabled : ValidatorStatus

abbrev pub is_active : ValidatorStatus → Bool
is_active s = elim s [ active ↦ true | _ ↦ false ]

-- `ValidatorDefinition`
pub record Definition : Type 0 where
  pub validator_id : String
  pub version : String
  pub supported_rule_ids : List String
  pub supported_platforms : List String
  pub required_privileges : List String
  pub risk_level : RiskLevel
  pub network_impact : String
  pub requires_rollback : Bool
  pub default_timeout_seconds : ℕ
  pub maximum_timeout_seconds : ℕ
  pub depends_on_validator_ids : List String
  pub optional_dependency_ids : List String
  pub execution_order : ℕ

-- `RegistryEntry`, with what its class describes
pub record Entry : Type 0 where
  pub validator_id : String
  pub version : String
  pub status : ValidatorStatus
  pub supported_rule_ids : List String
  pub described : Definition

abbrev same_texts : List String → List String → Bool
same_texts [] [] = true
same_texts (s ∷ ss) (t ∷ ts) = str_eq s t && same_texts ss ts
same_texts [] (_ ∷ _) = false
same_texts (_ ∷ _) [] = false

-- `ValidatorRegistry._validate_definition` and `definition`
unfoldable pub definition : Entry → Outcome Definition
definition e = do
  let d = e.described
  require
      ((str_eq d.validator_id e.validator_id && str_eq d.version e.version)
        && same_texts d.supported_rule_ids e.supported_rule_ids)
      definition_mismatch
  require (leb 1 d.default_timeout_seconds) timeout_not_positive
  require (leb d.default_timeout_seconds d.maximum_timeout_seconds) timeout_order
  require (leb d.execution_order 10000) execution_order
  require (are_distinct (d.depends_on_validator_ids ++ d.optional_dependency_ids))
      duplicate_dependencies
  require (not (contains d.validator_id (d.depends_on_validator_ids ++ d.optional_dependency_ids)))
      self_dependency
  ok d

-- `ValidatorRegistry.get`
unfoldable pub get : String → List Entry → Option Entry
get id [] = none
get id (e ∷ es) = if str_eq e.validator_id id then some e else get id es

abbrev pub is_none {ℓ} : {A : Type ℓ} → Option A → Bool
is_none none = true
is_none (some _) = false

-- The loop of `ValidatorRegistry.__init__` over the parsed entries
unfoldable pub register : List Entry → List Entry → Outcome (List Entry)
unfolding get definition
register done [] = ok done
register done (e ∷ es) = do
  require (is_none (get e.validator_id done)) duplicate_entry
  d ← definition e
  require (not (same_risk d.risk_level prohibited && is_active e.status)) prohibited_active
  register (done ++ e ∷ []) es

unfoldable pub load_registry : List Entry → Outcome (List Entry)
unfolding register
load_registry es = register [] es

-- `SafetyPolicy`, without the digest
pub record Policy : Type 0 where
  pub enabled : Bool
  pub allowed_risk_levels : List RiskLevel
  pub allow_temporary_system_changes : Bool
  pub allow_network_listeners : Bool
  pub allow_outbound_network_tests : Bool
  pub allow_loopback_network_tests : Bool
  pub allowed_target_cidrs : List Json
  pub maximum_validators_per_run : ℕ
  pub maximum_total_duration_seconds : ℕ
  pub default_validator_timeout_seconds : ℕ
  pub require_explicit_authorization : Bool
  pub redact_sensitive_paths : Bool
  pub retain_raw_event_data : Bool
  pub allow_deep_responder_validation : Bool
  pub allow_name_resolution_responses : Bool
  pub allow_authentication_challenges : Bool
  pub allow_temporary_network_listeners : Bool
  pub allow_temporary_firewall_changes : Bool
  pub allow_synthetic_credential_flow : Bool
  pub allow_real_credential_observation : Bool
  pub allow_credential_material_retention : Bool
  pub allow_credential_relay : Bool
  pub allow_hash_cracking : Bool
  pub allow_external_targets : Bool

-- `ValidationAuthorization` and its scope
pub record Authorization : Type 0 where
  pub assessment_id : String
  pub device_identifiers : List String
  pub validator_ids : List String

-- `ValidationPlan`
pub record Plan : Type 0 where
  pub run_id : String
  pub validator_id : String
  pub validator_version : String
  pub timeout_seconds : ℕ
  pub risk_level : RiskLevel
  pub requires_rollback : Bool
  pub sequence : ℕ
  pub profile : Option String
