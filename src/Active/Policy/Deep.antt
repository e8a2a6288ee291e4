-- ===== src/Active/Policy/Deep.antt =====
-- The gate of the deep validation, and the gate of a validator.
use collector_security_analy.Common.{◌≡◌, Bool, true, not, ◌&&◌, arith}
use collector_security_analy.Active.Json.{Json, Fields}
use collector_security_analy.Active.Outcome.{ok}
use collector_security_analy.Active.Model.{Policy}
use collector_security_analy.Active.Policy.{parse_policy, validate_deep_responder_policy}
use collector_security_analy.Active.Policy.Loaded.{IsSafe, parse_policy-IsSafe}

-- The six permits of the deep validation
abbrev pub has_deep_permits : Policy → Bool
has_deep_permits p =
    (p.allow_deep_responder_validation
      && (p.allow_name_resolution_responses && p.allow_authentication_challenges))
    && (p.allow_temporary_network_listeners
        && (p.allow_temporary_firewall_changes && p.allow_synthetic_credential_flow))

abbrev has_deep_exclusions : Policy → Bool
has_deep_exclusions p =
    ((not p.allow_real_credential_observation && not p.allow_credential_material_retention)
      && (not p.allow_credential_relay && not p.allow_hash_cracking))
    && not p.allow_external_targets

validate_deep_responder_policy-permits :
    (p : Policy)
    → (validate_deep_responder_policy p).0
      ≡ (p.enabled && (has_deep_permits p && has_deep_exclusions p))
unfolding validate_deep_responder_policy
validate_deep_responder_policy-permits p = ground arith

IsSafe-exclusions : (p : Policy) → IsSafe p → has_deep_exclusions p ≡ true
IsSafe-exclusions p s =
    ground (arith, s.no_observation, s.no_material, s.no_relay, s.no_cracking, s.no_external)

-- Of a policy that was loaded, the deep validation passes the gate exactly where the policy is enabled and
-- grants the six permits: what it must withhold no such policy grants.
pub validate_deep_responder_policy-loaded :
    (is_network : Json → Bool) (d : Fields) (p : Policy)
    → parse_policy is_network d ≡ ok p
    → (validate_deep_responder_policy p).0 ≡ (p.enabled && has_deep_permits p)
validate_deep_responder_policy-loaded is_network d p h =
    let excluded = IsSafe-exclusions p (parse_policy-IsSafe is_network d p h) in
    ground (arith, validate_deep_responder_policy-permits p, excluded)
