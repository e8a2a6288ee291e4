-- ===== src/Active/Policy/Loaded.antt =====
-- A policy that is loaded is a safe one.
use collector_security_analy.Common.{
  ℕ, ◌≡◌, refl, sym, subst, ◌≤◌, Bool, true, false, not, ◌&&◌, ◌||◌, List, arith, all, is_empty,
}
use collector_security_analy.Active.Json.{Json, Fields, at, is_true, is_text}
use collector_security_analy.Active.Outcome.{
  ok, require-eq-ok, >>=-eq-ok, ok-injective, policy_keys, policy_schema, policy_not_boolean,
  policy_unauthorized, policy_retention, policy_prohibited, policy_duplicate_risks,
  policy_restricted_risk, policy_cidrs, policy_outbound,
}
use collector_security_analy.Active.Model.{RiskLevel, restricted, prohibited, has_risk, Policy}
use collector_security_analy.Active.Policy.{
  has_policy_keys, has_booleans, grants_prohibited, read_risks, are_distinct_risks, read_cidrs,
  read_bounded, policy_of, parse_policy,
}

-- What every policy grants and withholds
pub record IsSafe (p : Policy) : Type 0 where
  pub authorization : p.require_explicit_authorization ≡ true
  pub no_retention : p.retain_raw_event_data ≡ false
  pub no_observation : p.allow_real_credential_observation ≡ false
  pub no_material : p.allow_credential_material_retention ≡ false
  pub no_relay : p.allow_credential_relay ≡ false
  pub no_cracking : p.allow_hash_cracking ≡ false
  pub no_external : p.allow_external_targets ≡ false
  pub no_restricted : has_risk restricted p.allowed_risk_levels ≡ false
  pub no_prohibited : has_risk prohibited p.allowed_risk_levels ≡ false
  pub distinct : are_distinct_risks p.allowed_risk_levels ≡ true
  pub scoped : p.allow_outbound_network_tests ≡ true → is_empty p.allowed_target_cidrs ≡ false
  pub count : (1 ≤ p.maximum_validators_per_run) × (p.maximum_validators_per_run ≤ 100)
  pub duration : (1 ≤ p.maximum_total_duration_seconds) × (p.maximum_total_duration_seconds ≤ 3600)
  pub timeout :
      (1 ≤ p.default_validator_timeout_seconds) × (p.default_validator_timeout_seconds ≤ 300)

read_bounded-eq-ok :
    (limit : ℕ) (j : Json) (n : ℕ) → read_bounded limit j ≡ ok n → (1 ≤ n) × (n ≤ limit)
unfolding read_bounded
read_bounded-eq-ok limit j n h = ground (arith, h)

not-true : (b : Bool) → not b ≡ true → b ≡ false
not-true true h = sym h
not-true false h = refl

scope-cidrs : (o e : Bool) → o ≡ true → (o && e) ≡ false → e ≡ false
scope-cidrs true e h k = k
scope-cidrs false e h k = absurd (ground (arith, h))

-- The five operations
prohibited-absent :
    (d : Fields)
    → grants_prohibited d ≡ false
    → (is_true (at "allowRealCredentialObservation" d) ≡ false)
      × (is_true (at "allowCredentialMaterialRetention" d) ≡ false)
      × (is_true (at "allowCredentialRelay" d) ≡ false)
      × (is_true (at "allowHashCracking" d) ≡ false)
      × (is_true (at "allowExternalTargets" d) ≡ false)
unfolding grants_prohibited
prohibited-absent d h =
    five (is_true (at "allowRealCredentialObservation" d))
      (is_true (at "allowCredentialMaterialRetention" d)) (is_true (at "allowCredentialRelay" d))
      (is_true (at "allowHashCracking" d)) (is_true (at "allowExternalTargets" d)) h
  where
    five :
        (a b c e f : Bool)
        → (a || (b || (c || (e || (f || false))))) ≡ false
        → (a ≡ false) × (b ≡ false) × (c ≡ false) × (e ≡ false) × (f ≡ false)
    five a b c e f k = ground (arith, k)

IsSafe-policy_of :
    (d : Fields) (risks : List RiskLevel) (cidrs : List Json) (count duration timeout : ℕ)
    → is_true (at "requireExplicitAuthorization" d) ≡ true
    → is_true (at "retainRawEventData" d) ≡ false
    → grants_prohibited d ≡ false
    → are_distinct_risks risks ≡ true
    → (has_risk restricted risks || has_risk prohibited risks) ≡ false
    → (is_true (at "allowOutboundNetworkTests" d) ≡ true → is_empty cidrs ≡ false)
    → (1 ≤ count) × (count ≤ 100)
    → (1 ≤ duration) × (duration ≤ 3600)
    → (1 ≤ timeout) × (timeout ≤ 300)
    → IsSafe (policy_of d risks cidrs count duration timeout)
unfolding policy_of
IsSafe-policy_of d risks cidrs count duration timeout granted kept barred once tame scope c f i =
    let absent = prohibited-absent d barred in
    let both = or-false (has_risk restricted risks) (has_risk prohibited risks) tame in
    record {
      authorization = granted;
      no_retention = kept;
      no_observation = absent.0;
      no_material = absent.1;
      no_relay = absent.2;
      no_cracking = absent.3;
      no_external = absent.4;
      no_restricted = both.0;
      no_prohibited = both.1;
      distinct = once;
      scoped = scope;
      count = c;
      duration = f;
      timeout = i;
    }
  where
    or-false : (a b : Bool) → (a || b) ≡ false → (a ≡ false) × (b ≡ false)
    or-false a b h = ground (arith, h)

-- A policy that loads requires explicit authorization, retains no raw events, permits none of the five
-- prohibited operations and no restricted or prohibited risk, names each risk once, names a target network
-- where outbound tests are allowed, and has its three limits within their bounds.
pub parse_policy-IsSafe :
    (is_network : Json → Bool) (d : Fields) (p : Policy)
    → parse_policy is_network d ≡ ok p
    → IsSafe p
unfolding parse_policy
parse_policy-IsSafe is_network d p h =
    let keyed = require-eq-ok (has_policy_keys d) policy_keys _ h in
    let schema = require-eq-ok (is_text "1.0" (at "schemaVersion" d)) policy_schema _ keyed.1 in
    let typed = require-eq-ok (has_booleans d) policy_not_boolean _ schema.1 in
    let granted =
      require-eq-ok (is_true (at "requireExplicitAuthorization" d)) policy_unauthorized _ typed.1 in
    let kept =
      require-eq-ok (not (is_true (at "retainRawEventData" d))) policy_retention _ granted.1 in
    let barred = require-eq-ok (not (grants_prohibited d)) policy_prohibited _ kept.1 in
    let (risks, _, a) = >>=-eq-ok (read_risks (at "allowedRiskLevels" d)) _ barred.1 in
    let once = require-eq-ok (are_distinct_risks risks) policy_duplicate_risks _ a in
    let tame =
      require-eq-ok (not (has_risk restricted risks || has_risk prohibited risks))
        policy_restricted_risk _ once.1 in
    let (cidrs, _, b) = >>=-eq-ok (read_cidrs (at "allowedTargetCidrs" d)) _ tame.1 in
    let networks = require-eq-ok (all is_network cidrs) policy_cidrs _ b in
    let outbound =
      require-eq-ok (not (is_true (at "allowOutboundNetworkTests" d) && is_empty cidrs))
        policy_outbound _ networks.1 in
    let (count, c, e) =
      >>=-eq-ok (read_bounded 100 (at "maximumValidatorsPerRun" d)) _ outbound.1 in
    let (duration, f, g) = >>=-eq-ok (read_bounded 3600 (at "maximumTotalDurationSeconds" d)) _ e in
    let (timeout, i, last) =
      >>=-eq-ok (read_bounded 300 (at "defaultValidatorTimeoutSeconds" d)) _ g in
    subst IsSafe (ok-injective last) (
      IsSafe-policy_of d risks cidrs count duration timeout granted.0 (not-true _ kept.0)
        (not-true _ barred.0) once.0 (not-true _ tame.0)
        (λ o. scope-cidrs _ _ o (not-true _ outbound.0))
        (read_bounded-eq-ok 100 (at "maximumValidatorsPerRun" d) count c)
        (read_bounded-eq-ok 3600 (at "maximumTotalDurationSeconds" d) duration f)
        (read_bounded-eq-ok 300 (at "defaultValidatorTimeoutSeconds" d) timeout i))
