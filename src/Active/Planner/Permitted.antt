-- ===== src/Active/Planner/Permitted.antt =====
-- What is planned is permitted by the policy and the authorization.
use collector_security_analy.Common.{
  ℕ, suc, ◌≤◌, ◌≡◌, refl, sym, ap, subst, String, Bool, true, false, not, ◌&&◌, ◌||◌, Option, none,
  some, List, [], ◌∷◌, arith, str_eq, all, All, contains, if◌then◌else◌,
}
use collector_security_analy.Active.Outcome.{
  ok, require-eq-ok, >>=-eq-ok, ok-injective, not_active, unsupported_platform, missing_privilege,
  no_related_rule, unsafe,
}
use collector_security_analy.Active.Model.{
  controlled_temporary_change, restricted, prohibited, same_risk, has_risk, is_active, Definition,
  Entry, get, Policy, Plan,
}
use collector_security_analy.Active.Policy.{validate_validator_safety}
use collector_security_analy.Active.Planner.{
  Request, supports, is_unrelated, plan_of, plan_entry, plan_all,
}

-- A policy allows a validator: it is enabled, lists the risk, which is no restricted or prohibited one, and
-- allows the changes and the network use of the validator.
pub record Allows (p : Policy) (d : Definition) : Type 0 where
  pub enabled : p.enabled ≡ true
  pub not_restricted : same_risk d.risk_level restricted ≡ false
  pub not_prohibited : same_risk d.risk_level prohibited ≡ false
  pub listed : has_risk d.risk_level p.allowed_risk_levels ≡ true
  pub changes :
      same_risk d.risk_level controlled_temporary_change ≡ true
      → p.allow_temporary_system_changes ≡ true
  pub loopback :
      str_eq d.network_impact "LOOPBACK_LISTENER" ≡ true
      → (p.allow_network_listeners ≡ true) × (p.allow_loopback_network_tests ≡ true)
  pub scoped : str_eq d.network_impact "SCOPED_LISTENER" ≡ true → p.allow_network_listeners ≡ true
  pub outbound : str_eq d.network_impact "OUTBOUND" ≡ true → p.allow_outbound_network_tests ≡ true

gate-eq-true :
    (b : Bool) (s : String) (rest : Bool × String)
    → (if b then (false, s) else rest).0 ≡ true
    → (b ≡ false) × (rest.0 ≡ true)
gate-eq-true true s rest h = cc
gate-eq-true false s rest h = (refl, h)

pub validate_validator_safety-Allows :
    (d : Definition) (p : Policy) → (validate_validator_safety d p).0 ≡ true → Allows p d
unfolding validate_validator_safety
validate_validator_safety-Allows d p h =
    let on = gate-eq-true (not p.enabled) _ _ h in
    let risk =
      gate-eq-true (same_risk d.risk_level restricted || same_risk d.risk_level prohibited) _ _
        on.1 in
    let listed = gate-eq-true (not (has_risk d.risk_level p.allowed_risk_levels)) _ _ risk.1 in
    let change =
      gate-eq-true
        (same_risk d.risk_level controlled_temporary_change && not p.allow_temporary_system_changes)
        _ _ listed.1 in
    let is_loopback = str_eq d.network_impact "LOOPBACK_LISTENER" in
    let listen =
      gate-eq-true
        ((is_loopback || str_eq d.network_impact "SCOPED_LISTENER")
          && not p.allow_network_listeners)
        _ _ change.1 in
    let loop = gate-eq-true (is_loopback && not p.allow_loopback_network_tests) _ _ listen.1 in
    let out =
      gate-eq-true (str_eq d.network_impact "OUTBOUND" && not p.allow_outbound_network_tests) _ _
        loop.1 in
    record {
      enabled = not-false p.enabled on.0;
      not_restricted =
          (or-false (same_risk d.risk_level restricted) (same_risk d.risk_level prohibited)
            risk.0).0;
      not_prohibited =
          (or-false (same_risk d.risk_level restricted) (same_risk d.risk_level prohibited)
            risk.0).1;
      listed = not-false (has_risk d.risk_level p.allowed_risk_levels) listed.0;
      changes =
          needs (same_risk d.risk_level controlled_temporary_change)
            p.allow_temporary_system_changes change.0;
      loopback = λ e. (
        needs (is_loopback || str_eq d.network_impact "SCOPED_LISTENER") p.allow_network_listeners
            listen.0 (or-left is_loopback _ e),
        needs is_loopback p.allow_loopback_network_tests loop.0 e,
      );
      scoped = λ e.
          needs (is_loopback || str_eq d.network_impact "SCOPED_LISTENER") p.allow_network_listeners
            listen.0 (or-right is_loopback _ e);
      outbound = needs (str_eq d.network_impact "OUTBOUND") p.allow_outbound_network_tests out.0;
    }
  where
    not-false : (b : Bool) → not b ≡ false → b ≡ true
    not-false b h = ground (arith, h)

    or-false : (a b : Bool) → (a || b) ≡ false → (a ≡ false) × (b ≡ false)
    or-false a b h = ground (arith, h)

    or-left : (a b : Bool) → a ≡ true → (a || b) ≡ true
    or-left a b h = ground (arith, h)

    or-right : (a b : Bool) → b ≡ true → (a || b) ≡ true
    or-right a b h = ground (arith, h)

    needs : (a b : Bool) → (a && not b) ≡ false → a ≡ true → b ≡ true
    needs a b h k = ground (arith, h, k)

-- A planned validator: it is registered and active, the policy allows it, its risk and version are the
-- described ones, and its time is within the three limits.
pub record IsPermitted (registry : List Entry) (policy : Policy) (request : Request) (p : Plan)
    : Type 0 where
  pub entry : Entry
  pub registered : get p.validator_id registry ≡ some entry
  pub active_entry : is_active entry.status ≡ true
  pub allowed : Allows policy entry.described
  pub same_level : p.risk_level ≡ entry.described.risk_level
  pub privileges :
      all (λ q. contains q request.observed_privileges) entry.described.required_privileges ≡ true
  pub in_default : p.timeout_seconds ≤ entry.described.default_timeout_seconds
  pub in_maximum : p.timeout_seconds ≤ entry.described.maximum_timeout_seconds
  pub in_policy : p.timeout_seconds ≤ policy.default_validator_timeout_seconds

abbrev pub plan_ids : List Plan → List String
plan_ids [] = []
plan_ids (p ∷ ps) = p.validator_id ∷ plan_ids ps

module _ (fold : String → String) (registry : List Entry) (policy : Policy) (request : Request)
    (explicit : List String) where
  plan_entry-IsPermitted :
      (n : ℕ) (id : String) (o : Option Entry) (p : Plan)
      → get id registry ≡ o
      → plan_entry fold registry policy request explicit n id o ≡ ok p
      → IsPermitted registry policy request p × (p.validator_id ≡ id)
  plan_entry-IsPermitted n id none p g h = absurd (ground (arith, h))
  plan_entry-IsPermitted n id (some e) p g h =
      let d = e.described in
      let act = require-eq-ok (is_active e.status) not_active _ h in
      let plat =
        require-eq-ok (supports fold request.platform d.supported_platforms) unsupported_platform _
          act.1 in
      let priv =
        require-eq-ok (all (λ q. contains q request.observed_privileges) d.required_privileges)
          missing_privilege _ plat.1 in
      let rel =
        require-eq-ok
          (not
            (is_unrelated request.available_rule_ids (contains id explicit) d.supported_rule_ids))
          no_related_rule _ priv.1 in
      let safe = require-eq-ok (validate_validator_safety d policy).0 unsafe _ rel.1 in
      let same : plan_of fold registry policy request explicit n d id ≡ p = ok-injective safe.1 in
      (
        subst (IsPermitted registry policy request) same (record {
          entry = e;
          registered = g;
          active_entry = act.0;
          allowed = validate_validator_safety-Allows d policy safe.0;
          same_level = refl;
          privileges = priv.0;
          in_default = omega arith;
          in_maximum = omega arith;
          in_policy = omega arith;
        }),
        ap (λ (q : Plan). q.validator_id) (sym same),
      )

  pub plan_all-IsPermitted :
      (n : ℕ) (ids : List String) (plans : List Plan)
      → plan_all fold registry policy request explicit n ids ≡ ok plans
      → All (IsPermitted registry policy request) plans × (plan_ids plans ≡ ids)
  unfolding plan_all
  plan_all-IsPermitted n [] plans h =
      subst (λ ps. All (IsPermitted registry policy request) ps × (plan_ids ps ≡ []))
        (ok-injective h) (tt, refl)
  plan_all-IsPermitted n (id ∷ ids) plans h =
      let (p, one, rest) =
        >>=-eq-ok (plan_entry fold registry policy request explicit n id (get id registry)) _ h in
      let (ps, more, last) =
        >>=-eq-ok (plan_all fold registry policy request explicit (suc n) ids) (λ ps. ok (p ∷ ps))
          rest in
      let a = plan_entry-IsPermitted n id (get id registry) p refl one in
      let b = plan_all-IsPermitted (suc n) ids ps more in
      subst (λ qs. All (IsPermitted registry policy request) qs × (plan_ids qs ≡ id ∷ ids))
        (ok-injective last) ((a.0, b.0), cong-cons a.1 b.1)
    where
      cong-cons : {x y : String} {xs ys : List String} → x ≡ y → xs ≡ ys → x ∷ xs ≡ y ∷ ys
      cong-cons e f = cc (e, f)
