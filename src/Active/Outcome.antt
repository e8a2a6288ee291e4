-- ===== src/Active/Outcome.antt =====
-- The result of the pure calls of active_validation: a value, or the exception that is raised.
use collector_security_analy.Common.{◌≡◌, refl, Bool, true, false, not}

-- `SafetyPolicyError`, `AuthorizationError`, `ValidatorRegistryError` and `PlanningError`, by what is
-- wrong, and the two exceptions of a run. `out_of_fuel` marks a loop of the model that has no rounds left.
pub data Problem : Type 0 where
  policy_keys policy_schema policy_not_boolean policy_unauthorized policy_retention
        policy_prohibited policy_risks policy_duplicate_risks policy_restricted_risk policy_cidrs
        policy_outbound policy_bounds :
      Problem
  scope_assessment scope_device scope_validators : Problem
  definition_mismatch timeout_not_positive timeout_order execution_order duplicate_dependencies
        self_dependency duplicate_entry prohibited_active :
      Problem
  unknown_profile risk_exceeds_profile deep_profile_required duplicate_selection empty_selection
        too_many_validators unknown_validator not_active unsupported_platform missing_privilege
        no_related_rule unsafe too_long unknown_optional unknown_dependency dependency_not_active
        risk_escalation dependency_cycle :
      Problem
  plan_digest_mismatch execution_blocked : Problem
  out_of_fuel : Problem

pub data Outcome {ℓ} (A : Type ℓ) : Type ℓ where
  ok : A → Outcome A
  err : Problem → Outcome A

abbrev pub and_then {ℓ κ} : {A : Type ℓ} {B : Type κ} → (A → Outcome B) → Outcome A → Outcome B
and_then next (err problem) = err problem
and_then next (ok value) = next value

infixl 5 ◌>>=◌ ◌>>◌
abbrev pub ◌>>=◌ {ℓ κ} : {A : Type ℓ} {B : Type κ} → Outcome A → (A → Outcome B) → Outcome B
call >>= next = and_then next call

abbrev pub ◌>>◌ {ℓ} : {B : Type ℓ} → Outcome (Unit {0}) → Outcome B → Outcome B
call >> rest = and_then (λ _. rest) call

-- `if not b: raise e`
abbrev pub require : Bool → Problem → Outcome (Unit {0})
require true e = ok tt
require false e = err e

pub ok-injective {ℓ} : {A : Type ℓ} {a b : A} → ok a ≡ ok b → a ≡ b
ok-injective h = cc h

-- A chain that returned did so from its first call, and from the rest at the value of that.
pub >>=-eq-ok {ℓ κ} :
    {A : Type ℓ} {B : Type κ} (call : Outcome A) (next : A → Outcome B) {out : B}
    → (call >>= next) ≡ ok out
    → (value : A) × (call ≡ ok value) × (next value ≡ ok out)
>>=-eq-ok (err problem) next returned = cc
>>=-eq-ok (ok value) next returned = (value, refl, returned)

pub require-eq-ok {ℓ} :
    {B : Type ℓ} (t : Bool) (e : Problem) (k : Outcome B) {b : B}
    → (require t e >> k) ≡ ok b
    → (t ≡ true) × (k ≡ ok b)
require-eq-ok true e k h = (refl, h)
require-eq-ok false e k h = cc

abbrev pub is_fuel : Problem → Bool
is_fuel e = elim e [ out_of_fuel ↦ true | _ ↦ false ]

-- The model has not run out of fuel.
abbrev pub ends {ℓ} : {A : Type ℓ} → Outcome A → Bool
ends (ok a) = true
ends (err e) = not (is_fuel e)

pub >>=-ends {ℓ κ} :
    {A : Type ℓ} {B : Type κ} (m : Outcome A) (f : A → Outcome B)
    → ends m ≡ true
    → ((a : A) → m ≡ ok a → ends (f a) ≡ true)
    → ends (m >>= f) ≡ true
>>=-ends (ok a) f h k = k a refl
>>=-ends (err e) f h k = h

pub require-ends {ℓ} :
    {B : Type ℓ} (t : Bool) (e : Problem) (k : Outcome B)
    → not (is_fuel e) ≡ true
    → (t ≡ true → ends k ≡ true)
    → ends (require t e >> k) ≡ true
require-ends true e k h next = next refl
require-ends false e k h next = h
