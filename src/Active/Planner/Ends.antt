-- ===== src/Active/Planner/Ends.antt =====
-- Planning ends: no loop of the model lacks rounds.
use collector_security_analy.Common.{
  ℕ, suc, ◌≡◌, refl, String, true, not, Option, none, some, List, [], ◌∷◌, arith, leb, length,
}
use collector_security_analy.Active.Outcome.{
  Outcome, ok, ends, ◌>>=◌, ◌>>◌, require, >>=-ends, require-ends, empty_selection,
  too_many_validators, too_long,
}
use collector_security_analy.Active.Model.{RiskLevel, Entry, get, Policy, Authorization, Plan}
use collector_security_analy.Active.Selection.{
  profile_risks, stated, fits, fit_all, of_profile, select_risks, select, resolve_selection,
  require_scope, is_nil,
}
use collector_security_analy.Active.Dependencies.{resolve_dependencies}
use collector_security_analy.Active.Dependencies.Ends.{resolve_dependencies-ends}
use collector_security_analy.Active.Order.{topological_order}
use collector_security_analy.Active.Order.Ends.{topological_order-ends}
use collector_security_analy.Active.Planner.{
  Request, plan_entry, plan_all, total_timeout, plan, risks_of_profile,
}

fits_ends :
    (profile : String) (risks : List RiskLevel) (id : String) (o : Option Entry)
    → ends (fits profile risks id o) ≡ true
fits_ends profile risks id none = refl
fits_ends profile risks id (some e) = ground arith

fit_all-ends :
    (registry : List Entry) (profile : String) (risks : List RiskLevel) (ids : List String)
    → ends (fit_all registry profile risks ids) ≡ true
unfolding fit_all
fit_all-ends registry profile risks [] = refl
fit_all-ends registry profile risks (id ∷ ids) =
    >>=-ends (fits profile risks id (get id registry)) _
      (fits_ends profile risks id (get id registry))
      (λ _ _. fit_all-ends registry profile risks ids)

select-ends :
    (registry : List Entry) (profile : Option String) (requested : List String)
    → ends (select registry profile requested) ≡ true
select-ends registry none requested = ground arith
select-ends registry (some p) requested = go (profile_risks p)
  where
    go : (o : Option (List RiskLevel)) → ends (select_risks registry p o requested) ≡ true
    go none = refl
    go (some risks) =
        >>=-ends (fit_all registry p risks (of_profile registry p risks requested)) _
          (fit_all-ends registry p risks _) (λ _ _. refl)

resolve_selection-ends :
    (registry : List Entry) (profile : Option String) (requested : List String)
    → ends (resolve_selection registry profile requested) ≡ true
unfolding resolve_selection
resolve_selection-ends registry profile requested =
    >>=-ends (select registry (stated profile) requested) _
      (select-ends registry (stated profile) requested) (λ s _. ground arith)

require_scope-ends :
    (a : Authorization) (device : String) (ids : List String) (assessment : Option String)
    → ends (require_scope a device ids assessment) ≡ true
unfolding require_scope
require_scope-ends a device ids assessment = ground arith

module _ (fold : String → String) (registry : List Entry) (policy : Policy)
    (request : Request) where
  plan_entry-ends :
      (explicit : List String) (n : ℕ) (id : String) (o : Option Entry)
      → ends (plan_entry fold registry policy request explicit n id o) ≡ true
  plan_entry-ends explicit n id none = refl
  plan_entry-ends explicit n id (some e) = ground arith

  plan_all-ends :
      (explicit : List String) (n : ℕ) (ids : List String)
      → ends (plan_all fold registry policy request explicit n ids) ≡ true
  unfolding plan_all
  plan_all-ends explicit n [] = refl
  plan_all-ends explicit n (id ∷ ids) =
      >>=-ends (plan_entry fold registry policy request explicit n id (get id registry)) _
        (plan_entry-ends explicit n id (get id registry))
        (λ p _.
          >>=-ends (plan_all fold registry policy request explicit (suc n) ids) _
            (plan_all-ends explicit (suc n) ids) (λ _ _. refl))

last_ends :
    (policy : Policy) (plans : List Plan)
    → ends (
        require (leb (total_timeout plans) policy.maximum_total_duration_seconds) too_long
        >> ok plans)
      ≡ true
last_ends policy plans = ground arith

-- Planning ends for every registry and request, also where dependencies run in a cycle: the rounds of the two
-- loops are enough.
pub plan-ends :
    (fold : String → String) (registry : List Entry) (policy : Policy) (a : Authorization)
    (request : Request)
    → ends (plan fold registry policy a request) ≡ true
unfolding plan
plan-ends fold registry policy a request =
    let risks = risks_of_profile (stated request.profile) in
    >>=-ends (resolve_selection registry request.profile request.requested_validator_ids)
      (λ selected. require (not (is_nil selected)) empty_selection >> after_selection selected)
      (resolve_selection-ends registry request.profile request.requested_validator_ids)
      (λ selected _.
        require-ends (not (is_nil selected)) empty_selection (after_selection selected) refl (λ _.
          >>=-ends (resolve_dependencies registry risks selected) (after_dependencies selected)
            (resolve_dependencies-ends registry risks selected)
            (λ resolved _.
              require-ends (leb (length resolved) policy.maximum_validators_per_run)
                too_many_validators (after_count selected resolved) refl
                (λ _.
                  >>=-ends
                    (require_scope a request.device_identifier resolved request.assessment_id)
                    (λ _. after_scope selected resolved)
                    (require_scope-ends a request.device_identifier resolved request.assessment_id)
                    (λ _ _.
                      >>=-ends (topological_order registry resolved) (after_order selected)
                        (topological_order-ends registry resolved)
                        (λ ordered _.
                          >>=-ends (plan_all fold registry policy request selected 1 ordered)
                            (λ plans.
                              require
                                (leb (total_timeout plans) policy.maximum_total_duration_seconds)
                                too_long
                              >> ok plans)
                            (plan_all-ends fold registry policy request selected 1 ordered)
                            (λ plans _. last_ends policy plans)))))))
  where
    after_order : List String → List String → Outcome (List Plan)
    after_order selected ordered =
        plan_all fold registry policy request selected 1 ordered >>= λ plans.
        require (leb (total_timeout plans) policy.maximum_total_duration_seconds) too_long
        >> ok plans

    after_scope : List String → List String → Outcome (List Plan)
    after_scope selected resolved = topological_order registry resolved >>= after_order selected

    after_count : List String → List String → Outcome (List Plan)
    after_count selected resolved =
        require_scope a request.device_identifier resolved request.assessment_id >>= λ _.
        after_scope selected resolved

    after_dependencies : List String → List String → Outcome (List Plan)
    after_dependencies selected resolved =
        require (leb (length resolved) policy.maximum_validators_per_run) too_many_validators
        >> after_count selected resolved

    after_selection : List String → Outcome (List Plan)
    after_selection selected =
        resolve_dependencies registry (risks_of_profile (stated request.profile)) selected
        >>= after_dependencies selected
