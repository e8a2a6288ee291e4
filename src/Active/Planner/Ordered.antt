-- ===== src/Active/Planner/Ordered.antt =====
-- The plans of a run: permitted, authorized, within the limits, and in the order of their dependencies.
use collector_security_analy.Common.{
  ℕ, suc, ◌≤◌, ◌<◌, ◌≡◌, ◌↔◌, refl, sym, ap, subst, ◌∙◌, inl, inr, Bool-cases, String, Bool, true,
  false, not, ◌||◌, List, [], ◌∷◌, arith, leb, leb→le, str_eq, eq_iff, all, All, contains, length,
  are_distinct,
}
use collector_security_analy.Active.Outcome.{
  ok, require, require-eq-ok, >>=-eq-ok, ok-injective, empty_selection, too_many_validators,
  too_long, scope_assessment, scope_device, scope_validators,
}
use collector_security_analy.Active.Model.{Entry, Policy, Authorization, Plan}
use collector_security_analy.Active.Selection.{
  stated, resolve_selection, require_scope, is_nil, same_assessment,
}
use collector_security_analy.Active.Dependencies.{resolve_dependencies, initial}
use collector_security_analy.Active.Dependencies.Closed.{
  dependencies, Needed, resolve_dependencies-Needed, resolve_dependencies-closed,
}
use collector_security_analy.Active.Order.{topological_order, without}
use collector_security_analy.Active.Order.Before.{AreBefore, topological_order-AreBefore, all-holds}
use collector_security_analy.Active.Planner.{
  Request, plan_all, total_timeout, risks_of_profile, plan,
}
use collector_security_analy.Active.Planner.Permitted.{IsPermitted, plan_ids, plan_all-IsPermitted}

length-without : (x : String) (ys : List String) → length (without x ys) ≤ length ys
length-without x [] = omega arith
length-without x (y ∷ ys) = ground (arith, length-without x ys)

length-without-lt :
    (x : String) (ys : List String) → contains x ys ≡ true → length (without x ys) < length ys
length-without-lt x [] m = absurd (ground (arith, m))
length-without-lt x (y ∷ ys) m =
    ground (arith, eq_iff x y, eq_iff y x, length-without x ys, length-without-lt x ys)

contains-without :
    (x z : String) (ys : List String)
    → str_eq z x ≡ false
    → contains z ys ≡ true
    → contains z (without x ys) ≡ true
contains-without x z [] n m = m
contains-without x z (y ∷ ys) n m =
    ground (arith, n, m, eq_iff z y, eq_iff y x, eq_iff z x, contains-without x z ys)

-- Distinct texts of a list are at most as many as the list has.
length_of_distinct :
    (xs ys : List String)
    → are_distinct xs ≡ true
    → ((x : String) → contains x xs ≡ true → contains x ys ≡ true)
    → length xs ≤ length ys
length_of_distinct [] ys d f = omega arith
length_of_distinct (x ∷ xs) ys d f =
    let rest =
      length_of_distinct xs (without x ys) (ground (arith, d))
        (λ z m. contains-without x z ys (other z m) (f z (ground (arith, m)))) in
    let less = length-without-lt x ys (f x (ground (arith, eq_iff x x))) in
    omega (arith, rest, less)
  where
    other : (z : String) → contains z xs ≡ true → str_eq z x ≡ false
    other z m = elim (Bool-cases (str_eq z x)) [
      | inl same ↦
          absurd (ground (arith, d, subst (λ y. contains y xs ≡ true) ((eq_iff z x).0 same) m))
      | inr n ↦ n
    ]

-- Each validator stands after all its dependencies.
abbrev pub AllBefore : List Entry → (String → Bool) → List String → Type 0
AllBefore registry seen [] = Unit
AllBefore registry seen (x ∷ xs) =
    ((d : String) → contains d (dependencies registry x) ≡ true → seen d ≡ true)
    × AllBefore registry (λ d. str_eq d x || seen d) xs

AreBefore-AllBefore :
    (registry : List Entry) (selected : List String) (seen : String → Bool) (xs : List String)
    → ((x d : String)
        → contains x xs ≡ true
        → contains d (dependencies registry x) ≡ true
        → contains d selected ≡ true)
    → AreBefore registry selected seen xs
    → AllBefore registry seen xs
AreBefore-AllBefore registry selected seen [] f h = tt
AreBefore-AllBefore registry selected seen (x ∷ xs) f h = (
  λ d m. h.0 d m (f x d (ground (arith, eq_iff x x)) m),
  AreBefore-AllBefore registry selected (λ d. str_eq d x || seen d) xs
      (λ y d n m. f y d (ground (arith, n)) m) h.1,
)

-- What `require_scope` lets pass
pub record IsInScope (a : Authorization) (request : Request) (ids : List String) : Type 0 where
  pub assessed : same_assessment request.assessment_id a.assessment_id ≡ true
  pub device : contains request.device_identifier a.device_identifiers ≡ true
  pub validators : (id : String) → contains id ids ≡ true → contains id a.validator_ids ≡ true

require_scope-IsInScope :
    (a : Authorization) (request : Request) (ids : List String) (u : Unit)
    → require_scope a request.device_identifier ids request.assessment_id ≡ ok u
    → IsInScope a request ids
unfolding require_scope
require_scope-IsInScope a request ids u h =
    let first =
      require-eq-ok (same_assessment request.assessment_id a.assessment_id) scope_assessment _ h in
    let second =
      require-eq-ok (contains request.device_identifier a.device_identifiers) scope_device _
        first.1 in
    record {
      assessed = first.0;
      device = second.0;
      validators = λ id m.
          all-holds (λ x. contains x a.validator_ids) ids id
            (granted (all (λ x. contains x a.validator_ids) ids) second.1) m;
    }
  where
    granted : (t : Bool) → require t scope_validators ≡ ok u → t ≡ true
    granted t e = ground (arith, e)

-- A run that is planned: its selection, what the selection needs, and the order of that
pub record IsPlanned (fold : String → String) (registry : List Entry) (policy : Policy)
    (a : Authorization) (request : Request) (plans : List Plan) : Type 0 where
  pub selected : List String
  pub chosen :
      resolve_selection registry request.profile request.requested_validator_ids ≡ ok selected
  pub some_selected : is_nil selected ≡ false
  pub exactly :
      (x : String) → (contains x (plan_ids plans) ≡ true) ↔ Needed registry (initial selected) x
  pub distinct : are_distinct (plan_ids plans) ≡ true
  pub before : AllBefore registry (λ _. false) (plan_ids plans)
  pub in_scope : IsInScope a request (plan_ids plans)
  pub permitted : All (IsPermitted registry policy request) plans
  pub count : length plans ≤ policy.maximum_validators_per_run
  pub duration : total_timeout plans ≤ policy.maximum_total_duration_seconds

length-plan_ids : (plans : List Plan) → length (plan_ids plans) ≡ length plans
length-plan_ids [] = refl
length-plan_ids (p ∷ ps) = ap suc (length-plan_ids ps)

-- A run that is planned has one plan for exactly those validators that the selection needs, each after
-- those that it depends on. All stand in the scope of the authorization, with the device and the
-- assessment; each is registered, active and allowed by the policy, with a timeout within its three
-- limits; and the policy's limits on the number and on the total duration hold.
pub plan-IsPlanned :
    (fold : String → String) (registry : List Entry) (policy : Policy) (a : Authorization)
    (request : Request) (plans : List Plan)
    → plan fold registry policy a request ≡ ok plans
    → IsPlanned fold registry policy a request plans
unfolding plan
plan-IsPlanned fold registry policy a request plans h =
    let (selected, chosen, h1) =
      >>=-eq-ok (resolve_selection registry request.profile request.requested_validator_ids) _ h in
    let (filled, h2) = require-eq-ok (not (is_nil selected)) empty_selection _ h1 in
    let risks = risks_of_profile (stated request.profile) in
    let (resolved, closed, h3) = >>=-eq-ok (resolve_dependencies registry risks selected) _ h2 in
    let (few, h4) =
      require-eq-ok (leb (length resolved) policy.maximum_validators_per_run) too_many_validators _
        h3 in
    let (u, scoped, h5) =
      >>=-eq-ok (require_scope a request.device_identifier resolved request.assessment_id) _ h4 in
    let (ordered, sorted_, h6) = >>=-eq-ok (topological_order registry resolved) _ h5 in
    let (ps, planned, h7) =
      >>=-eq-ok (plan_all fold registry policy request selected 1 ordered) _ h6 in
    let (short, last) =
      require-eq-ok (leb (total_timeout ps) policy.maximum_total_duration_seconds) too_long _ h7 in
    let order = topological_order-AreBefore registry resolved ordered sorted_ in
    let each = plan_all-IsPermitted fold registry policy request selected 1 ordered ps planned in
    let scope = require_scope-IsInScope a request resolved u scoped in
    let same : (x : String) → contains x (plan_ids ps) ≡ contains x resolved =
      λ x. ap (contains x) each.1 ∙ order.1 x in
    let need = resolve_dependencies-Needed registry risks selected resolved closed in
    let once : are_distinct (plan_ids ps) ≡ true =
      subst (λ ids. are_distinct ids ≡ true) (sym each.1) order.0 in
    subst (IsPlanned fold registry policy a request) (ok-injective last) (record {
      selected = selected;
      chosen = chosen;
      some_selected = flip-not (is_nil selected) filled;
      exactly = λ x. (λ m. (need x).0 (sym (same x) ∙ m), λ n. same x ∙ (need x).1 n);
      distinct = once;
      before = subst (AllBefore registry (λ _. false)) (sym each.1) (
          AreBefore-AllBefore registry resolved (λ _. false) ordered
            (λ x d m n.
              resolve_dependencies-closed registry risks selected resolved closed x d
                (sym (order.1 x) ∙ m) n)
            order.2);
      in_scope = record {
        assessed = scope.assessed;
        device = scope.device;
        validators = λ id m. scope.validators id (sym (same id) ∙ m);
      };
      permitted = each.0;
      count =
          at_most (length-plan_ids ps)
            (length_of_distinct (plan_ids ps) resolved once (λ x m. sym (same x) ∙ m))
            (leb→le _ _ few);
      duration = leb→le _ _ short;
    })
  where
    flip-not : (b : Bool) → not b ≡ true → b ≡ false
    flip-not b e = ground (arith, e)

    at_most : {l m n k : ℕ} → l ≡ m → l ≤ n → n ≤ k → m ≤ k
    at_most e f g = omega (arith, e, f, g)
