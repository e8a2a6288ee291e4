-- ===== src/Active/Run.antt =====
-- active_validation/engine.py: `execute_active_validation` over planned validators and their workers, its audit
-- events and its summary.
pub mod Complete
use collector_security_analy.Common.{
  ℕ, suc, ◌+◌, String, Bool, true, false, not, ◌&&◌, ◌||◌, Option, none, some, List, [], ◌∷◌, ◌++◌,
  str_eq, any, length, if◌then◌else◌,
}
use collector_security_analy.Active.Outcome.{
  Outcome, ok, err, execution_blocked, plan_digest_mismatch,
}
use collector_security_analy.Active.Model.{Entry, get, Policy, Authorization, Plan}
use collector_security_analy.Active.Planner.{Request, plan}
use collector_security_analy.Active.Planner.Permitted.{plan_ids}
use collector_security_analy.Common.Dict.{Dict, lookup}
use collector_security_analy.Active.Correlation.{Correlation, is_passed, is_failed, correlate}
use collector_security_analy.Active.Execution.{
  Status, not_requested, planned, skipped, not_applicable, not_supported, access_denied,
  blocked_by_safety_policy, blocked_by_authorization, error, timed_out, rollback_failed, Rollback,
  Result, Worker, Host, execute,
}

-- The audit events, with the details that tell them apart
pub data Event : Type 0 where
  authorization_loaded policy_loaded : Event
  plan_created : List String → Event
  validator_started validator_timed_out : String → Event
  validator_completed : String → Status → Event
  cleanup_started cleanup_completed cleanup_failed : String → Event
  run_completed : ℕ → Bool → Event

abbrev is_timeout : Status → Bool
is_timeout s = elim s [ timed_out ↦ true | _ ↦ false ]

-- What is written after a validator ran
abbrev pub after : Result → List Event
after r =
    (if is_timeout r.status then validator_timed_out r.validator_id ∷ [] else [])
    ++ validator_completed r.validator_id r.status
      ∷ (if r.cleanup.required
          then cleanup_started r.validator_id
            ∷ (if r.cleanup.completed
                then cleanup_completed r.validator_id
                else cleanup_failed r.validator_id)
            ∷ []
          else [])

-- The log, the results and the host after the loop; `is_raised` where an execution raised.
pub record Progress : Type 0 where
  pub events : List Event
  pub results : List Result
  pub host : Host
  pub is_raised : Bool

-- What one execution adds before the rest of the loop; an exception ends the loop.
abbrev pub round : String → Option Result → Host → Progress → Progress
round id none h rest = record {
  events = validator_started id ∷ [];
  results = [];
  host = h;
  is_raised = true;
}
round id (some r) h rest = record {
  events = validator_started id ∷ (after r ++ rest.events);
  results = r ∷ rest.results;
  host = rest.host;
  is_raised = rest.is_raised;
}

-- The loop over the plans, for what each worker does
unfoldable pub run_all : (Plan → Worker) → List Plan → Host → Progress
unfolding execute
run_all work [] h = record { events = []; results = []; host = h; is_raised = false }
run_all work (p ∷ ps) h =
    let next = (execute p (work p) h).1 in
    let rest = run_all work ps next in round p.validator_id (execute p (work p) h).0 next rest

unfoldable pub count_of : (Status → Bool) → List Result → ℕ
count_of p [] = 0
count_of p (r ∷ rs) = let rest = count_of p rs in if p r.status then suc rest else rest

abbrev is_skipped : Status → Bool
is_skipped s = elim s [
  | skipped ↦ true
  | not_applicable ↦ true
  | not_supported ↦ true
  | access_denied ↦ true
  | blocked_by_safety_policy ↦ true
  | blocked_by_authorization ↦ true
  | _ ↦ false
]

-- `ActiveValidationSummary`
pub record Summary : Type 0 where
  pub planned : ℕ
  pub executed : ℕ
  pub passed : ℕ
  pub failed : ℕ
  pub inconclusive : ℕ
  pub skipped : ℕ
  pub errors : ℕ
  pub timeouts : ℕ
  pub rollback_failures : ℕ

-- `_build_summary`
unfoldable pub build_summary : List Plan → List Result → Summary
unfolding count_of
build_summary plans results = record {
  planned = length plans;
  executed = length results;
  passed = count_of is_passed results;
  failed = count_of is_failed results;
  inconclusive = count_of (λ s. elim s [ Status.inconclusive ↦ true | _ ↦ false ]) results;
  skipped = count_of is_skipped results;
  errors = count_of (λ s. elim s [ error ↦ true | _ ↦ false ]) results;
  timeouts = count_of is_timeout results;
  rollback_failures = count_of (λ s. elim s [ rollback_failed ↦ true | _ ↦ false ]) results;
}

-- `CorrelatedRuleResult`
pub record Correlated : Type 0 where
  pub rule_id : String
  pub validator_id : String
  pub active_status : Status
  pub correlated_status : Correlation

unfoldable pub correlate_rules :
    (String → String) → Dict String → Result → List String → List Correlated
unfolding lookup correlate
correlate_rules upper passive r [] = []
correlate_rules upper passive r (id ∷ ids) =
    record {
      rule_id = id;
      validator_id = r.validator_id;
      active_status = r.status;
      correlated_status = correlate upper (lookup id passive) r.status;
    }
    ∷ correlate_rules upper passive r ids

abbrev rules_of : Option Entry → List String
rules_of none = []
rules_of (some e) = e.supported_rule_ids

-- The correlations of the results, under the rules of their validators
unfoldable pub correlate_all :
    (String → String) → List Entry → Dict String → List Result → List Correlated
unfolding correlate_rules get
correlate_all upper registry passive [] = []
correlate_all upper registry passive (r ∷ rs) =
    correlate_rules upper passive r (rules_of (get r.validator_id registry))
    ++ correlate_all upper registry passive rs

-- What a run takes beside the request: `str.casefold` and `str.upper`, the digest of plans, the digest that was
-- confirmed, the statuses of the passive rules, and what the workers do
pub record Setting : Type 0 where
  pub fold : String → String
  pub upper : String → String
  pub digest : List Plan → String
  pub required_plan_digest : Option String
  pub passive_results : Dict String
  pub work : Plan → Worker

-- `ActiveValidationRun`, with the audit events it wrote
pub record Run : Type 0 where
  pub planned_validator_ids : List String
  pub results : List Result
  pub correlations : List Correlated
  pub summary : Summary
  pub events : List Event

abbrev pub run_of : List Entry → Setting → List Plan → Progress → Run
run_of registry t plans p = record {
  planned_validator_ids = plan_ids plans;
  results = p.results;
  correlations = correlate_all t.upper registry t.passive_results p.results;
  summary = build_summary plans p.results;
  events =
      authorization_loaded
      ∷ policy_loaded
      ∷ plan_created (plan_ids plans)
      ∷ (p.events
          ++ run_completed (length p.results)
              (any (λ (r : Result). r.cleanup.manual_cleanup_required) p.results)
            ∷ []);
}

-- `required_plan_digest is not None and required_plan_digest != current_plan_digest`
abbrev pub is_other_plan : Option String → String → Bool
is_other_plan none d = false
is_other_plan (some r) d = not (str_eq r d)

abbrev pub finish : List Entry → Setting → List Plan → Progress → Outcome Run × Host
finish registry t plans p =
    (if p.is_raised then err execution_blocked else ok (run_of registry t plans p), p.host)

abbrev pub run_plans : List Entry → Setting → Outcome (List Plan) → Host → Outcome Run × Host
run_plans registry t (err e) h = (err e, h)
run_plans registry t (ok plans) h =
    if is_other_plan t.required_plan_digest (t.digest plans)
    then (err plan_digest_mismatch, h)
    else finish registry t plans (run_all t.work plans h)

-- `execute_active_validation` without a live transport
unfoldable pub execute_active_validation :
    List Entry → Policy → Authorization → Request → Setting → Host → Outcome Run × Host
unfolding plan run_all build_summary correlate_all
execute_active_validation registry policy a request t h =
    run_plans registry t (plan t.fold registry policy a request) h
