-- ===== src/Active/Run/Complete.antt =====
-- A run that completes ran what was planned, in order, and says so in its results, its log and its summary.
use collector_security_analy.Common.{
  ℕ, suc, ◌≡◌, refl, sym, ap, subst, ◌∙◌, String, Bool, true, false, Option, none, some, List, [],
  ◌∷◌, ◌++◌, arith, length, if◌then◌else◌,
}
use mathlib.Core.List.{append-nil}
use collector_security_analy.Active.Outcome.{
  Outcome, ok, err, ok-injective, Problem, plan_digest_mismatch, execution_blocked,
}
use collector_security_analy.Active.Model.{Entry, Policy, Authorization, Plan}
use collector_security_analy.Active.Planner.{Request, plan}
use collector_security_analy.Active.Planner.Permitted.{plan_ids}
use collector_security_analy.Active.Planner.Ordered.{IsPlanned, plan-IsPlanned}
use collector_security_analy.Active.Execution.{Result, Worker, Host, result_of, execute}
use collector_security_analy.Active.Execution.Contained.{
  IsContained, result_of-IsContained, AreTracked, execute-AreTracked,
}
use collector_security_analy.Active.Run.{
  Event, authorization_loaded, policy_loaded, plan_created, validator_started, validator_timed_out,
  validator_completed, cleanup_started, cleanup_completed, cleanup_failed, run_completed, after,
  Progress, round, run_all, Setting, Run, run_of, is_other_plan, finish, run_plans,
  execute_active_validation,
}

-- The result of each plan, by what its worker did
abbrev pub Matches : (Plan → Worker) → List Plan → List Result → Type 0
Matches work [] [] = Unit
Matches work (p ∷ ps) (r ∷ rs) =
    (r ≡ result_of p (work p)) × IsContained p (work p) r × Matches work ps rs
Matches work [] (_ ∷ _) = ⊥
Matches work (_ ∷ _) [] = ⊥

-- The starts and the completions of validators, in the order of the log
pub data Mark : Type 0 where
  start finish_ : String → Mark

abbrev pub marks : List Event → List Mark
marks [] = []
marks (validator_started id ∷ es) = start id ∷ marks es
marks (validator_completed id s ∷ es) = finish_ id ∷ marks es
marks (_ ∷ es) = marks es

-- Every validator completes before the next one starts.
abbrev pub alternate : List String → List Mark
alternate [] = []
alternate (id ∷ ids) = start id ∷ finish_ id ∷ alternate ids

marks-append : (es fs : List Event) → marks (es ++ fs) ≡ marks es ++ marks fs
marks-append [] fs = refl
marks-append (validator_started id ∷ es) fs = ap (λ l. start id ∷ l) (marks-append es fs)
marks-append (validator_completed id s ∷ es) fs = ap (λ l. finish_ id ∷ l) (marks-append es fs)
marks-append (authorization_loaded ∷ es) fs = marks-append es fs
marks-append (policy_loaded ∷ es) fs = marks-append es fs
marks-append (plan_created ids ∷ es) fs = marks-append es fs
marks-append (validator_timed_out id ∷ es) fs = marks-append es fs
marks-append (cleanup_started id ∷ es) fs = marks-append es fs
marks-append (cleanup_completed id ∷ es) fs = marks-append es fs
marks-append (cleanup_failed id ∷ es) fs = marks-append es fs
marks-append (run_completed n b ∷ es) fs = marks-append es fs

marks-after : (r : Result) → marks (after r) ≡ finish_ r.validator_id ∷ []
marks-after r = ground arith

-- What the loop comes to where no execution raises
record IsRun (work : Plan → Worker) (plans : List Plan) (p : Progress) : Type 0 where
  matched : Matches work plans p.results
  ordered : marks p.events ≡ alternate (plan_ids plans)

execute-eq-some :
    (p : Plan) (w : Worker) (h : Host) (r : Result) → (execute p w h).0 ≡ some r → r ≡ result_of p w
unfolding execute
execute-eq-some p w h r e = ground (arith, e)

module _ (work : Plan → Worker) where
  round-IsRun :
      (p : Plan) (ps : List Plan) (o : Option Result) (h next : Host) (rest : Progress)
      → (execute p (work p) h).0 ≡ o
      → (round p.validator_id o next rest).is_raised ≡ false
      → (rest.is_raised ≡ false → IsRun work ps rest)
      → IsRun work (p ∷ ps) (round p.validator_id o next rest)
  round-IsRun p ps none h next rest e n f = absurd (ground (arith, n))
  round-IsRun p ps (some r) h next rest e n f =
      let same = execute-eq-some p (work p) h r e in
      let contained =
        subst (IsContained p (work p)) (sym same) (result_of-IsContained p (work p)) in
      let tail = f n in
      record {
        matched = (same, contained, tail.matched);
        ordered =
            ap (λ l. start p.validator_id ∷ l)
              (marks-append (after r) rest.events
                ∙ ap (λ l. l ++ marks rest.events) (marks-after r))
            ∙ ground (arith, contained.validator, tail.ordered);
      }

  run_all-IsRun :
      (plans : List Plan) (h : Host)
      → (run_all work plans h).is_raised ≡ false
      → IsRun work plans (run_all work plans h)
  unfolding run_all
  run_all-IsRun [] h n = record { matched = tt; ordered = refl }
  run_all-IsRun (p ∷ ps) h n =
      let next = (execute p (work p) h).1 in
      round-IsRun p ps (execute p (work p) h).0 h next (run_all work ps next) refl n
        (run_all-IsRun ps next)

  run_all-AreTracked :
      (plans : List Plan) (h : Host)
      → ((p : Plan) → (work p).is_tracked ≡ true)
      → AreTracked h
      → AreTracked (run_all work plans h).host
  unfolding run_all
  run_all-AreTracked [] h l t = t
  run_all-AreTracked (p ∷ ps) h l t =
      let next = (execute p (work p) h).1 in
      let kept = execute-AreTracked p (work p) h (l p) t in
      go (execute p (work p) h).0 next (run_all work ps next) kept
        (run_all-AreTracked ps next l kept)
    where
      go :
          (o : Option Result) (next : Host) (rest : Progress)
          → AreTracked next
          → AreTracked rest.host
          → AreTracked (round p.validator_id o next rest).host
      go none next rest a b = a
      go (some r) next rest a b = b

length-Matches :
    (work : Plan → Worker) (plans : List Plan) (rs : List Result)
    → Matches work plans rs
    → length rs ≡ length plans
length-Matches work [] [] m = refl
length-Matches work (p ∷ ps) (r ∷ rs) m = ap suc (length-Matches work ps rs m.2)
length-Matches work [] (_ ∷ _) m = absurd m
length-Matches work (_ ∷ _) [] m = absurd m

-- A run that completes: its plans are permitted and ordered, and are those that were confirmed; each has the
-- result of its worker; the starts and the completions alternate in the log; and the summary counts all.
pub record IsComplete (registry : List Entry) (policy : Policy) (a : Authorization)
    (request : Request) (t : Setting) (run : Run) : Type 0 where
  pub plans : List Plan
  pub is_planned : IsPlanned t.fold registry policy a request plans
  pub confirmed : is_other_plan t.required_plan_digest (t.digest plans) ≡ false
  pub ids : run.planned_validator_ids ≡ plan_ids plans
  pub matched : Matches t.work plans run.results
  pub trail : marks run.events ≡ alternate (plan_ids plans)
  pub executed : run.summary.executed ≡ run.summary.planned

marks-run :
    (es : List Event) (ids : List String) (n : ℕ) (b : Bool)
    → marks
        (authorization_loaded ∷ policy_loaded ∷ plan_created ids ∷ (es ++ run_completed n b ∷ []))
      ≡ marks es
marks-run es ids n b = marks-append es (run_completed n b ∷ []) ∙ append-nil (marks es)

if-eq-ok :
    {A : Type 0} (b : Bool) (e : Problem) (x y : A)
    → (if b then err e else ok x) ≡ ok y
    → (b ≡ false) × (x ≡ y)
if-eq-ok true e x y h = cc
if-eq-ok false e x y h = (refl, ok-injective h)

-- A run that returns is one whose plans were made and confirmed.
run_plans-eq-ok :
    (registry : List Entry) (t : Setting) (o : Outcome (List Plan)) (h u : Host) (run : Run)
    → run_plans registry t o h ≡ (ok run, u)
    → (plans : List Plan) × (o ≡ ok plans)
      × (is_other_plan t.required_plan_digest (t.digest plans) ≡ false)
      × (finish registry t plans (run_all t.work plans h) ≡ (ok run, u))
run_plans-eq-ok registry t (err e) h u run x = absurd (ground (arith, x))
run_plans-eq-ok registry t (ok plans) h u run x =
    go (is_other_plan t.required_plan_digest (t.digest plans)) refl x
  where
    go :
        (b : Bool)
        → is_other_plan t.required_plan_digest (t.digest plans) ≡ b
        → (if b
            then (err plan_digest_mismatch, h)
            else finish registry t plans (run_all t.work plans h))
          ≡ (ok run, u)
        → (qs : List Plan) × (◌≡◌ {A = Outcome (List Plan)} (ok plans) (ok qs))
          × (is_other_plan t.required_plan_digest (t.digest qs) ≡ false)
          × (finish registry t qs (run_all t.work qs h) ≡ (ok run, u))
    go true e y = absurd (ground (arith, y))
    go false e y = (plans, refl, e, y)

-- A run that completes: its plans are those that were made, permitted and ordered, and confirmed where a digest
-- was required; each plan has the result of its worker; the log has the start and the completion of
-- each validator once, in the order of the plans, and no validator starts before the one before completed; and the summary counts as many runs as plans.
pub execute_active_validation-IsComplete :
    (registry : List Entry) (policy : Policy) (a : Authorization) (request : Request) (t : Setting)
    (h u : Host) (run : Run)
    → execute_active_validation registry policy a request t h ≡ (ok run, u)
    → IsComplete registry policy a request t run
unfolding execute_active_validation
execute_active_validation-IsComplete registry policy a request t h u run x =
    let (plans, made, confirmed, done) =
      run_plans-eq-ok registry t (plan t.fold registry policy a request) h u run x in
    let p = run_all t.work plans h in
    let (calm, same) =
      if-eq-ok p.is_raised execution_blocked (run_of registry t plans p) run
        (ap (λ (r : Outcome Run × Host). r.0) done) in
    let inv = run_all-IsRun t.work plans h calm in
    subst (IsComplete registry policy a request t) same (record {
      plans = plans;
      is_planned = plan-IsPlanned t.fold registry policy a request plans made;
      confirmed = confirmed;
      ids = refl;
      matched = inv.matched;
      trail = marks-run p.events (plan_ids plans) _ _ ∙ inv.ordered;
      executed = length-Matches t.work plans p.results inv.matched;
    })

-- Where tracking a directory that was just made returns, as it does with a recovery state that can be read and
-- written: whatever the run comes to, also where it raises, every temporary directory that is left is tracked.
pub execute_active_validation-AreTracked :
    (registry : List Entry) (policy : Policy) (a : Authorization) (request : Request) (t : Setting)
    (h : Host)
    → ((p : Plan) → (t.work p).is_tracked ≡ true)
    → AreTracked h
    → AreTracked (execute_active_validation registry policy a request t h).1
unfolding execute_active_validation
execute_active_validation-AreTracked registry policy a request t h l k =
    outer (plan t.fold registry policy a request)
  where
    outer : (o : Outcome (List Plan)) → AreTracked (run_plans registry t o h).1
    outer (err e) = k
    outer (ok plans) = ground (arith, run_all-AreTracked t.work plans h l k)
