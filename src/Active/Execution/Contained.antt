-- ===== src/Active/Execution/Contained.antt =====
-- A worker's failure is contained, and what it may leave behind is tracked.
use collector_security_analy.Common.{
  ◌≤◌, ◌≡◌, refl, String, Bool, true, false, not, ◌&&◌, ◌||◌, Option, none, some, List, [], ◌∷◌,
  arith, eq_iff, ltb, str_eq, contains, any-append, if◌then◌else◌,
}
use collector_security_analy.Active.Model.{Plan}
use collector_security_analy.Active.Execution.{
  Status, error, timed_out, rollback_failed, Rollback, Result, Output, sensitive, unreadable,
  parsed, Worker, Host, rollback_in_recovery, failure_result, is_of_plan, read_result,
  max_stdout_bytes, max_stderr_bytes, result_of, drop, make, track, remove, execute,
}

-- The statuses that the executor itself gives
abbrev pub is_contained_failure : Status → Bool
is_contained_failure s = elim s [
  | error ↦ true
  | timed_out ↦ true
  | rollback_failed ↦ true
  | _ ↦ false
]

-- A result of a plan: under the plan's run, validator and version; and it is the executor's, with a failure and
-- its code, or the worker's, which ended in time, within the limits and well.
pub record IsContained (plan : Plan) (w : Worker) (r : Result) : Type 0 where
  pub run : r.run_id ≡ plan.run_id
  pub validator : r.validator_id ≡ plan.validator_id
  pub version : r.validator_version ≡ plan.validator_version
  pub own :
      is_contained_failure r.status ≡ false
      → (w.is_timed_out ≡ false)
        × (w.stdout_size ≤ max_stdout_bytes)
        × (w.stderr_size ≤ max_stderr_bytes)
        × (w.is_failed ≡ false)
        × (w.output ≡ parsed r)

failure_result-status :
    (plan : Plan) (s : Status) (c : Rollback) (code : String)
    → is_contained_failure s ≡ true
    → is_contained_failure (failure_result plan s c code).status ≡ true
unfolding failure_result
failure_result-status plan s c code h = ground (arith, h)

failure_result-IsContained :
    (plan : Plan) (w : Worker) (s : Status) (c : Rollback) (code : String)
    → is_contained_failure s ≡ true
    → IsContained plan w (failure_result plan s c code)
unfolding failure_result
failure_result-IsContained plan w s c code h = record {
  run = refl;
  validator = refl;
  version = refl;
  own = λ n. absurd (ground (arith, n, failure_result-status plan s c code h));
}

read_result-IsContained :
    (plan : Plan) (w : Worker) (c : Rollback) (o : Output)
    → w.output ≡ o
    → w.is_timed_out ≡ false
    → w.stdout_size ≤ max_stdout_bytes
    → w.stderr_size ≤ max_stderr_bytes
    → w.is_failed ≡ false
    → IsContained plan w (read_result plan c o)
unfolding read_result
read_result-IsContained plan w c sensitive e a b d f =
    failure_result-IsContained plan w error c _ refl
read_result-IsContained plan w c unreadable e a b d f =
    failure_result-IsContained plan w error c _ refl
read_result-IsContained plan w c (parsed r) e a b d f = go (is_of_plan plan r) refl
  where
    go :
        (t : Bool)
        → is_of_plan plan r ≡ t
        → IsContained plan w (if t then r else failure_result plan error c "INVALID_WORKER_OUTPUT")
    go false m = failure_result-IsContained plan w error c "INVALID_WORKER_OUTPUT" refl
    go true m = record {
      run = (eq_iff r.run_id plan.run_id).0 (ground (arith, m));
      validator = (eq_iff r.validator_id plan.validator_id).0 (ground (arith, m));
      version = (eq_iff r.validator_version plan.validator_version).0 (ground (arith, m));
      own = λ _. (a, b, d, f, e);
    }

pub result_of-IsContained : (plan : Plan) (w : Worker) → IsContained plan w (result_of plan w)
unfolding result_of
result_of-IsContained plan w = outer w.is_timed_out refl
  where
    c : Rollback
    c = rollback_in_recovery plan w.recovery

    last :
        (b : Bool)
        → w.is_timed_out ≡ false
        → (ltb max_stdout_bytes w.stdout_size || ltb max_stderr_bytes w.stderr_size) ≡ false
        → w.is_failed ≡ b
        → IsContained plan w (
            if b
            then failure_result plan error c "WORKER_EXIT_ERROR"
            else read_result plan c w.output)
    last true t s f = failure_result-IsContained plan w error c "WORKER_EXIT_ERROR" refl
    last false t s f =
        read_result-IsContained plan w c w.output refl t (ground (arith, s)) (ground (arith, s)) f

    middle :
        (b : Bool)
        → w.is_timed_out ≡ false
        → (ltb max_stdout_bytes w.stdout_size || ltb max_stderr_bytes w.stderr_size) ≡ b
        → IsContained plan w (
            if b
            then failure_result plan error c "OUTPUT_LIMIT_EXCEEDED"
            else if w.is_failed
            then failure_result plan error c "WORKER_EXIT_ERROR"
            else read_result plan c w.output)
    middle true t s = failure_result-IsContained plan w error c "OUTPUT_LIMIT_EXCEEDED" refl
    middle false t s = last w.is_failed t s refl

    outer :
        (b : Bool)
        → w.is_timed_out ≡ b
        → IsContained plan w (
            if b
            then failure_result plan timed_out c "VALIDATOR_TIMEOUT"
            else if ltb max_stdout_bytes w.stdout_size || ltb max_stderr_bytes w.stderr_size
            then failure_result plan error c "OUTPUT_LIMIT_EXCEEDED"
            else if w.is_failed
            then failure_result plan error c "WORKER_EXIT_ERROR"
            else read_result plan c w.output)
    outer true t = failure_result-IsContained plan w timed_out c "VALIDATOR_TIMEOUT" refl
    outer false t =
        middle (ltb max_stdout_bytes w.stdout_size || ltb max_stderr_bytes w.stderr_size) t refl

-- Every temporary directory that exists is tracked for recovery.
abbrev pub AreTracked : Host → Type 0
AreTracked h = (d : String) → contains d h.directories ≡ true → contains d h.tracked ≡ true

contains-drop :
    (x d : String) (ds : List String) → contains x (drop d ds) ≡ (not (str_eq x d) && contains x ds)
contains-drop x d [] = ground arith
contains-drop x d (y ∷ ds) =
    ground (arith, eq_iff x y, eq_iff y d, eq_iff x d, contains-drop x d ds)

start-AreTracked : (w : Worker) (h : Host) → AreTracked h → AreTracked (track w (make w h))
start-AreTracked w h t d m = ground (
  arith,
  m,
  t d,
  any-append (str_eq d) h.directories (w.directory ∷ []),
  any-append (str_eq d) h.tracked (w.directory ∷ []),
)

abbrev pick : Bool → Bool → Result → Worker → Host → Option Result × Host
pick b c r w h =
    if not b
    then (some r, h)
    else if not c
    then (none, record h { directories = drop w.directory h.directories })
    else (
      some r,
      record { directories = drop w.directory h.directories; tracked = drop w.directory h.tracked },
    )

remove-AreTracked :
    (r : Result) (w : Worker) (h : Host) → AreTracked h → AreTracked (remove r w h).1
remove-AreTracked r w h t = go w.is_removed w.is_forgotten
  where
    go : (b c : Bool) → AreTracked (pick b c r w h).1
    go false c = t
    go true false = λ d m. ground (arith, m, t d, contains-drop d w.directory h.directories)
    go true true = λ d m. ground (
      arith,
      m,
      t d,
      contains-drop d w.directory h.directories,
      contains-drop d w.directory h.tracked,
    )

-- An execution whose directory could be tracked leaves no temporary directory that is not, on every path:
-- blocked input, a worker that fails or is stopped, a rollback that fails, a directory that cannot be removed
-- or forgotten.
pub execute-AreTracked :
    (plan : Plan) (w : Worker) (h : Host)
    → w.is_tracked ≡ true
    → AreTracked h
    → AreTracked (execute plan w h).1
unfolding execute
execute-AreTracked plan w h k t =
    rw k (go w.is_blocked (result_of plan w).cleanup.manual_cleanup_required)
  where
    started : AreTracked (track w (make w h))
    started = start-AreTracked w h t

    go :
        (b c : Bool)
        → AreTracked
            (if b
              then (none, track w (make w h))
              else if c
              then (some (result_of plan w), track w (make w h))
              else remove (result_of plan w) w (track w (make w h))).1
    go true c = started
    go false true = started
    go false false = remove-AreTracked (result_of plan w) w (track w (make w h)) started
