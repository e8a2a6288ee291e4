-- ===== src/Active/Execution.antt =====
-- active_validation/executor.py: `ValidationExecutor.execute`, from what the worker process did; and the
-- recovery state of active_validation/cleanup.py, as the directories that it tracks.
pub mod Contained
use collector_security_analy.Common.{
  ℕ, String, Bool, true, false, not, ◌&&◌, ◌||◌, Option, none, some, List, [], ◌∷◌, ◌++◌, leb, ltb,
  str_eq, keep, if◌then◌else◌,
}
use collector_security_analy.Active.Model.{Plan}

-- `ActiveValidationStatus`
pub data Status : Type 0 where
  not_requested planned skipped not_applicable not_supported access_denied blocked_by_safety_policy
        blocked_by_authorization passed failed inconclusive error timed_out rollback_failed :
      Status

-- `RollbackResult`
pub record Rollback : Type 0 where
  pub required : Bool
  pub completed : Bool
  pub manual_cleanup_required : Bool
  pub error_code : Option String

-- `ActiveValidationResult`
pub record Result : Type 0 where
  pub run_id : String
  pub validator_id : String
  pub validator_version : String
  pub status : Status
  pub cleanup : Rollback
  pub error_code : Option String

-- What the worker wrote: text that `validate_output_text` blocks, text that `_result_from_dict` refuses,
-- or a result
pub data Output : Type 0 where
  sensitive unreadable : Output
  parsed : Result → Output

-- The end of the worker that rolls back: by its timeout, with a cleanup, or without one that can be read,
-- with whether its exit code was not zero
pub data Recovery : Type 0 where
  expired : Recovery
  answered : Rollback → Recovery
  broken : Bool → Recovery

-- What the operating system does in one execution: the name of the fresh directory, whether tracking it
-- returns (the recovery state can be read and written), whether the worker's input is blocked, the end of the
-- worker, the worker that rolls back, whether the directory is gone after its removal, and whether
-- forgetting it then returns
pub record Worker : Type 0 where
  pub directory : String
  pub is_tracked : Bool
  pub is_blocked : Bool
  pub is_timed_out : Bool
  pub stdout_size : ℕ
  pub stderr_size : ℕ
  pub is_failed : Bool
  pub output : Output
  pub recovery : Recovery
  pub is_removed : Bool
  pub is_forgotten : Bool

-- The temporary directories that exist, and those that the cleanup registry tracks
pub record Host : Type 0 where
  pub directories : List String
  pub tracked : List String

abbrev no_rollback : Rollback
no_rollback = record {
  required = false;
  completed = true;
  manual_cleanup_required = false;
  error_code = none;
}

abbrev rollback_error : String → Rollback
rollback_error code = record {
  required = true;
  completed = false;
  manual_cleanup_required = true;
  error_code = some code;
}

abbrev pub recovered : Recovery → Rollback
recovered expired = rollback_error "ROLLBACK_TIMEOUT"
recovered (answered r) = r
recovered (broken b) =
    rollback_error (if b then "ROLLBACK_WORKER_ERROR" else "INVALID_ROLLBACK_OUTPUT")

-- `_rollback_in_recovery`
unfoldable pub rollback_in_recovery : Plan → Recovery → Rollback
rollback_in_recovery plan r = if not plan.requires_rollback then no_rollback else recovered r

-- `_failure_result`, under the run and the validator of the context
unfoldable pub failure_result : Plan → Status → Rollback → String → Result
failure_result plan s cleanup code = record {
  run_id = plan.run_id;
  validator_id = plan.validator_id;
  validator_version = plan.validator_version;
  status = if cleanup.required && not cleanup.completed then rollback_failed else s;
  cleanup = cleanup;
  error_code = some code;
}

abbrev is_of_plan : Plan → Result → Bool
is_of_plan plan r =
    (str_eq r.run_id plan.run_id && str_eq r.validator_id plan.validator_id)
    && str_eq r.validator_version plan.validator_version

-- The result read from the output, or that of the exceptions caught
unfoldable pub read_result : Plan → Rollback → Output → Result
unfolding failure_result
read_result plan cleanup sensitive =
    failure_result plan error cleanup "SENSITIVE_WORKER_OUTPUT_BLOCKED"
read_result plan cleanup unreadable = failure_result plan error cleanup "INVALID_WORKER_OUTPUT"
read_result plan cleanup (parsed r) =
    if is_of_plan plan r then r else failure_result plan error cleanup "INVALID_WORKER_OUTPUT"

abbrev pub max_stdout_bytes : ℕ
max_stdout_bytes = 262144

abbrev pub max_stderr_bytes : ℕ
max_stderr_bytes = 65536

unfoldable pub result_of : Plan → Worker → Result
unfolding read_result rollback_in_recovery failure_result
result_of plan w =
    let cleanup = rollback_in_recovery plan w.recovery in
    if w.is_timed_out
    then failure_result plan timed_out cleanup "VALIDATOR_TIMEOUT"
    else if ltb max_stdout_bytes w.stdout_size || ltb max_stderr_bytes w.stderr_size
    then failure_result plan error cleanup "OUTPUT_LIMIT_EXCEEDED"
    else if w.is_failed
    then failure_result plan error cleanup "WORKER_EXIT_ERROR"
    else read_result plan cleanup w.output

-- `CleanupRegistry.forget`, and the removal of a directory
abbrev pub drop : String → List String → List String
drop d = keep (λ x. not (str_eq x d))

-- `mkdtemp`
abbrev pub make : Worker → Host → Host
make w h = record h { directories = h.directories ++ w.directory ∷ [] }

-- `CleanupRegistry.track`, where it returns
abbrev pub track : Worker → Host → Host
track w h = record h { tracked = h.tracked ++ w.directory ∷ [] }

-- The directory after `shutil.rmtree`, and `CleanupRegistry.forget` where it is gone; `none` is an exception
-- of `forget`.
abbrev pub remove : Result → Worker → Host → Option Result × Host
remove r w h =
    if not w.is_removed
    then (some r, h)
    else if not w.is_forgotten
    then (none, record h { directories = drop w.directory h.directories })
    else (
      some r,
      record { directories = drop w.directory h.directories; tracked = drop w.directory h.tracked },
    )

-- `execute`: `none` is an exception, of `track`, of `validate_evidence` on the worker's input, or of `forget`.
unfoldable pub execute : Plan → Worker → Host → Option Result × Host
unfolding result_of
execute plan w h =
    let made = make w h in
    let started = track w made in
    let r = result_of plan w in
    if not w.is_tracked
    then (none, made)
    else if w.is_blocked
    then (none, started)
    else if r.cleanup.manual_cleanup_required
    then (some r, started)
    else remove r w started
