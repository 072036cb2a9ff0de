-- ===== src/Executor.antt =====
-- `TransientUnitExecutor` (ssamd/src/executor/systemd.rs): a package as a unit of systemd. The unit,
-- seen over D-Bus, is a parameter; each call answers and leaves another state of the system.
pub mod Truthful
pub mod Monitor
pub mod Watcher
use ssam.Prelude.{
  Bool, true, false, Option, none, some, String, Result, ok, err, str_eq, if◌then◌else◌, ensure,
  ok_or, ◌>>=◌, ◌>>◌,
}
use ssam.Lifecycle.Manager.{
  ExecutionStatus, active, inactive, ExecutionResult, success, canceled, failure, timeout,
}

-- The exit code is kept as its text.
pub record FailureInfo : Type 0 where
  pub result : String
  pub exitcode : String

pub data UnitActiveState : Type 0 where
  activating active_unit reloading deactivating inactive_unit : UnitActiveState
  failed : FailureInfo → UnitActiveState

-- `strum::Display`, in kebab case
abbrev pub display : UnitActiveState → String
display activating = "activating"
display active_unit = "active"
display reloading = "reloading"
display deactivating = "deactivating"
display inactive_unit = "inactive"
display (failed _) = "failed"

-- `From<UnitActiveState> for ExecutionStatus`
abbrev pub execution_status : UnitActiveState → ExecutionStatus
execution_status inactive_unit = inactive "inactive"
execution_status activating = active "activating"
execution_status active_unit = active "active"
execution_status reloading = active "reloading"
execution_status deactivating = active "deactivating"
execution_status (failed _) = active "failed"

pub data JobResult : Type 0 where
  done job_canceled timed_out : JobResult
  job_failed : String → JobResult

-- What the system answers about one unit, in a state `S`: reading does not change it.
pub record SystemdUnit (S : Type 0) : Type 0 where
  pub active_state : S → Option String
  pub failure_info : S → Option FailureInfo
  pub reset_failed : S → Bool × S
  pub properties : Bool
  pub start_transient_unit : S → Result String JobResult × S
  pub stop_unit : S → Result String JobResult × S
  -- A stop that is cut off after `BLOCKING_TIMEOUT`.
  pub cut_off : S → Option S

parse_active_state : String → Option UnitActiveState
parse_active_state state =
    if str_eq state "activating"
    then some activating
    else if str_eq state "active"
    then some active_unit
    else if str_eq state "reloading"
    then some reloading
    else if str_eq state "deactivating"
    then some deactivating
    else if str_eq state "inactive"
    then some inactive_unit
    else none

-- What is read of a failed unit goes into its state.
unfoldable pub active_state_from_str : String → Option FailureInfo → Result String UnitActiveState
unfolding parse_active_state
active_state_from_str state failure_info =
    if str_eq state "failed"
    then (do info ← ok_or failure_info "D-Bus error"; ok (failed info))
    else ok_or (parse_active_state state) "Cannot convert activestate"

-- A job that failed or timed out while the unit is active is the unit's state, not an error.
abbrev pub job_failed_as : String → ExecutionStatus → ExecutionResult
job_failed_as reason (active state) = success (active state)
job_failed_as reason (inactive state) = failure reason

abbrev pub job_timed_out_as : ExecutionStatus → ExecutionResult
job_timed_out_as (active state) = success (active state)
job_timed_out_as (inactive state) = timeout

unfoldable pub map_job_result : JobResult → ExecutionStatus → ExecutionResult
map_job_result done status = success status
map_job_result job_canceled status = canceled status
map_job_result (job_failed reason) status = job_failed_as reason status
map_job_result timed_out status = job_timed_out_as status

module _ {S : Type 0} (u : SystemdUnit S) where
  open u use {
    active_state, failure_info, reset_failed, properties, start_transient_unit, stop_unit, cut_off,
  }

  abbrev Reply : Type 0
  Reply = Result String ExecutionResult × S

  unfoldable pub get_active_state : S → Result String UnitActiveState
  get_active_state s = do
    state ← ok_or (active_state s) "D-Bus error"
    active_state_from_str state (failure_info s)

  -- The state is read first, so its error hides the job's.
  unfoldable pub handle_job_result : Result String JobResult × S → Reply
  handle_job_result (result, s) = (
    (do state ← get_active_state s; job ← result; ok (map_job_result job (execution_status state))),
    s,
  )

  -- The flag says that the properties of the unit can be made.
  request_from : Bool → S → Reply
  unfolding handle_job_result
  request_from true s = handle_job_result (start_transient_unit s)
  request_from false s = (err "Failed to generate properties for unit", s)

  request_start : S → Reply
  unfolding request_from
  request_start s = request_from properties s

  reset_then : Bool × S → (S → Reply) → Reply
  reset_then (false, s) next = (err "Failed to reset failed unit", s)
  reset_then (true, s) next = next s

  -- A unit that is loaded, live or on its way, is used as it is.
  start_from : Result String UnitActiveState → S → Reply
  unfolding request_start reset_then
  start_from (err t) s = (err t, s)
  start_from (ok inactive_unit) s = request_start s
  start_from (ok (failed info)) s = reset_then (reset_failed s) request_start
  start_from (ok activating) s = (ok (success (execution_status activating)), s)
  start_from (ok active_unit) s = (ok (success (execution_status active_unit)), s)
  start_from (ok reloading) s = (ok (success (execution_status reloading)), s)
  start_from (ok deactivating) s = (ok (success (execution_status deactivating)), s)

  unfoldable pub start : S → Reply
  unfolding start_from
  start s = start_from (get_active_state s) s

  stop_from : Result String UnitActiveState → S → Reply
  unfolding handle_job_result reset_then
  stop_from (err t) s = (err t, s)
  stop_from (ok (failed info)) s =
      reset_then (reset_failed s) (λ s'. (ok (success (execution_status inactive_unit)), s'))
  stop_from (ok inactive_unit) s = handle_job_result (stop_unit s)
  stop_from (ok activating) s = handle_job_result (stop_unit s)
  stop_from (ok active_unit) s = handle_job_result (stop_unit s)
  stop_from (ok reloading) s = handle_job_result (stop_unit s)
  stop_from (ok deactivating) s = handle_job_result (stop_unit s)

  unfoldable pub stop : S → Reply
  unfolding stop_from
  stop s = stop_from (get_active_state s) s

  -- The state that a stop leaves, whole or cut off.
  after_stop : Option S → S → S
  after_stop none s = (stop s).1
  after_stop (some s') s = s'

  reset_reply : Bool × S → Result String (Unit {0}) × S
  reset_reply (answer, s) = (ensure answer "Failed to reset failed unit", s)

  -- The result of the stop is not looked at.
  unfoldable pub teardown : S → Result String (Unit {0}) × S
  unfolding after_stop reset_reply
  teardown s = reset_reply (reset_failed (after_stop (cut_off s) s))
