-- ===== src/Lifecycle/Manager.antt =====
-- `TransitionManagerActor` (ssamd/src/package/state_machine.rs) over the operations of a
-- `PackageTransitioner`, with the status receiver and the requests of `Package`
-- (ssamd/src/package.rs).
pub mod Settled
pub mod Edges
pub mod Mounts
use ssam.Prelude.{
  Bool, true, false, not, ◌&&◌, ◌||◌, Option, none, some, List, [], ◌∷◌, String, Result, ok, err,
  if◌then◌else◌,
}
use ssam.Lifecycle.{
  PackageStatus, verified, setting_up, ready, start_requested, running, stop_requested, cleaning_up,
  cleaned, upgrading, error, broken, Transition, to_setting_up, to_start_requested, to_cleaning_up,
  to_stop_requested, to_ready, to_running, to_cleaned, to_error, to_broken, to_upgrading, status_eq,
  find_transition, is_applicable, ignore_without_error,
}

-- `executor::ExecutionStatus` and `ExecutionResult`
pub data ExecutionStatus : Type 0 where
  active inactive : String → ExecutionStatus

pub data ExecutionResult : Type 0 where
  success canceled : ExecutionStatus → ExecutionResult
  failure : String → ExecutionResult
  timeout : ExecutionResult

-- `PackageTransitioner`: an operation changes the state `W` of mounts, units and networks. An error
-- is its text `{:#}`.
pub record PackageTransitioner (W : Type 0) : Type 0 where
  pub setup : W → Result String (Unit {0}) × W
  pub cleanup : W → Result String (Unit {0}) × W
  pub start : W → Result String ExecutionResult × W
  pub stop : W → Result String ExecutionResult × W
  pub teardown : W → Result String (Unit {0}) × W

unfoldable pub status_of : ExecutionStatus → PackageStatus
status_of (active state) = running state
status_of (inactive _) = ready

-- `From<ExecutionResult> for PackageStatus`
unfoldable pub result_status : ExecutionResult → PackageStatus
unfolding status_of
result_status (success s) = status_of s
result_status (canceled s) = status_of s
result_status (failure reason) = error reason
result_status timeout = error "timeout"

pub data TransitionError : Type 0 where
  invalid_transition : PackageStatus → PackageStatus → TransitionError
  error_state : String → TransitionError

-- What one request did to the status, to its caller and to `W`.
pub record Outcome (W : Type 0) : Type 0 where
  pub reply : Result TransitionError (Unit {0})
  pub status : PackageStatus
  pub world : W

module _ {W : Type 0} (ops : PackageTransitioner W) where
  executed : Result String ExecutionResult × W → Option PackageStatus × W
  executed (ok result, w) = (some (result_status result), w)
  executed (err e, w) = (some (error e), w)

  -- `ToSettingUp::handle`: a failed setup is cleaned up, and the error is the setup's.
  set_up : Result String (Unit {0}) × W → Option PackageStatus × W
  set_up (ok _, w) = (some ready, w)
  set_up (err e, w) = (some (error e), (ops.cleanup w).1)

  cleaned_up : Result String (Unit {0}) × W → Option PackageStatus × W
  cleaned_up (ok _, w) = (some cleaned, w)
  cleaned_up (err e, w) = (some (error e), w)

  torn_down : Result String (Unit {0}) × W → Option PackageStatus × W
  torn_down (ok _, w) = (none, w)
  torn_down (err e, w) = (some (error e), w)

  -- `ToUpgrading::handle`
  upgrade : PackageStatus → W → Option PackageStatus × W
  unfolding torn_down
  upgrade verified w = (none, w)
  upgrade _ w = torn_down (ops.teardown w)

  -- `none` leaves the package in the status that was asked for.
  unfoldable pub handle : Transition → PackageStatus → W → Option PackageStatus × W
  unfolding set_up executed cleaned_up upgrade
  handle to_setting_up current w = set_up (ops.setup w)
  handle to_start_requested current w = executed (ops.start w)
  handle to_cleaning_up current w = cleaned_up (ops.cleanup w)
  handle to_stop_requested current w = executed (ops.stop w)
  handle to_upgrading current w = upgrade current w
  handle _ current w = (none, w)

  -- The reply is an error in the error state, and only there.
  reply_for : PackageStatus → Result TransitionError (Unit {0})
  reply_for (error e) = err (error_state e)
  reply_for _ = ok tt

  handled : Option PackageStatus × W → PackageStatus → Outcome W
  unfolding reply_for
  handled (none, w) next = record { reply = reply_for next; status = next; world = w }
  handled (some s, w) next = record { reply = reply_for s; status = s; world = w }

  apply_transition : Option Transition → PackageStatus → PackageStatus → W → Outcome W
  unfolding handled
  apply_transition none current next w = record {
    reply = err (invalid_transition current next);
    status = current;
    world = w;
  }
  apply_transition (some t) current next w =
      if ignore_without_error t current
      then record { reply = reply_for current; status = current; world = w }
      else handled (handle t current w) next

  unfoldable pub transition_to : PackageStatus → PackageStatus → W → Outcome W
  unfolding apply_transition
  transition_to current next w =
      if status_eq next current
      then record { reply = ok tt; status = current; world = w }
      else apply_transition (find_transition current next) current next w

  -- `handle_teardown` leaves the status alone.
  unfoldable pub handle_teardown : W → Result String (Unit {0}) × W
  handle_teardown w = ops.teardown w

  -- `Package::teardown` asks for it only in the states
  -- that may have a mounted filesystem.
  torn : Result String (Unit {0}) × W → PackageStatus → Result String (Unit {0}) × PackageStatus × W
  torn (r, w) status = (r, status, w)

  unfoldable pub package_teardown : PackageStatus → W → Result String (Unit {0}) × PackageStatus × W
  unfolding torn handle_teardown
  package_teardown verified w = (ok tt, verified, w)
  package_teardown cleaned w = (ok tt, cleaned, w)
  package_teardown upgrading w = (ok tt, upgrading, w)
  package_teardown status w = torn (handle_teardown w) status

-- `run_status_receiver` waits for the next event, or has an error to report, or has returned.
pub data Receiver : Type 0 where
  listening : Receiver
  failing : String → Receiver
  ended : Receiver

pub record System (W : Type 0) : Type 0 where
  pub status : PackageStatus
  pub receiver : Receiver
  pub world : W

-- The requests of `Package`: `setup`, `cleanup`, `request_start`, `request_stop`, `prepare_upgrade`.
pub data Request : Type 0 where
  request_setup request_cleanup request_start request_stop prepare_upgrade : Request

unfoldable pub request_target : Request → PackageStatus
request_target request_setup = setting_up
request_target request_cleanup = cleaning_up
request_target request_start = start_requested
request_target request_stop = stop_requested
request_target prepare_upgrade = upgrading

-- What comes next: a request of a client, a teardown, an event of the unit monitor, the end of its
-- channel, or the receiver's report of its error. The actor handles one at a time, in any order. A
-- `Teardown` message may come in any status, since `Package::teardown` looks at the status by a
-- message of its own.
pub data Input : Type 0 where
  request : Request → Input
  teardown : Input
  event : ExecutionStatus → Input
  channel_closed report : Input

module _ {W : Type 0} (ops : PackageTransitioner W) (message : TransitionError → String) where
  after_event : Result TransitionError (Unit {0}) → Receiver
  after_event (ok _) = listening
  after_event (err e) = failing (message e)

  receive : Receiver → Input → System W → System W
  unfolding after_event
  receive listening (event e) s =
      let done = transition_to ops s.status (status_of e) s.world in
      record { status = done.status; receiver = after_event done.reply; world = done.world }
  receive listening channel_closed s = record s { receiver = failing "Channel closed" }
  receive (failing text) report s =
      let done = transition_to ops s.status (error text) s.world in
      record { status = done.status; receiver = ended; world = done.world }
  receive _ _ s = s

  unfoldable pub step : Input → System W → System W
  unfolding receive request_target handle_teardown
  step (request r) s =
      let done = transition_to ops s.status (request_target r) s.world in
      record s { status = done.status; world = done.world }
  step teardown s = record s { world = (handle_teardown ops s.world).1 }
  step (event e) s = receive s.receiver (event e) s
  step channel_closed s = receive s.receiver channel_closed s
  step report s = receive s.receiver report s

  unfoldable pub run : List Input → System W → System W
  run [] s = s
  run (i ∷ is) s = run is (step i s)

-- A package as `Package::new` makes it.
unfoldable pub initial : {W : Type 0} → W → System W
initial w = record { status = verified; receiver = listening; world = w }
