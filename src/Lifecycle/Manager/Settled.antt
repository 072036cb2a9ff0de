-- ===== src/Lifecycle/Manager/Settled.antt =====
-- The statuses that a package is seen in: the requested ones pass within one transition.
use ssam.Prelude.{◌≡◌, refl, Bool, true, false, List, [], ◌∷◌, String, arith}
use ssam.Lifecycle.{
  PackageStatus, setting_up, start_requested, stop_requested, cleaning_up, error, status_eq,
  find_transition, ignore_without_error,
}
use ssam.Lifecycle.Manager.{
  ExecutionStatus, active, inactive, PackageTransitioner, TransitionError, System, Receiver,
  listening, failing, Input, request, teardown, event, channel_closed, report, Request,
  request_setup, request_cleanup, request_start, request_stop, prepare_upgrade, request_target,
  status_of, result_status, handle, transition_to, receive, step, run, initial,
}

abbrev pub is_settled : PackageStatus → Bool
is_settled setting_up = false
is_settled start_requested = false
is_settled stop_requested = false
is_settled cleaning_up = false
is_settled _ = true

module _ {W : Type 0} (ops : PackageTransitioner W) where
  request-settled :
      (r : Request) (current : PackageStatus) (w : W)
      → is_settled current ≡ true
      → is_settled (transition_to ops current (request_target r) w).status ≡ true
  unfolding transition_to status_eq find_transition ignore_without_error handle result_status
      request_target
  request-settled request_setup current w c = ground arith
  request-settled request_cleanup current w c = ground arith
  request-settled request_start current w c = ground arith
  request-settled request_stop current w c = ground arith
  request-settled prepare_upgrade current w c = ground arith

  event-settled :
      (e : ExecutionStatus) (current : PackageStatus) (w : W)
      → is_settled current ≡ true
      → is_settled (transition_to ops current (status_of e) w).status ≡ true
  unfolding transition_to status_eq find_transition ignore_without_error handle status_of
  event-settled (active s) current w c = ground arith
  event-settled (inactive s) current w c = ground arith

  error-settled :
      (text : String) (current : PackageStatus) (w : W)
      → is_settled current ≡ true
      → is_settled (transition_to ops current (error text) w).status ≡ true
  unfolding transition_to status_eq find_transition ignore_without_error handle
  error-settled text current w c = ground arith

module _ {W : Type 0} (ops : PackageTransitioner W) (message : TransitionError → String) where
  receive-settled :
      (v : Receiver) (i : Input) (s : System W)
      → is_settled s.status ≡ true
      → is_settled (receive ops message v i s).status ≡ true
  unfolding receive
  receive-settled listening (event e) s c = event-settled ops e s.status s.world c
  receive-settled (failing text) report s c = error-settled ops text s.status s.world c
  receive-settled _ _ s c = c

  step-settled :
      (i : Input) (s : System W)
      → is_settled s.status ≡ true
      → is_settled (step ops message i s).status ≡ true
  unfolding step
  step-settled (request r) s c = request-settled ops r s.status s.world c
  step-settled teardown s c = c
  step-settled (event e) s c = receive-settled s.receiver (event e) s c
  step-settled channel_closed s c = receive-settled s.receiver channel_closed s c
  step-settled report s c = receive-settled s.receiver report s c

  run_from-settled :
      (is : List Input) (s : System W)
      → is_settled s.status ≡ true
      → is_settled (run ops message is s).status ≡ true
  unfolding run
  run_from-settled [] s c = c
  run_from-settled (i ∷ is) s c = run_from-settled is (step ops message i s) (step-settled i s c)

  -- After any inputs in any order, whatever the operations return, the status of a new package is
  -- none of `SettingUp`, `StartRequested`, `StopRequested` and `CleaningUp`.
  pub run-settled :
      (is : List Input) (w : W) → is_settled (run ops message is (initial w)).status ≡ true
  unfolding initial
  run-settled is w = run_from-settled is (initial w) refl
