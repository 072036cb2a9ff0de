-- ===== src/Executor/Monitor.antt =====
-- `run_active_state_monitor`: which states of the unit are told to the package.
use ssam.Prelude.{Bool, true, false, Option, List, [], ◌∷◌, String, Result, ok, err}
use ssam.Executor.{UnitActiveState, inactive_unit, FailureInfo, active_state_from_str}

-- What `select!` gives: a cancellation, or an item of the stream with what is read of a failed unit
-- then, and whether the package takes the message.
pub data Event : Type 0 where
  cancelled : Event
  changed : Result String String → Option FailureInfo → Bool → Event

abbrev Told : Type 0
Told = List UnitActiveState × Result String (Unit {0})

abbrev told_first : UnitActiveState → Bool → Told → Told
told_first state true (told, outcome) = (state ∷ told, outcome)
told_first state false rest = ([], err "The state converter has stopped")

told_state : Result String UnitActiveState → Bool → Told → Told
told_state (err t) taken rest = ([], err t)
told_state (ok state) taken rest = told_first state taken rest

converted : Result String String → Option FailureInfo → Result String UnitActiveState
converted (err t) info = err t
converted (ok state) info = active_state_from_str state info

-- The loop; a stream that ends is an error.
unfoldable pub monitor_loop : List Event → Told
unfolding told_state converted
monitor_loop [] = ([], err "D-Bus ActiveState property stream closed unexpectedly")
monitor_loop (cancelled ∷ es) = ([], ok tt)
monitor_loop (changed item info taken ∷ es) =
    told_state (converted item info) taken (monitor_loop es)

-- An initial state that is inactive is not told.
unfoldable pub run_active_state_monitor : UnitActiveState → Bool → List Event → Told
run_active_state_monitor inactive_unit taken es = monitor_loop es
run_active_state_monitor state taken es = told_first state taken (monitor_loop es)
