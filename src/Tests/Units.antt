-- ===== src/Tests/Units.antt =====
-- The theorems on units, with a state that is the name systemd gives it, and a job that is over
-- before it is watched.
use ssam.Prelude.{◌≡◌, refl, true, none, some, [], ◌∷◌, String, get, ok, str_eq, if◌then◌else◌}
use ssam.Lifecycle.Manager.{active, success, result_status}
use ssam.Executor.{
  SystemdUnit, done, timed_out, get_active_state, active_state_from_str, handle_job_result,
  map_job_result, start,
}
use ssam.Executor.Truthful.{start_unit, operate, Tells, ResetsFailed, operate-Tells}
use ssam.Executor.Watcher.{await_job, IsFresh, await_job-announced}

abbrev unit : SystemdUnit String
unit = record {
  active_state = λ s. some s;
  failure_info = λ s. some (record { result = "exit-code"; exitcode = "1" });
  reset_failed = λ s. (true, if str_eq s "failed" then "inactive" else s);
  properties = true;
  start_transient_unit = λ s. (ok done, "active");
  stop_unit = λ s. (ok done, "inactive");
  cut_off = λ s. none;
}

reset_inactive : ResetsFailed unit
reset_inactive s e reset = let named : s ≡ "failed" = cc in rw named refl

started : (operate unit start_unit "inactive").0 ≡ ok (success (active "active"))
unfolding operate start get_active_state active_state_from_str handle_job_result map_job_result
started = refl

operate-Tells_example :
    Tells unit (result_status (success (active "active"))) (operate unit start_unit "inactive").1
operate-Tells_example =
    operate-Tells unit reset_inactive start_unit "inactive" (success (active "active")) started

none_kept : IsFresh 1 []
unfolding get
none_kept job e = cc

await_job-announced_example :
    (await_job 1 "/job/7" (record { job = "/job/7"; result = "done" } ∷ []) [] []).0 ≡ timed_out
await_job-announced_example =
    await_job-announced 1 "/job/7" (record { job = "/job/7"; result = "done" } ∷ []) [] [] none_kept
