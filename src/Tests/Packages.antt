-- ===== src/Tests/Packages.antt =====
-- The lifecycle theorems over parts where every call succeeds; the
-- filesystem is the flag that says whether it is mounted.
use ssam.Prelude.{◌≡◌, refl, Bool, true, false, none, List, [], ◌∷◌, String, ok}
use ssam.Lifecycle.{start_requested, setting_up, error}
use ssam.Lifecycle.Manager.{
  active, inactive, success, PackageTransitioner, TransitionError, System, listening, Input,
  request, teardown, event, channel_closed, report, request_setup, request_start, prepare_upgrade,
  transition_to, run, initial,
}
use ssam.Lifecycle.Manager.Settled.{is_settled, run-settled}
use ssam.Lifecycle.Manager.Edges.{
  Tells, is_halted, teardowns, torn_down_times, transition_to-Tells, run-Halted,
}
use ssam.Lifecycle.Manager.Mounts.{fits, torn_since}
use ssam.Lifecycle.Transitioner.{Parts, LazyExecutor, World, transitioner}
use ssam.Lifecycle.Transitioner.Filesystem.{FsLaws, status-fits_mount}

abbrev parts : Parts (Unit {0}) (Unit {0}) Bool (Unit {0}) (Unit {0})
parts = record {
  new_executor = λ x. (ok tt, x);
  start_unit = λ e x. (ok (success (active "running")), x);
  stop_unit = λ e x. (ok (success (inactive "dead")), x);
  teardown_unit = λ e x. (ok tt, x);
  mount = λ f. (ok tt, true);
  unmount = λ f. (ok tt, false);
  prepare = λ c. (ok tt, c);
  create_netns = λ n. (ok tt, n);
  attach = λ n. (ok tt, n);
  detach = λ n. (ok tt, n);
  destroy_netns = λ n. (ok tt, n);
}

abbrev laws : FsLaws parts (λ f. f)
laws = record { mount_ok = λ f e. refl; unmount_ok = λ f e. refl; unmount_keeps = λ f e. refl }

abbrev fresh : LazyExecutor (Unit {0})
fresh = record { init_args = true; cell = none }

abbrev world : World (Unit {0}) (Unit {0}) Bool (Unit {0}) (Unit {0})
world = record { executor = fresh; units = tt; fs = false; bundle = tt; net = tt }

abbrev ops : PackageTransitioner (World (Unit {0}) (Unit {0}) Bool (Unit {0}) (Unit {0}))
ops = transitioner parts true "app"

abbrev message : TransitionError → String
message e = "refused"

abbrev inputs : List Input
inputs =
    request request_setup
    ∷ request request_start
    ∷ event (active "running")
    ∷ event (inactive "dead")
    ∷ teardown
    ∷ request prepare_upgrade
    ∷ channel_closed
    ∷ report
    ∷ []

abbrev at_end : System (World (Unit {0}) (Unit {0}) Bool (Unit {0}) (Unit {0}))
at_end = run ops message inputs (initial world)

status-fits_mount_example :
    fits at_end.status (torn_since ops message false inputs (initial world)) at_end.world.fs ≡ true
status-fits_mount_example =
    status-fits_mount parts true "app" (λ f. f) laws message inputs world refl

run-settled_example : is_settled at_end.status ≡ true
run-settled_example = run-settled ops message inputs world

abbrev failed : System (World (Unit {0}) (Unit {0}) Bool (Unit {0}) (Unit {0}))
failed = record { status = error "mount"; receiver = listening; world = world }

run-Halted_example :
    (is_halted (run ops message inputs failed).status ≡ true)
    × ((run ops message inputs failed).world ≡ torn_down_times ops (teardowns inputs) world)
run-Halted_example = run-Halted ops message inputs failed refl

transition_to-Tells_example :
    Tells start_requested setting_up world
      (transition_to ops start_requested setting_up world)
      (transition_to ops start_requested setting_up world).reply
transition_to-Tells_example = transition_to-Tells ops start_requested setting_up world
