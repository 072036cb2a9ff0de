-- ===== src/Lifecycle.antt =====
-- The life of a package: its statuses, and which transitions the table admits
-- (ssamd/src/package.rs, ssamd/src/package/transition.rs).
pub mod Manager
pub mod Transitioner
use ssam.Prelude.{
  Bool, true, false, not, ◌&&◌, Option, none, some, List, [], ◌∷◌, String, str_eq, if◌then◌else◌,
}

-- `libssam::ssam_package::ssam_pkg_info::BrokenReason`
pub record BrokenReason : Type 0 where
  pub summary : String
  pub details : String

pub data PackageStatus : Type 0 where
  verified setting_up ready start_requested : PackageStatus
  running : String → PackageStatus
  stop_requested cleaning_up cleaned upgrading : PackageStatus
  error : String → PackageStatus
  broken : BrokenReason → PackageStatus

-- The derived `PartialEq`.
unfoldable pub status_eq : PackageStatus → PackageStatus → Bool
status_eq verified verified = true
status_eq setting_up setting_up = true
status_eq ready ready = true
status_eq start_requested start_requested = true
status_eq (running s) (running t) = str_eq s t
status_eq stop_requested stop_requested = true
status_eq cleaning_up cleaning_up = true
status_eq cleaned cleaned = true
status_eq upgrading upgrading = true
status_eq (error s) (error t) = str_eq s t
status_eq (broken r) (broken q) = str_eq r.summary q.summary && str_eq r.details q.details
status_eq _ _ = false

-- The handlers, each a unit struct in the source.
pub data Transition : Type 0 where
  to_setting_up to_start_requested to_cleaning_up to_stop_requested to_ready : Transition
  to_running to_cleaned to_error to_broken to_upgrading : Transition

-- `TransitionStore`, looked up by the target: `Verified` has no entry.
unfoldable pub transition_to_target : PackageStatus → Option Transition
transition_to_target verified = none
transition_to_target setting_up = some to_setting_up
transition_to_target ready = some to_ready
transition_to_target start_requested = some to_start_requested
transition_to_target (running _) = some to_running
transition_to_target stop_requested = some to_stop_requested
transition_to_target cleaning_up = some to_cleaning_up
transition_to_target cleaned = some to_cleaned
transition_to_target upgrading = some to_upgrading
transition_to_target (error _) = some to_error
transition_to_target (broken _) = some to_broken

unfoldable pub is_applicable : Transition → PackageStatus → Bool
is_applicable to_setting_up verified = true
is_applicable to_setting_up cleaned = true
is_applicable to_start_requested ready = true
is_applicable to_start_requested (running _) = true
is_applicable to_cleaning_up ready = true
is_applicable to_stop_requested start_requested = true
is_applicable to_stop_requested (running _) = true
is_applicable to_stop_requested ready = true
is_applicable to_ready setting_up = true
is_applicable to_ready stop_requested = true
is_applicable to_ready (running _) = true
is_applicable to_running ready = true
is_applicable to_running start_requested = true
is_applicable to_running (running _) = true
is_applicable to_running stop_requested = true
is_applicable to_cleaned cleaning_up = true
is_applicable to_error _ = true
is_applicable to_broken _ = true
is_applicable to_upgrading verified = true
is_applicable to_upgrading ready = true
is_applicable to_upgrading (running _) = true
is_applicable to_upgrading start_requested = true
is_applicable _ _ = false

unfoldable pub ignore_without_error : Transition → PackageStatus → Bool
ignore_without_error to_start_requested (running state) = not (str_eq state "failed")
ignore_without_error to_stop_requested ready = true
ignore_without_error _ _ = false

applicable_only : Option Transition → PackageStatus → Option Transition
applicable_only none current = none
applicable_only (some t) current = if is_applicable t current then some t else none

unfoldable pub find_transition : PackageStatus → PackageStatus → Option Transition
unfolding transition_to_target is_applicable applicable_only
find_transition current target = applicable_only (transition_to_target target) current
