-- ===== src/Executor/Truthful.antt =====
-- What a start or a stop reports of the unit.
use ssam.Prelude.{
  ◌≡◌, ◌≢◌, ◌∙◌, ap, subst, refl, Bool, true, false, some, String, Result, ok, err, inl, inr, arith,
  Result-cases, Option-cases, str_eq-cases,
}
use ssam.Lifecycle.Manager.{ExecutionResult, success, result_status}
use ssam.Lifecycle.{PackageStatus, running, ready, error}
use ssam.Executor.{
  FailureInfo, UnitActiveState, inactive_unit, activating, active_unit, reloading, deactivating,
  failed, JobResult, done, job_canceled, job_failed, timed_out, SystemdUnit, display,
  execution_status, map_job_result, get_active_state, handle_job_result, request_from,
  request_start, start, stop, active_state_from_str, start_from, stop_from, reset_then,
}

ok_inj : {A : Type 0} {a b : A} → ◌≡◌ {A = Result String A} (ok a) (ok b) → a ≡ b
ok_inj e = cc

-- The two operations that report a result.
pub data Operation : Type 0 where
  start_unit stop_unit : Operation

unfoldable pub operate :
    {S : Type 0} → SystemdUnit S → Operation → S → Result String ExecutionResult × S
operate u start_unit s = start u s
operate u stop_unit s = stop u s

module _ {S : Type 0} (u : SystemdUnit S) where
  -- What a package status says of the unit that is read in a state of the system.
  abbrev pub Tells : PackageStatus → S → Type 0
  Tells (running name) s =
      (state : UnitActiveState) × (get_active_state u s ≡ ok state)
      × (name ≡ display state)
      × (state ≢ inactive_unit)
  Tells ready s = get_active_state u s ≡ ok inactive_unit
  Tells (error _) s = get_active_state u s ≡ ok inactive_unit
  Tells _ s = ⊥

  state-Tells :
      (state : UnitActiveState) (s : S)
      → get_active_state u s ≡ ok state
      → Tells (result_status (success (execution_status state))) s
  unfolding result_status
  state-Tells inactive_unit s e = e
  state-Tells activating s e = (activating, e, refl, λ p. cc)
  state-Tells active_unit s e = (active_unit, e, refl, λ p. cc)
  state-Tells reloading s e = (reloading, e, refl, λ p. cc)
  state-Tells deactivating s e = (deactivating, e, refl, λ p. cc)
  state-Tells (failed info) s e = (failed info, e, refl, λ p. cc)

  job-Tells :
      (job : JobResult) (state : UnitActiveState) (s : S)
      → get_active_state u s ≡ ok state
      → Tells (result_status (map_job_result job (execution_status state))) s
  unfolding map_job_result result_status
  job-Tells done state s e = state-Tells state s e
  job-Tells job_canceled state s e = state-Tells state s e
  job-Tells (job_failed reason) inactive_unit s e = e
  job-Tells (job_failed reason) activating s e = state-Tells activating s e
  job-Tells (job_failed reason) active_unit s e = state-Tells active_unit s e
  job-Tells (job_failed reason) reloading s e = state-Tells reloading s e
  job-Tells (job_failed reason) deactivating s e = state-Tells deactivating s e
  job-Tells (job_failed reason) (failed info) s e = state-Tells (failed info) s e
  job-Tells timed_out inactive_unit s e = e
  job-Tells timed_out activating s e = state-Tells activating s e
  job-Tells timed_out active_unit s e = state-Tells active_unit s e
  job-Tells timed_out reloading s e = state-Tells reloading s e
  job-Tells timed_out deactivating s e = state-Tells deactivating s e
  job-Tells timed_out (failed info) s e = state-Tells (failed info) s e

  handle_job_result-Tells :
      (r : Result String JobResult × S) {x : ExecutionResult}
      → (handle_job_result u r).0 ≡ ok x
      → Tells (result_status x) (handle_job_result u r).1
  unfolding handle_job_result
  handle_job_result-Tells (job, s) {x} e = elim (Result-cases (get_active_state u s)) [
    | inr (t, bad) ↦ absurd (let f = rw bad at e in cc)
    | inl (state, read) ↦ elim (Result-cases job) [
      | inr (t, bad) ↦ absurd (let f = rw (read, bad) at e in cc)
      | inl (j, h) ↦
          let f = rw (read, h) at e in
          subst (λ y. Tells (result_status y) s) (ok_inj f) (job-Tells j state s read)
    ]
  ]

  request_from-Tells :
      (made : Bool) (s : S) {x : ExecutionResult}
      → (request_from u made s).0 ≡ ok x
      → Tells (result_status x) (request_from u made s).1
  unfolding request_from
  request_from-Tells true s e = handle_job_result-Tells (u.start_transient_unit s) e
  request_from-Tells false s e = cc

  request_start-Tells :
      (s : S) {x : ExecutionResult}
      → (request_start u s).0 ≡ ok x
      → Tells (result_status x) (request_start u s).1
  unfolding request_start
  request_start-Tells s e = request_from-Tells u.properties s e

  reset-Tells :
      (r : Bool × S) {x : ExecutionResult}
      → (reset_then u r (request_start u)).0 ≡ ok x
      → Tells (result_status x) (reset_then u r (request_start u)).1
  unfolding reset_then
  reset-Tells (true, s) e = request_start-Tells s e
  reset-Tells (false, s) e = cc

  start_from-Tells :
      (r : Result String UnitActiveState) (s : S) {x : ExecutionResult}
      → get_active_state u s ≡ r
      → (start_from u r s).0 ≡ ok x
      → Tells (result_status x) (start_from u r s).1
  unfolding start_from
  start_from-Tells (err t) s read e = cc
  start_from-Tells (ok inactive_unit) s read e = request_start-Tells s e
  start_from-Tells (ok (failed info)) s read e = reset-Tells (u.reset_failed s) e
  start_from-Tells (ok activating) s read e =
      subst (λ y. Tells (result_status y) s) (ok_inj e) (state-Tells activating s read)
  start_from-Tells (ok active_unit) s read e =
      subst (λ y. Tells (result_status y) s) (ok_inj e) (state-Tells active_unit s read)
  start_from-Tells (ok reloading) s read e =
      subst (λ y. Tells (result_status y) s) (ok_inj e) (state-Tells reloading s read)
  start_from-Tells (ok deactivating) s read e =
      subst (λ y. Tells (result_status y) s) (ok_inj e) (state-Tells deactivating s read)

  cleared-Tells :
      (r : Bool × S) {x : ExecutionResult}
      → (r.0 ≡ true → get_active_state u r.1 ≡ ok inactive_unit)
      → (reset_then u r (λ s. (ok (success (execution_status inactive_unit)), s))).0 ≡ ok x
      → Tells
          (result_status x)
          (reset_then u r (λ s. (ok (success (execution_status inactive_unit)), s))).1
  unfolding reset_then
  cleared-Tells (true, s) gone e =
      subst (λ y. Tells (result_status y) s) (ok_inj e) (state-Tells inactive_unit s (gone refl))
  cleared-Tells (false, s) gone e = cc

  -- A state that is read as failed has that name.
  failed_name :
      (s : S) (info : FailureInfo)
      → get_active_state u s ≡ ok (failed info)
      → u.active_state s ≡ some "failed"
  unfolding get_active_state active_state_from_str
  failed_name s info e = elim (Option-cases (u.active_state s)) [
    | inl missing ↦ absurd (ground (arith, missing))
    | inr (name, read) ↦ elim (str_eq-cases name "failed") [
      | inl (same, t) ↦ read ∙ ap some same
      | inr (other, t) ↦ absurd (ground (arith, read, t))
    ]
  ]

  inactive_read :
      (s : S) → u.active_state s ≡ some "inactive" → get_active_state u s ≡ ok inactive_unit
  unfolding get_active_state active_state_from_str
  inactive_read s e = rw e refl

  -- A failed unit that was reset, as systemd documents it: its state is then `inactive`.
  abbrev pub ResetsFailed : Type 0
  ResetsFailed =
      (s : S)
      → u.active_state s ≡ some "failed"
      → (u.reset_failed s).0 ≡ true
      → u.active_state (u.reset_failed s).1 ≡ some "inactive"

  stop_from-Tells :
      ResetsFailed
      → (r : Result String UnitActiveState) (s : S) {x : ExecutionResult} → get_active_state u s ≡ r
      → (stop_from u r s).0 ≡ ok x
      → Tells (result_status x) (stop_from u r s).1
  unfolding stop_from reset_then
  stop_from-Tells gone (err t) s read e = cc
  stop_from-Tells gone (ok (failed info)) s read e =
      cleared-Tells (u.reset_failed s)
        (λ reset. inactive_read _ (gone s (failed_name s info read) reset)) e
  stop_from-Tells gone (ok inactive_unit) s read e = handle_job_result-Tells (u.stop_unit s) e
  stop_from-Tells gone (ok activating) s read e = handle_job_result-Tells (u.stop_unit s) e
  stop_from-Tells gone (ok active_unit) s read e = handle_job_result-Tells (u.stop_unit s) e
  stop_from-Tells gone (ok reloading) s read e = handle_job_result-Tells (u.stop_unit s) e
  stop_from-Tells gone (ok deactivating) s read e = handle_job_result-Tells (u.stop_unit s) e

  -- If a start or a stop gives a result, then the package status that it leads to is true of the unit
  -- as it was read last: running shows the name of a state that is not inactive, and ready and error
  -- mean an inactive unit. Resetting a unit in the state `failed` must leave it in the state `inactive`.
  pub operate-Tells :
      ResetsFailed
      → (op : Operation) (s : S) (x : ExecutionResult) → (operate u op s).0 ≡ ok x
      → Tells (result_status x) (operate u op s).1
  unfolding operate start stop
  operate-Tells gone start_unit s x e = start_from-Tells (get_active_state u s) s refl e
  operate-Tells gone stop_unit s x e = stop_from-Tells gone (get_active_state u s) s refl e
