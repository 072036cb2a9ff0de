-- ===== src/Executor/Watcher.antt =====
-- `JobRemovedSignalWatcherActor` and the wait of `SystemdManagerActor` for a job.
use ssam.Prelude.{
  ℕ, ◌≡◌, ◌≢◌, refl, sym, ap, ◌∙◌, true, Option, none, some, List, [], ◌∷◌, String, HashMap, get,
  insert, remove, get-remove_inv, get-insert_self, get-insert_inv, get-remove_ne, arith, inl, inr,
  ◌==◌, ==→eq, str_eq, str_eq-cases, Option-cases, if◌then◌else◌, Bool-cases,
}
use ssam.Executor.{JobResult, done, job_canceled, job_failed, timed_out}

-- A `JobRemoved` signal: the path of the job, and its result as systemd names it.
pub record Signal : Type 0 where
  pub job : String
  pub result : String

-- The senders by job; a sender is the number of its channel.
abbrev pub Senders : Type 0
Senders = HashMap ℕ

abbrev pub job_result : String → JobResult
job_result text =
    if str_eq text "done"
    then done
    else if str_eq text "canceled"
    then job_canceled
    else job_failed text

-- `on_run`: the senders afterwards, and what is sent on which channel.
abbrev send_to : Option ℕ → JobResult → Option (ℕ × JobResult)
send_to none result = none
send_to (some id) result = some (id, result)

unfoldable pub on_run : Signal → Senders → Senders × Option (ℕ × JobResult)
on_run signal senders =
    (remove senders signal.job, send_to (get senders signal.job) (job_result signal.result))

unfoldable pub handle_watch_signal : ℕ → String → Senders → Senders
handle_watch_signal id job senders = insert senders job id

unfoldable pub handle_cancel_watch_signal : String → Senders → Senders
handle_cancel_watch_signal job senders = remove senders job

unfoldable pub run_signals : List Signal → Senders → Senders
run_signals [] senders = senders
run_signals (signal ∷ signals) senders = run_signals signals (on_run signal senders).0

-- The first result on a channel, and the senders then.
abbrev received : ℕ → Option (ℕ × JobResult) → Option JobResult
received id none = none
received id (some (to, result)) = if to == id then some result else none

abbrev first_of :
    Option JobResult → Senders → Option JobResult × Senders → Option JobResult × Senders
first_of none senders rest = rest
first_of (some result) senders rest = (some result, senders)

unfoldable pub wait : ℕ → List Signal → Senders → Option JobResult × Senders
wait id [] senders = (none, senders)
wait id (signal ∷ signals) senders =
    let next = on_run signal senders in
    first_of (received id next.1) next.0 (wait id signals next.0)

abbrev finish : String → Option JobResult × Senders → JobResult × Senders
finish job (some result, senders) = (result, senders)
finish job (none, senders) = (timed_out, handle_cancel_watch_signal job senders)

-- The wait of `handle_start_transient_unit` and `handle_stop_unit`: `before` are the signals that the
-- watcher handles between systemd's answer and the watch, `during` those before the time is over.
unfoldable pub await_job : ℕ → String → List Signal → List Signal → Senders → JobResult × Senders
await_job id job before during senders =
    finish job (wait id during (handle_watch_signal id job (run_signals before senders)))

-- The reply, by the signals alone.
abbrev pub announced : String → List Signal → JobResult
announced job [] = timed_out
announced job (signal ∷ signals) =
    if str_eq signal.job job then job_result signal.result else announced job signals

-- A channel that no sender is kept for.
abbrev pub IsFresh : ℕ → Senders → Type 0
IsFresh id senders = (job : String) → get senders job ≢ some id

run_signals-IsFresh :
    (id : ℕ) (signals : List Signal) (senders : Senders)
    → IsFresh id senders
    → IsFresh id (run_signals signals senders)
unfolding run_signals on_run
run_signals-IsFresh id [] senders fresh = fresh
run_signals-IsFresh id (signal ∷ signals) senders fresh =
    run_signals-IsFresh id signals (remove senders signal.job)
      (λ job e. fresh job (get-remove_inv senders signal.job job e).1)

==_refl : (n : ℕ) → (n == n) ≡ true
==_refl n = ground arith

wait-announced :
    (id : ℕ) (job : String) (signals : List Signal) (senders : Senders)
    → get senders job ≡ some id
    → ((other : String) → get senders other ≡ some id → other ≡ job)
    → (finish job (wait id signals senders)).0 ≡ announced job signals
unfolding wait on_run
wait-announced id job [] senders held only = refl
wait-announced id job (signal ∷ signals) senders held only = elim (str_eq-cases signal.job job) [
  | inl (same, e) ↦
      let here : get senders signal.job ≡ some id = ap (get senders) same ∙ held in
      rw (here, e, ==_refl id) refl
  | inr (ne, e) ↦
      let later =
        wait-announced id job signals (remove senders signal.job)
          (get-remove_ne senders signal.job job ne ∙ held)
          (λ other h. only other (get-remove_inv senders signal.job other h).1) in
      elim (Option-cases (get senders signal.job)) [
        | inl unwatched ↦ rw (unwatched, e) later
        | inr (i, watched) ↦ elim (Bool-cases (i == id)) [
          | inl mine ↦ absurd (ne (only signal.job (watched ∙ ap some (==→eq i id mine))))
          | inr another ↦ rw (watched, another, e) later
        ]
      ]
]

-- The reply to a request is the first result that is announced for its job after the watch began, and
-- a timeout if there is none, whatever was announced before: a job that is over by then is waited for
-- until the time is over. The channel must be a new one.
pub await_job-announced :
    (id : ℕ) (job : String) (before during : List Signal) (senders : Senders)
    → IsFresh id senders
    → (await_job id job before during senders).0 ≡ announced job during
unfolding await_job handle_watch_signal
await_job-announced id job before during senders fresh =
    let kept = run_signals-IsFresh id before senders fresh in
    wait-announced id job during (insert (run_signals before senders) job id)
      (get-insert_self (run_signals before senders) job id)
      (λ other e. elim (get-insert_inv (run_signals before senders) job other id e) [
        | inl (same, _) ↦ sym same
        | inr (_, old) ↦ absurd (kept other old)
      ])
