-- ===== src/Lifecycle/Manager/Edges.antt =====
-- What a reply says of the status, and the statuses that nothing leads out of.
use ssam.Prelude.{
  ℕ, zero, suc, ◌≡◌, refl, ◌∙◌, Bool, true, false, ◌⊎◌, inl, inr, Option, none, some, List, [], ◌∷◌,
  String, Result, ok, err, arith, Bool-cases,
}
use ssam.Lifecycle.{
  PackageStatus, verified, setting_up, ready, start_requested, running, stop_requested, cleaning_up,
  cleaned, upgrading, error, broken, Transition, status_eq, find_transition, ignore_without_error,
}
use ssam.Lifecycle.Manager.{
  active, inactive, PackageTransitioner, TransitionError, invalid_transition, error_state, Outcome,
  System, Receiver, listening, failing, Input, request, teardown, event, channel_closed, report,
  Request, request_setup, request_cleanup, request_start, request_stop, prepare_upgrade,
  request_target, status_of, handle, handle_teardown, handled, reply_for, apply_transition,
  transition_to, receive, step, run,
}

-- What each reply tells its caller, who asked for `next` in status `current`.
abbrev pub Tells :
    {W : Type 0}
    → PackageStatus
    → PackageStatus
    → W
    → Outcome W
    → Result TransitionError (Unit {0})
    → Type 0
Tells current next w o (ok _) = (o.status ≡ current) ⊎ ((text : String) → o.status ≡ error text → ⊥)
Tells current next w o (err (invalid_transition from to)) =
    (from ≡ current) × (to ≡ next) × (o.status ≡ current) × (o.world ≡ w)
Tells current next w o (err (error_state text)) = o.status ≡ error text

module _ {W : Type 0} (ops : PackageTransitioner W) where
  reply_for-Tells :
      (s current next : PackageStatus) (w w' : W)
      → let o : Outcome W = record { reply = reply_for ops s; status = s; world = w' } in
        Tells current next w o o.reply
  unfolding reply_for
  reply_for-Tells (error e) current next w w' = refl
  reply_for-Tells verified current next w w' = inr (λ text e. cc)
  reply_for-Tells setting_up current next w w' = inr (λ text e. cc)
  reply_for-Tells ready current next w w' = inr (λ text e. cc)
  reply_for-Tells start_requested current next w w' = inr (λ text e. cc)
  reply_for-Tells (running s) current next w w' = inr (λ text e. cc)
  reply_for-Tells stop_requested current next w w' = inr (λ text e. cc)
  reply_for-Tells cleaning_up current next w w' = inr (λ text e. cc)
  reply_for-Tells cleaned current next w w' = inr (λ text e. cc)
  reply_for-Tells upgrading current next w w' = inr (λ text e. cc)
  reply_for-Tells (broken r) current next w w' = inr (λ text e. cc)

  handled-Tells :
      (o : Option PackageStatus) (current next : PackageStatus) (w w' : W)
      → let out = handled ops (o, w') next in Tells current next w out out.reply
  unfolding handled
  handled-Tells none current next w w' = reply_for-Tells next current next w w'
  handled-Tells (some s) current next w w' = reply_for-Tells s current next w w'

  apply_transition-Tells :
      (t : Option Transition) (current next : PackageStatus) (w : W)
      → let out = apply_transition ops t current next w in Tells current next w out out.reply
  unfolding apply_transition
  apply_transition-Tells none current next w = (refl, refl, refl, refl)
  apply_transition-Tells (some t) current next w =
      elim (Bool-cases (ignore_without_error t current)) [
        | inl ignored ↦ rw ignored (reply_for-Tells current current next w w)
        | inr taken ↦
            rw taken
              (handled-Tells (handle ops t current w).0 current next w (handle ops t current w).1)
      ]

  -- A refused request names the current status and the target and changes nothing; a request that
  -- ends in an error leaves that error as the status; after a success the status is the one before
  -- or is no error.
  pub transition_to-Tells :
      (current next : PackageStatus) (w : W)
      → let out = transition_to ops current next w in Tells current next w out out.reply
  unfolding transition_to
  transition_to-Tells current next w = elim (Bool-cases (status_eq next current)) [
    | inl same ↦ rw same (inl refl)
    | inr other ↦ rw other (apply_transition-Tells (find_transition current next) current next w)
  ]

-- The statuses of a package that failed, or that was taken down for an upgrade.
abbrev pub is_halted : PackageStatus → Bool
is_halted upgrading = true
is_halted (error _) = true
is_halted (broken _) = true
is_halted _ = false

-- The `Teardown` messages of a list of inputs.
abbrev pub teardowns : List Input → ℕ
teardowns [] = 0
teardowns (teardown ∷ is) = suc (teardowns is)
teardowns (request r ∷ is) = teardowns is
teardowns (event e ∷ is) = teardowns is
teardowns (channel_closed ∷ is) = teardowns is
teardowns (report ∷ is) = teardowns is

-- A world after so many runs of the operation `teardown`.
abbrev pub torn_down_times : {W : Type 0} → PackageTransitioner W → ℕ → W → W
torn_down_times ops zero w = w
torn_down_times ops (suc n) w = torn_down_times ops n (ops.teardown w).1

module _ {W : Type 0} (ops : PackageTransitioner W) (message : TransitionError → String) where
  -- The system is halted and left the world alone.
  abbrev Halted : W → System W → Type 0
  Halted w s = (is_halted s.status ≡ true) × (s.world ≡ w)

  request-Halted :
      (r : Request) (s : System W)
      → is_halted s.status ≡ true
      → Halted s.world (step ops message (request r) s)
  unfolding step transition_to status_eq find_transition ignore_without_error handle request_target
  request-Halted request_setup s c = ground arith
  request-Halted request_cleanup s c = ground arith
  request-Halted request_start s c = ground arith
  request-Halted request_stop s c = ground arith
  request-Halted prepare_upgrade s c = ground arith

  receive-Halted :
      (v : Receiver) (i : Input) (s : System W)
      → is_halted s.status ≡ true
      → Halted s.world (receive ops message v i s)
  unfolding receive transition_to status_eq find_transition ignore_without_error handle status_of
  receive-Halted listening (event (active t)) s c = ground arith
  receive-Halted listening (event (inactive t)) s c = ground arith
  receive-Halted (failing text) report s c = ground arith
  receive-Halted _ _ s c = (c, refl)

  StaysHalted : Input → List Input → System W → Type 0
  StaysHalted i is s =
      (is_halted (step ops message i s).status ≡ true)
      × (torn_down_times ops (teardowns is) (step ops message i s).world
          ≡ torn_down_times ops (teardowns (i ∷ is)) s.world)

  after_still :
      (i : Input) (is : List Input) (s : System W)
      → teardowns (i ∷ is) ≡ teardowns is
      → Halted s.world (step ops message i s)
      → StaysHalted i is s
  unfolding StaysHalted
  after_still i is s same (still, kept) = (still, rw (kept, same) refl)

  step-Halted :
      (i : Input) (is : List Input) (s : System W) → is_halted s.status ≡ true → StaysHalted i is s
  unfolding step
  step-Halted (request r) is s c = after_still (request r) is s refl (request-Halted r s c)
  step-Halted teardown is s c = unfold StaysHalted handle_teardown in (c, refl)
  step-Halted (event e) is s c =
      after_still (event e) is s refl (receive-Halted s.receiver (event e) s c)
  step-Halted channel_closed is s c =
      after_still channel_closed is s refl (receive-Halted s.receiver channel_closed s c)
  step-Halted report is s c = after_still report is s refl (receive-Halted s.receiver report s c)

  -- A package that is upgrading, in error or broken stays in one of these, and the only operation that
  -- any input makes it run is the teardown, once for each `Teardown` message: nothing else touches the
  -- mounts, the units and the networks again.
  pub run-Halted :
      (is : List Input) (s : System W)
      → is_halted s.status ≡ true
      → (is_halted (run ops message is s).status ≡ true)
        × ((run ops message is s).world ≡ torn_down_times ops (teardowns is) s.world)
  unfolding run StaysHalted
  run-Halted [] s c = (c, refl)
  run-Halted (i ∷ is) s c =
      let (still, same) = step-Halted i is s c in
      let (later, kept) = run-Halted is (step ops message i s) still in (later, kept ∙ same)
