-- ===== src/Lifecycle/Manager/Mounts.antt =====
-- The status says whether the package filesystem is mounted.
use ssam.Prelude.{◌≡◌, ap, Bool, true, false, not, ◌&&◌, ◌||◌, List, [], ◌∷◌, String, ok, arith}
use ssam.Lifecycle.{
  PackageStatus, verified, ready, running, cleaned, upgrading, error, broken, status_eq,
  find_transition, ignore_without_error,
}
use ssam.Lifecycle.Manager.{
  ExecutionStatus, active, inactive, PackageTransitioner, TransitionError, System, Receiver,
  listening, failing, Input, request, teardown, event, channel_closed, report, Request,
  request_setup, request_cleanup, request_start, request_stop, prepare_upgrade, request_target,
  status_of, result_status, handle, transition_to, receive, step, run, initial, handle_teardown,
  package_teardown,
}

-- What the operations do to the mount: a successful one leaves it mounted or unmounted,
-- and a teardown mounts nothing.
pub record MountLaws {W : Type 0} (ops : PackageTransitioner W) (mounted : W → Bool) : Type 0 where
  pub setup_ok : (w : W) → (ops.setup w).0 ≡ ok tt → mounted (ops.setup w).1 ≡ true
  pub cleanup_ok : (w : W) → (ops.cleanup w).0 ≡ ok tt → mounted (ops.cleanup w).1 ≡ false
  pub teardown_ok : (w : W) → (ops.teardown w).0 ≡ ok tt → mounted (ops.teardown w).1 ≡ false
  pub teardown_keeps : (w : W) → mounted w ≡ false → mounted (ops.teardown w).1 ≡ false
  pub start_keeps : (w : W) → mounted (ops.start w).1 ≡ mounted w
  pub stop_keeps : (w : W) → mounted (ops.stop w).1 ≡ mounted w

-- A package that is ready or running is mounted, unless it is torn down; one that is verified, cleaned
-- or upgrading is not mounted; one in error or broken may be either. No other status is seen.
abbrev pub fits : PackageStatus → Bool → Bool → Bool
fits verified torn m = not m
fits cleaned torn m = not m
fits upgrading torn m = not m
fits ready torn m = torn || m
fits (running _) torn m = torn || m
fits (error _) torn m = true
fits (broken _) torn m = true
fits _ torn m = false

abbrev pub is_down : PackageStatus → Bool
is_down verified = true
is_down cleaned = true
is_down upgrading = true
is_down _ = false

abbrev pub is_teardown : Input → Bool
is_teardown teardown = true
is_teardown _ = false

module _ {W : Type 0} (ops : PackageTransitioner W) (message : TransitionError → String) where
  -- Whether a `Teardown` message was handled since the package was last seen verified, cleaned or
  -- upgrading; the flag says whether one was before these inputs.
  abbrev pub torn_since : Bool → List Input → System W → Bool
  torn_since torn [] s = torn
  torn_since torn (i ∷ is) s =
      torn_since (not (is_down (step ops message i s).status) && (torn || is_teardown i)) is
        (step ops message i s)

module _ {W : Type 0} (ops : PackageTransitioner W) (mounted : W → Bool)
    (laws : MountLaws ops mounted) where
  request-fits :
      (r : Request) (torn : Bool) (current : PackageStatus) (w : W)
      → fits current torn (mounted w) ≡ true
      → let out = transition_to ops current (request_target r) w in
        fits out.status torn (mounted out.world) ≡ true
  unfolding transition_to status_eq find_transition ignore_without_error handle result_status
      request_target
  request-fits request_setup torn current w c = ground (arith, laws.setup_ok w)
  request-fits request_cleanup torn current w c = ground (arith, laws.cleanup_ok w)
  request-fits request_start torn current w c = ground (arith, laws.start_keeps w)
  request-fits request_stop torn current w c = ground (arith, laws.stop_keeps w)
  request-fits prepare_upgrade torn current w c = ground (arith, laws.teardown_ok w)

  event-fits :
      (e : ExecutionStatus) (torn : Bool) (current : PackageStatus) (w : W)
      → fits current torn (mounted w) ≡ true
      → let out = transition_to ops current (status_of e) w in
        fits out.status torn (mounted out.world) ≡ true
  unfolding transition_to status_eq find_transition ignore_without_error handle status_of
  event-fits (active t) torn current w c = ground arith
  event-fits (inactive t) torn current w c = ground arith

  error-fits :
      (text : String) (torn : Bool) (current : PackageStatus) (w : W)
      → fits current torn (mounted w) ≡ true
      → let out = transition_to ops current (error text) w in
        fits out.status torn (mounted out.world) ≡ true
  unfolding transition_to status_eq find_transition ignore_without_error handle
  error-fits text torn current w c = ground arith

  -- Tearing a package down leaves it unmounted when it reports success, also in the states where it
  -- does nothing.
  pub teardown_unmounts :
      (status : PackageStatus) (torn : Bool) (w : W)
      → fits status torn (mounted w) ≡ true
      → (package_teardown ops status w).0 ≡ ok tt
      → mounted (package_teardown ops status w).2 ≡ false
  unfolding package_teardown handle_teardown
  teardown_unmounts status torn w c e = ground (arith, laws.teardown_ok w)

  module _ (message : TransitionError → String) where
    abbrev Fits : Bool → System W → Type 0
    Fits torn s = fits s.status torn (mounted s.world) ≡ true

    receive-Fits :
        (v : Receiver) (i : Input) (torn : Bool) (s : System W)
        → Fits torn s
        → Fits torn (receive ops message v i s)
    unfolding receive
    receive-Fits listening (event e) torn s c = event-fits e torn s.status s.world c
    receive-Fits (failing text) report torn s c = error-fits text torn s.status s.world c
    receive-Fits _ _ torn s c = c

    -- The flag is not looked at while the package is down.
    cleared :
        (status : PackageStatus) (torn m : Bool)
        → fits status torn m ≡ true
        → fits status (not (is_down status) && (torn || false)) m ≡ true
    cleared status torn m c = ground arith

    torn_down-fits :
        (status : PackageStatus) (torn : Bool) (w : W)
        → fits status torn (mounted w) ≡ true
        → fits status (not (is_down status) && (torn || true)) (mounted (handle_teardown ops w).1)
          ≡ true
    unfolding handle_teardown
    torn_down-fits status torn w c = ground (arith, laws.teardown_keeps w)

    step-Fits :
        (i : Input) (torn : Bool) (s : System W)
        → Fits torn s
        → Fits
            (not (is_down (step ops message i s).status) && (torn || is_teardown i))
            (step ops message i s)
    unfolding step
    step-Fits (request r) torn s c = cleared _ torn _ (request-fits r torn s.status s.world c)
    step-Fits teardown torn s c = torn_down-fits s.status torn s.world c
    step-Fits (event e) torn s c = cleared _ torn _ (receive-Fits s.receiver (event e) torn s c)
    step-Fits channel_closed torn s c =
        cleared _ torn _ (receive-Fits s.receiver channel_closed torn s c)
    step-Fits report torn s c = cleared _ torn _ (receive-Fits s.receiver report torn s c)

    run_from-Fits :
        (is : List Input) (torn : Bool) (s : System W)
        → Fits torn s
        → Fits (torn_since ops message torn is s) (run ops message is s)
    unfolding run
    run_from-Fits [] torn s c = c
    run_from-Fits (i ∷ is) torn s c =
        run_from-Fits is (not (is_down (step ops message i s).status) && (torn || is_teardown i))
          (step ops message i s) (step-Fits i torn s c)

    pub run-Fits :
        (is : List Input) (w : W)
        → mounted w ≡ false
        → Fits (torn_since ops message false is (initial w)) (run ops message is (initial w))
    run-Fits is w e = run_from-Fits is false (initial w) (unfold initial in ap not e)
