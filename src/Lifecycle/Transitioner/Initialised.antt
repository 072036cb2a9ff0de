-- ===== src/Lifecycle/Transitioner/Initialised.antt =====
-- The executor is made at most once.
use ssam.Prelude.{◌≡◌, Bool, true, false, Option, none, some, String, ok, err, arith}
use ssam.Lifecycle.Transitioner.{Parts, LazyExecutor, get_executor}

module _ {E X F C N : Type 0} (parts : Parts E X F C N) (has_network : Bool) (name : String) where
  -- The environment of a later call is untouched, so the executor is not made again.
  get_cell_once :
      (o : Option E) (b : Bool) (x y : X) {e : E}
      → let first = get_executor parts has_network name (record { init_args = b; cell = o }) x in
        first.0 ≡ ok e → get_executor parts has_network name first.1 y ≡ (ok e, first.1, y)
  unfolding get_executor
  get_cell_once (some e) b x y h = ground arith
  get_cell_once none true x y h = ground arith
  get_cell_once none false x y h = cc

  get_cell_failed :
      (o : Option E) (b : Bool) (x y : X) {t : String}
      → let first = get_executor parts has_network name (record { init_args = b; cell = o }) x in
        first.0 ≡ err t
        → get_executor parts has_network name first.1 y
          ≡ (err "executor init args already consumed by a prior init attempt", first.1, y)
  unfolding get_executor
  get_cell_failed (some e) b x y h = cc
  get_cell_failed none true x y h = ground arith
  get_cell_failed none false x y h = ground arith

  -- An executor that was obtained is the one of every later call, and a later call after a failure
  -- fails too; neither makes an executor or touches the environment.
  pub get_executor_once :
      (l : LazyExecutor E) (x y : X)
      → let first = get_executor parts has_network name l x in
        ((e : E)
          → first.0 ≡ ok e
          → get_executor parts has_network name first.1 y ≡ (ok e, first.1, y))
        × ((t : String)
            → first.0 ≡ err t
            → get_executor parts has_network name first.1 y
              ≡ (err "executor init args already consumed by a prior init attempt", first.1, y))
  get_executor_once l x y = (
    λ e h. get_cell_once l.cell l.init_args x y h,
    λ t h. get_cell_failed l.cell l.init_args x y h,
  )
