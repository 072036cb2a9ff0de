-- ===== src/Lifecycle/Transitioner.antt =====
-- `DefaultPackageTransitioner` and `LazyExecutor` of ssamd/src/package.rs, over the parts of the
-- daemon that they drive. Each task of `setup` works on a part of its own, so the order in which
-- they run does not show. An error is its text `{:#}`: its contexts in front of its cause.
pub mod Filesystem
pub mod Initialised
use Prim.Native.String.{◌++◌}
use ssam.Prelude.{
  Bool, true, false, Option, none, some, String, Result, ok, err, ◌>>=◌, ◌>>◌, map_err,
  if◌then◌else◌,
}
use ssam.Lifecycle.Manager.{ExecutionResult, PackageTransitioner}

abbrev pub Reply : Type 0
Reply = Result String (Unit {0})

-- The interfaces of the parts: executors of type `E` in an environment `X`, the package filesystem
-- `F` (`PackageFsBackend`), the container bundle `C` (`ExecuteCommand`) and the network `N`
-- (`NetworkManager`).
pub record Parts (E X F C N : Type 0) : Type 0 where
  pub new_executor : X → Result String E × X
  pub start_unit : E → X → Result String ExecutionResult × X
  pub stop_unit : E → X → Result String ExecutionResult × X
  pub teardown_unit : E → X → Reply × X
  pub mount : F → Reply × F
  pub unmount : F → Reply × F
  pub prepare : C → Reply × C
  pub create_netns : N → Reply × N
  pub attach : N → Reply × N
  pub detach : N → Reply × N
  pub destroy_netns : N → Reply × N

-- The cell is written once; the arguments are taken by the first attempt to fill it.
pub record LazyExecutor (E : Type 0) : Type 0 where
  pub init_args : Bool
  pub cell : Option E

pub record World (E X F C N : Type 0) : Type 0 where
  pub executor : LazyExecutor E
  pub units : X
  pub fs : F
  pub bundle : C
  pub net : N

abbrev map_ok : {E : Type 0} → Result String E → Reply
map_ok (ok _) = ok tt
map_ok (err t) = err t

-- `with_context`: `{:#}` prints the context, a colon and the cause.
abbrev pub context {ℓ} : {A : Type ℓ} → String → Result String A → Result String A
context text = map_err (λ cause. text ++ (": " ++ cause))

module _ {E X F C N : Type 0} (parts : Parts E X F C N) (has_network : Bool) (name : String) where
  open parts use {
    new_executor, start_unit, stop_unit, teardown_unit, mount, unmount, prepare, create_netns,
    attach, detach, destroy_netns,
  }

  abbrev pub W : Type 0
  W = World E X F C N

  fill_cell : Result String E × X → LazyExecutor E → Result String E × LazyExecutor E × X
  fill_cell (ok e, x) l = (ok e, record { init_args = false; cell = some e }, x)
  fill_cell (err t, x) l = (err t, record l { init_args = false }, x)

  initialise : Bool → LazyExecutor E → X → Result String E × LazyExecutor E × X
  unfolding fill_cell
  initialise true l x = fill_cell (new_executor x) l
  initialise false l x = (err "executor init args already consumed by a prior init attempt", l, x)

  get_cell : Option E → LazyExecutor E → X → Result String E × LazyExecutor E × X
  unfolding initialise
  get_cell (some e) l x = (ok e, l, x)
  get_cell none l x = initialise l.init_args l x

  -- `LazyExecutor::get`
  unfoldable pub get_executor : LazyExecutor E → X → Result String E × LazyExecutor E × X
  unfolding get_cell
  get_executor l x = get_cell l.cell l x

  remount : Reply × F → Reply × F
  remount (ok _, f) = mount f
  remount (err t, f) = (err (name ++ (": Failed to unmount package fs during retry: " ++ t)), f)

  mount_retry : Reply × F → Reply × F
  unfolding remount
  mount_retry (ok _, f) = (ok tt, f)
  mount_retry (err t, f) = remount (unmount f)

  -- The mount task of `setup`.
  unfoldable pub mount_task : F → Reply × F
  unfolding mount_retry
  mount_task f =
      let (r, f') = mount_retry (mount f) in
      (context (name ++ ": Failed to mount package fs") r, f')

  netns_created : Reply × N → Reply × N
  netns_created (ok _, n) = attach n
  netns_created (err t, n) = (err t, n)

  netns_task : Bool → N → Reply × N
  unfolding netns_created
  netns_task true n = netns_created (create_netns n)
  netns_task false n = (ok tt, n)

  unfoldable pub setup : W → Reply × W
  unfolding netns_task
  setup w =
      let (executor_result, executor, units) = get_executor w.executor w.units in
      let (mount_result, fs) = mount_task w.fs in
      let (prepare_result, bundle) = prepare w.bundle in
      let (netns_result, net) = netns_task has_network w.net in
      (
        (do
          context (name ++ ": Error on initialize LazyExecutor") (map_ok executor_result)
          context (name ++ ": Error on prepare container bundle") prepare_result
          context (name ++ ": Error on attach bridge network") netns_result
          context (name ++ ": Error on mount") mount_result),
        record { executor = executor; units = units; fs = fs; bundle = bundle; net = net },
      )

  -- The best-effort teardown of the network.
  drop_network : Bool → N → N
  drop_network true n = (destroy_netns (detach n).1).1
  drop_network false n = n

  unmount_in : W → Reply × W
  unmount_in w =
      let (r, fs) = unmount w.fs in
      (context (name ++ ": Failed to unmount package fs") r, record w { fs = fs })

  unfoldable pub cleanup : W → Reply × W
  unfolding drop_network unmount_in
  cleanup w = unmount_in (record w { net = drop_network has_network w.net })

  with_executor :
      (E → X → Result String ExecutionResult × X)
      → Result String E × LazyExecutor E × X
      → W
      → Result String ExecutionResult × W
  with_executor f (err t, l, x) w = (err t, record w { executor = l; units = x })
  with_executor f (ok e, l, x) w = let (r, x') = f e x in (r, record w { executor = l; units = x' })

  unfoldable pub start : W → Result String ExecutionResult × W
  unfolding with_executor
  start w = with_executor start_unit (get_executor w.executor w.units) w

  unfoldable pub stop : W → Result String ExecutionResult × W
  unfolding with_executor
  stop w = with_executor stop_unit (get_executor w.executor w.units) w

  -- An executor that was never made is not torn down, and a failure is only logged.
  teardown_executor : Option E → X → X
  teardown_executor none x = x
  teardown_executor (some e) x = (teardown_unit e x).1

  unfoldable pub teardown : W → Reply × W
  unfolding teardown_executor drop_network unmount_in
  teardown w = unmount_in (record w {
    units = teardown_executor w.executor.cell w.units;
    net = drop_network has_network w.net;
  })

  unfoldable pub transitioner : PackageTransitioner W
  transitioner = record {
    setup = setup;
    cleanup = cleanup;
    start = start;
    stop = stop;
    teardown = teardown;
  }
