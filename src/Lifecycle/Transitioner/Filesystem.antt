-- ===== src/Lifecycle/Transitioner/Filesystem.antt =====
-- The mount state under the operations of `DefaultPackageTransitioner`.
use ssam.Prelude.{◌≡◌, Bool, true, false, List, String, ok, arith}
use ssam.Lifecycle.Manager.{TransitionError, Input, run, initial}
use ssam.Lifecycle.Manager.Mounts.{MountLaws, fits, torn_since, run-Fits}
use ssam.Lifecycle.Transitioner.{
  Parts, World, mount_task, setup, cleanup, start, stop, teardown, transitioner,
}

-- What `PackageFsBackend` promises: a call that succeeds did what it says, and an unmount mounts
-- nothing.
pub record FsLaws {E X F C N : Type 0} (parts : Parts E X F C N) (mounted : F → Bool) : Type 0 where
  pub mount_ok : (f : F) → (parts.mount f).0 ≡ ok tt → mounted (parts.mount f).1 ≡ true
  pub unmount_ok : (f : F) → (parts.unmount f).0 ≡ ok tt → mounted (parts.unmount f).1 ≡ false
  pub unmount_keeps : (f : F) → mounted f ≡ false → mounted (parts.unmount f).1 ≡ false

module _ {E X F C N : Type 0} (parts : Parts E X F C N) (has_network : Bool) (name : String)
    (mounted : F → Bool) (laws : FsLaws parts mounted) where
  abbrev pub is_mounted : World E X F C N → Bool
  is_mounted w = mounted w.fs

  mount_task-mounted :
      (f : F)
      → (mount_task parts has_network name f).0 ≡ ok tt
      → mounted (mount_task parts has_network name f).1 ≡ true
  unfolding mount_task
  mount_task-mounted f e =
      ground (arith, laws.mount_ok f, laws.mount_ok (parts.unmount (parts.mount f).1).1)

  pub transitioner-MountLaws : MountLaws (transitioner parts has_network name) is_mounted
  unfolding transitioner setup cleanup start stop teardown
  transitioner-MountLaws = record {
    setup_ok = λ w e. ground (arith, mount_task-mounted w.fs);
    cleanup_ok = λ w e. ground (arith, laws.unmount_ok w.fs);
    teardown_ok = λ w e. ground (arith, laws.unmount_ok w.fs);
    teardown_keeps = λ w e. ground (arith, laws.unmount_keeps w.fs);
    start_keeps = λ w. ground arith;
    stop_keeps = λ w. ground arith;
  }

  -- Where an unmount that succeeds leaves nothing mounted, a mount that succeeds leaves the package
  -- mounted, and an unmount mounts nothing, a package that starts unmounted is unmounted whenever it is
  -- seen verified, cleaned or upgrading, after any inputs in any order, teardowns included; and it is
  -- mounted whenever it is seen ready or running, unless a `Teardown` message was handled since it was
  -- last seen verified, cleaned or upgrading.
  pub status-fits_mount :
      (message : TransitionError → String) (is : List Input) (w : World E X F C N)
      → mounted w.fs ≡ false
      → let ops = transitioner parts has_network name in
        let s = run ops message is (initial w) in
        fits s.status (torn_since ops message false is (initial w)) (mounted s.world.fs) ≡ true
  status-fits_mount message is w e =
      run-Fits (transitioner parts has_network name) is_mounted transitioner-MountLaws message is w
        e
