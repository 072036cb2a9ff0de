-- ===== src/Lib.antt =====
-- SSAM, the manager of software packages on a vehicle: its daemon `ssamd` sets packages up, runs them
-- as units and tears them down; packages are signed files.
--
-- The parts that are modelled, and how they interact:
--   Prelude      `HashMap` as an association list, tests of machine integers and texts, results.
--   Network      Slots, Bridge and Pool are the three allocators of ssamd/src/network/allocator.rs;
--                Actor is `NetworkActor` (ssamd/src/network/actor.rs), which gives each bridge a
--                subnet from the pool and each veth an address on its bridge, and rolls back what the
--                host refuses; Restore rebuilds the actor's state when the daemon starts, and its
--                Scan reads the namespaces for that (ssamd/src/network/actor/restore.rs);
--                Pool also has `validate` of ssamd/src/configuration.rs. Ipnet is the interface of the
--                ipnet crate.
--   Lifecycle    the statuses of a package and its transition table (ssamd/src/package.rs,
--                ssamd/src/package/transition.rs); Manager is the actor that makes the transitions
--                (ssamd/src/package/state_machine.rs) with the status receiver of a package;
--                Transitioner is the default implementation of the operations that it calls.
--   Payload      signing and verifying the parts of a package file
--                (libssam/src/ssam_package/ssam_pkg_payload.rs).
--   Wrap         a package file as it is written and read (libssam/src/ssam_package.rs); it uses Payload.
--                Loading is `from_file_verified`.
--   Verity       the dm-verity table of a package's filesystem: what is made of its superblock
--                (libssam/src/ssam_package/verity.rs), and what the daemon makes of that. How the kernel
--                takes the table apart is the description `fields` of Verity/Lines.antt.
--   Superblock   the erofs and ext4 superblocks (libssam/src/superblock.rs).
--   Executor     a package as a unit of systemd (ssamd/src/executor/systemd.rs): start, stop and
--                teardown; Monitor tells the unit's states, Watcher is the wait for a job. Its results
--                are those that Lifecycle turns into statuses.
--   Bundle       the configuration of a container (module `oci` of ssamd/src/executor.rs).
--   Store        the maps of ssamd/src/package_manager/store.rs.
--   Paths        what is used of `std::path::Path`, and the two path tests of ssamd/src/utils.rs.
--   Volume       Projects is `QuotaProjectIdManager` and Directory is `DataDirectoryManager`
--                (ssamd/src/package_volume/data_directory.rs); Manager is the actor that holds the
--                volumes (ssamd/src/package_volume.rs). The quota calls and the directories are the
--                record `Kernel`.
--   Packages     Transaction is an installation with its rollbacks
--                (ssamd/src/package_manager/pkg_file.rs); Manager is `PackageManagerActor`
--                (ssamd/src/package_manager.rs), which loads the packages of two directories into
--                Store; its Requests are the messages to install, start and stop. The actors and
--                tasks that it asks are the record `System`.
--                Parser reads the package files of a directory
--                (ssamd/src/package_manager/parser.rs); it uses Wrap.
--   Mount        where a package's filesystem is mounted (ssamd/src/package_volume/package_fs.rs) and
--                the search of the mount table (ssamd/src/mount.rs). Attach is the retry of a loop
--                device, Overlay and Options are the options of an overlay mount, Device is the
--                dm-verity device (ssamd/src/dm/verity_device.rs), which uses the table of Verity, and
--                Pkgfs is mounting and unmounting. The kernel's mounts and its devices are the records
--                `MountSystem` and `DeviceMapper`; the mount table is a parameter of its own, since
--                `/proc/mounts` may be unreadable. `MountLaws` of Mount/Pkgfs/Layers.antt says what the
--                kernel does to the table: a mount or an unmount that succeeds adds or takes one line,
--                every other call leaves the lines of the mount point alone, and the mount point is a
--                directory, with a path that resolves, while something is mounted on it.
--   Tests        concrete inputs, and the theorems applied to them.
--
-- Functions keep the source's names; the helpers between them are the branches of a `match`. State is
-- passed on explicitly. The host, the mounts, the units and the crates ipnet and rsa are parameters;
-- what is assumed of them is a field or a hypothesis. A call of the host may answer anything.
--
-- A search for a free slot goes upwards by a step that is positive; its fuel is 2^32, the number of
-- keys, and each turn moves to a larger key. The attachment of a loop device is tried again while it is
-- refused; its fuel is one more than the two limits of retries together. No other loop needs fuel.
--
-- Not modelled: the status queries, the properties of a unit, the seccomp text, the quota system
-- calls, the ioctls of loop devices and of the device mapper, the removal of links that no namespace
-- has, the remote control server, the client, the builder and the log router; the
-- binary coding of the payload table. The tasks that `setup` spawns run one after the other. Project ids
-- are unbounded numbers up to the test against 2^31 - 1. A copy of a package file is whole or fails.
pub mod Prelude
pub mod Network
pub mod Lifecycle
pub mod Payload
pub mod Store
pub mod Paths
pub mod Volume
pub mod Packages
pub mod Wrap
pub mod Verity
pub mod Superblock
pub mod Executor
pub mod Bundle
pub mod Mount
pub mod Tests
