-- ===== src/Mount/Pkgfs.antt =====
-- `mount_pkgfs` and `unmount_pkgfs` of ssamd/src/mount.rs, with the feature `dm-verity`.
pub mod Layers
pub mod Stacked
pub mod Unmounts
pub mod Runs
use Prim.Native.Char.{code}
use Prim.Native.String.{◌++◌}
use ssam.Prelude
use ssam.Prelude.{
  ℕ, Bool, true, false, not, ◌&&◌, Option, none, some, List, String, Result, ok, err, str_eq,
  if◌then◌else◌, ok_or, ◌==◌, take,
}
use ssam.Paths.{join, contains_char}
use ssam.Superblock.{FsType, erofs, ext4}
use ssam.Mount.{PackageFsMetadata, Configuration, MountSystem, is_exact_mount}
use ssam.Mount.Overlay.{build_overlay_options}
use ssam.Mount.Device
use ssam.Mount.Device.{DeviceMapper, DeviceError, DmDevice, and_then, try, devnode, drop_device}

pub data PkgfsError : Type 0 where
  make_dirs_failed nul_in_options mount_failed unmount_failed overlayfs_root_empty attach_failed
        no_device_path :
      PkgfsError
  device_failed : DeviceError → PkgfsError

pub record AttachInfo : Type 0 where
  pub backing_file : String
  pub offset : ℕ
  pub length : ℕ

-- The loop devices, where `detach` stands for the drop of one; a random suffix, a digest of a text,
-- and bytes as hexadecimal text.
pub record System (S Dev : Type 0) : Type 0 where
  pub mounts : MountSystem S
  pub mapper : DeviceMapper S
  pub attach : AttachInfo → S → Option Dev × S
  pub loop_path : Dev → Option String
  pub detach : Dev → S → S
  pub new_suffix : S → String × S
  pub digest : String → List ℕ
  pub hex_encode : List ℕ → String

abbrev display : FsType → String
display erofs = "erofs"
display ext4 = "ext4"

-- `mount_overlayfs` gives these to the kernel.
unfoldable pub overlay_options : PackageFsMetadata → String
overlay_options meta =
    build_overlay_options meta.mount_point (join meta.overlayfs_root "upper")
      (join meta.overlayfs_root "work")

abbrev has_nul : Option String → Bool
has_nul none = false
has_nul (some options) = contains_char (λ c. code c == 0) options

module _ {S Dev : Type 0} (conf : Configuration) (system : System S Dev) where
  open system use {mounts, mapper, attach, loop_path, detach, new_suffix, digest, hex_encode}

  abbrev Reply : Type 0
  Reply = Result PkgfsError (Unit {0}) × S

  abbrev pub overlay_enabled : Bool
  overlay_enabled = not (str_eq conf.packages_overlayfs_root "")

  pub make_dirs : String → S → Reply
  make_dirs dirs s = try (mounts.create_dir_all dirs s) make_dirs_failed

  abbrev made_target : Bool → String → S → Reply
  made_target true target s = (ok tt, s)
  made_target false target s = make_dirs target s

  abbrev mount_unless_nul : Bool → String → String → String → Bool → Option String → S → Reply
  mount_unless_nul true source target fstype readonly options s = (err nul_in_options, s)
  mount_unless_nul false source target fstype readonly options s =
      try (mounts.mount source target fstype readonly options s) mount_failed

  pub do_mount : String → String → String → Bool → Option String → S → Reply
  unfolding make_dirs
  do_mount source target fstype readonly options s =
      and_then (made_target (mounts.exists s target) target s)
        (λ _ t. mount_unless_nul (has_nul options) source target fstype readonly options t)

  pub do_unmount : String → S → Reply
  do_unmount target s = try (mounts.unmount target s) unmount_failed

  mount_base : String → PackageFsMetadata → S → Reply
  unfolding do_mount
  mount_base blkdev meta s =
      do_mount blkdev meta.mount_point (display meta.packagefs_info.fstype) true none s

  -- The assertion that the root is not empty is an error here.
  mount_overlayfs : PackageFsMetadata → S → Reply
  unfolding do_mount make_dirs
  mount_overlayfs meta s =
      and_then (try (not (str_eq meta.overlayfs_root ""), s) overlayfs_root_empty) (λ _ s1.
        and_then (make_dirs (join meta.overlayfs_root "upper") s1) (λ _ s2.
          and_then (make_dirs (join meta.overlayfs_root "work") s2) (λ _ s3.
            do_mount "overlay" meta.mount_point "overlay" false (some (overlay_options meta)) s3)))

  -- If the overlay fails, the base is unmounted; an error of that is only logged.
  roll_back : PackageFsMetadata → Reply → Reply
  unfolding do_unmount
  roll_back meta (ok _, s) = (ok tt, s)
  roll_back meta (err e, s) = (err e, (do_unmount meta.mount_point s).1)

  with_overlay : Bool → PackageFsMetadata → S → Reply
  unfolding roll_back mount_overlayfs
  with_overlay false meta s = (ok tt, s)
  with_overlay true meta s = roll_back meta (mount_overlayfs meta s)

  unfoldable pub mount_device : String → PackageFsMetadata → S → Reply
  unfolding mount_base with_overlay
  mount_device blkdev meta s =
      and_then (mount_base blkdev meta s) (λ _ t. with_overlay overlay_enabled meta t)

  unmount_layer : Bool → PackageFsMetadata → S → Reply
  unfolding do_unmount
  unmount_layer false meta s = (ok tt, s)
  unmount_layer true meta s = do_unmount meta.mount_point s

  -- The overlay first, then the base, each only if something is mounted.
  unfoldable pub unmount_pkgfs : PackageFsMetadata → S → Reply
  unfolding unmount_layer
  unmount_pkgfs meta s =
      and_then (unmount_layer (overlay_enabled && is_exact_mount mounts s meta.mount_point) meta s)
        (λ _ t. unmount_layer (is_exact_mount mounts t meta.mount_point) meta t)

  unfoldable pub pkg_hash10 : String → String
  pkg_hash10 pkg = hex_encode (take 5 (digest pkg))

  abbrev verity_name : String → String → String
  verity_name pkg suffix = "ssam-" ++ (pkg_hash10 pkg ++ ("-verity-" ++ suffix))

  -- A value that goes out of scope is dropped, whatever the reply is.
  abbrev dropping : (S → S) → Reply → Reply
  dropping drop_value (r, s) = (r, drop_value s)

  mount_verity : PackageFsMetadata → Result DeviceError DmDevice × S → Reply
  unfolding mount_device
  mount_verity meta (err e, s) = (err (device_failed e), s)
  mount_verity meta (ok device, s) =
      dropping (drop_device mapper device) (mount_device (devnode mapper device) meta s)

  mount_suffixed : String → PackageFsMetadata → String → String × S → Reply
  unfolding mount_verity pkg_hash10
  mount_suffixed pkg meta loop_dev_path (suffix, s) =
      mount_verity meta
        (Device.new mapper (verity_name pkg suffix) loop_dev_path meta.packagefs_info.verity_info s)

  mount_path : String → PackageFsMetadata → Option String → S → Reply
  unfolding mount_suffixed
  mount_path pkg meta none s = (err no_device_path, s)
  mount_path pkg meta (some loop_dev_path) s = mount_suffixed pkg meta loop_dev_path (new_suffix s)

  mount_attached : String → PackageFsMetadata → Option Dev × S → Reply
  unfolding mount_path
  mount_attached pkg meta (none, s) = (err attach_failed, s)
  mount_attached pkg meta (some dev, s) =
      dropping (detach dev) (mount_path pkg meta (loop_path dev) s)

  abbrev attach_info : PackageFsMetadata → AttachInfo
  attach_info meta = record {
    backing_file = meta.path;
    offset = meta.packagefs_info.pkgfs_offset;
    length = meta.packagefs_info.length;
  }

  mount_unless : Bool → String → PackageFsMetadata → S → Reply
  unfolding mount_attached
  mount_unless true pkg meta s = (ok tt, s)
  mount_unless false pkg meta s = mount_attached pkg meta (attach (attach_info meta) s)

  unfoldable pub mount_pkgfs : String → PackageFsMetadata → S → Reply
  unfolding mount_unless
  mount_pkgfs pkg meta s = mount_unless (is_exact_mount mounts s meta.mount_point) pkg meta s
