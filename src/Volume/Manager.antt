-- ===== src/Volume/Manager.antt =====
-- `PackageVolumeManagerActor` (ssamd/src/package_volume.rs): the live volumes by package name.
pub mod Isolated
use ssam.Prelude.{
  ℕ, Bool, true, false, Option, none, some, List, [], ◌∷◌, String, HashMap, get, insert, remove,
  Result, ok, err, map_err,
}
use ssam.Volume.Directory.{
  Kernel, DataDirectory, DataDirMetadata, DirectoryError, QuotaInfo, create_data_directory,
  remove_data_directory,
}

-- `PackageVolumeInner`: the filesystem's metadata `F` and the data directory.
pub record PackageVolume (F : Type 0) : Type 0 where
  pub package_name : String
  pub pkgfs : F
  pub data_directory : Option DataDirectory

pub record PackageVolumeMetadata (F : Type 0) : Type 0 where
  pub package_name : String
  pub pkgfs_meta : F
  pub data_meta : DataDirMetadata

-- `ids` is the map of the project id manager; the flag says whether there is a quota system.
pub record VolumeManager (F : Type 0) : Type 0 where
  pub has_quota : Bool
  pub ids : HashMap ℕ
  pub volumes : HashMap (PackageVolume F)

directory_of : Result DirectoryError DataDirectory → Option DataDirectory
directory_of (ok d) = some d
directory_of (err e) = none

module _ {F X : Type 0} (kernel : Kernel X) where
  -- A data directory that cannot be made is only logged; an old volume is replaced.
  unfoldable pub handle_acquire_volume :
      VolumeManager F → PackageVolumeMetadata F → X → PackageVolume F × VolumeManager F × X
  unfolding directory_of
  handle_acquire_volume m meta x =
      let (created, ids, x') = create_data_directory kernel m.has_quota m.ids meta.data_meta x in
      let volume : PackageVolume F = record {
        package_name = meta.package_name;
        pkgfs = meta.pkgfs_meta;
        data_directory = directory_of created;
      } in
      (volume, record m { ids = ids; volumes = insert m.volumes meta.package_name volume }, x')

  drop_directory :
      Option DataDirectory
      → VolumeManager F
      → X
      → Result DirectoryError (Unit {0}) × VolumeManager F × X
  drop_directory none m x = (ok tt, m, x)
  drop_directory (some d) m x =
      let (r, ids, x') = remove_data_directory kernel m.ids d x in (r, record m { ids = ids }, x')

  purge_found :
      Option (PackageVolume F)
      → VolumeManager F
      → String
      → X
      → Result DirectoryError (Unit {0}) × VolumeManager F × X
  unfolding drop_directory
  purge_found none m name x = (ok tt, m, x)
  purge_found (some v) m name x =
      drop_directory v.data_directory (record m { volumes = remove m.volumes name }) x

  -- The volume is taken out of the map before its directory is removed.
  unfoldable pub handle_purge_volume :
      VolumeManager F → String → X → Result DirectoryError (Unit {0}) × VolumeManager F × X
  unfolding purge_found
  handle_purge_volume m name x = purge_found (get m.volumes name) m name x

limit_of_quota : Option QuotaInfo → Option ℕ
limit_of_quota none = none
limit_of_quota (some q) = q.block_limit

limit_of_directory : Option DataDirectory → Option ℕ
unfolding limit_of_quota
limit_of_directory none = none
limit_of_directory (some d) = limit_of_quota d.quota_info

limit_of : {F : Type 0} → Option (PackageVolume F) → Option ℕ
unfolding limit_of_directory
limit_of none = none
limit_of (some v) = limit_of_directory v.data_directory

unfoldable pub handle_get_quota_info : {F : Type 0} → VolumeManager F → String → Option ℕ
unfolding limit_of
handle_get_quota_info m name = limit_of (get m.volumes name)
