-- ===== src/Mount.antt =====
-- Mounting a package's filesystem (ssamd/src/mount.rs, ssamd/src/package_volume/package_fs.rs): what
-- a package file says of it, which calls of the system are used, and the test for a live mount. The
-- system is a parameter; a path is its text.
pub mod Attach
pub mod Overlay
pub mod Options
pub mod Device
pub mod Pkgfs
pub mod Exact
use Prim.Native.Char.{Char, code}
use Prim.Native.String
use ssam.Prelude.{
  ℕ, ◌+◌, Bool, true, false, ◌&&◌, Option, none, some, List, [], ◌∷◌, String, Result, ok, err, ltb,
  str_eq, if◌then◌else◌, ensure, ok_or, ◌>>=◌, ◌>>◌,
}
use ssam.Paths.{
  Component, root_dir, cur_dir, parent_dir, normal, components, join, is_safe_path_segment,
}
use ssam.Superblock.{FsType}
use ssam.Verity.{PackageFsVerityInfo}

pub record PackageFsInfo : Type 0 where
  pub fstype : FsType
  pub pkgfs_offset : ℕ
  pub length : ℕ
  pub verity_info : PackageFsVerityInfo

pub record PackageFsMetadata : Type 0 where
  pub path : String
  pub mount_point : String
  pub overlayfs_root : String
  pub packagefs_info : PackageFsInfo

-- What is read of a package file: its name, and its filesystem with the extent in the file.
pub record PackageFileInfo : Type 0 where
  pub package_name : String
  pub pkgfs : Option (FsType × Option (ℕ × ℕ) × PackageFsVerityInfo)

pub record Configuration : Type 0 where
  pub packages_mnt_root : String
  pub packages_overlayfs_root : String

pub data MetadataError : Type 0 where
  no_pkgfs unsafe_package_name no_extent : MetadataError

abbrev overlayfs_root_of : Configuration → String → String
overlayfs_root_of conf name =
    if str_eq conf.packages_overlayfs_root "" then "" else join conf.packages_overlayfs_root name

-- `PackageFsMetadata::new`
unfoldable pub new :
    Configuration → String → PackageFileInfo → Result MetadataError PackageFsMetadata
new conf path file = do
  info ← ok_or file.pkgfs no_pkgfs
  ensure (is_safe_path_segment file.package_name) unsafe_package_name
  extent ← ok_or info.1 no_extent
  ok (record {
    path = path;
    mount_point = join conf.packages_mnt_root file.package_name;
    overlayfs_root = overlayfs_root_of conf file.package_name;
    packagefs_info = record {
      fstype = info.0;
      pkgfs_offset = extent.0;
      length = extent.1;
      verity_info = info.2;
    };
  })

-- The calls on mounts, in a state `S` of the system. `mounts` gives the mount point of each line of
-- `/proc/mounts`; a mount has a source, a target, a type, a flag for read only, and options.
pub record MountSystem (S : Type 0) : Type 0 where
  pub is_dir : S → String → Bool
  pub exists : S → String → Bool
  pub canonicalize : S → String → Option String
  pub mounts : S → Option (List String)
  pub create_dir_all : String → S → Bool × S
  pub mount : String → String → String → Bool → Option String → S → Bool × S
  pub unmount : String → S → Bool × S

abbrev pub component_eq : Component → Component → Bool
component_eq root_dir root_dir = true
component_eq cur_dir cur_dir = true
component_eq parent_dir parent_dir = true
component_eq (normal s) (normal t) = str_eq s t
component_eq _ _ = false

abbrev pub components_eq : List Component → List Component → Bool
components_eq [] [] = true
components_eq (c ∷ cs) (d ∷ ds) = component_eq c d && components_eq cs ds
components_eq _ _ = false

abbrev pub is_prefix : List Component → List Component → Bool
is_prefix [] ds = true
is_prefix (c ∷ cs) [] = false
is_prefix (c ∷ cs) (d ∷ ds) = component_eq c d && is_prefix cs ds

-- `Path` equality and `Path::starts_with`
abbrev pub path_eq : String → String → Bool
path_eq p q = components_eq (components p) (components q)

abbrev pub starts_with : String → String → Bool
starts_with p base = is_prefix (components base) (components p)

-- The bytes of a text in UTF-8.
abbrev utf8_len : Char → ℕ
utf8_len c =
    if ltb (code c) 0x80
    then 1
    else if ltb (code c) 0x800
    then 2
    else if ltb (code c) 0x10000
    then 3
    else 4

unfoldable pub len : String → ℕ
len String.[] = 0
len (String.◌∷◌ c s) = utf8_len c + len s

-- `max_by_key`: of equal keys the last one counts. What is kept is the first of each pair.
unfoldable pub max_by_len : Option (String × ℕ) → List (String × ℕ) → Option (String × ℕ)
max_by_len best [] = best
max_by_len none (c ∷ cs) = max_by_len (some c) cs
max_by_len (some b) (c ∷ cs) = max_by_len (some (if ltb c.1 b.1 then b else c)) cs

abbrev first_of : Option (String × ℕ) → Option String
first_of none = none
first_of (some b) = some b.0

module _ {S : Type 0} (system : MountSystem S) where
  open system use {is_dir, canonicalize, mounts}

  abbrev or_raw : String → Option String → String
  or_raw p none = p
  or_raw p (some q) = q

  abbrev pub canonicalize_or_raw : S → String → String
  canonicalize_or_raw s p = or_raw p (canonicalize s p)

  -- The mount points that the target lies in, with the length of their resolved paths.
  unfoldable pub enclosing : S → String → List String → List (String × ℕ)
  enclosing s target [] = []
  enclosing s target (m ∷ ms) =
      let rest = enclosing s target ms in
      if starts_with target (canonicalize_or_raw s m)
      then (m, len (canonicalize_or_raw s m)) ∷ rest
      else rest

  unfoldable pub best_match : S → String → Option (List String) → Option String
  best_match s target none = none
  best_match s target (some ms) =
      first_of (max_by_len none (enclosing s (canonicalize_or_raw s target) ms))

  -- `findmnt_impl`; `none` stands for an error.
  unfoldable pub findmnt : S → String → Option String
  unfolding best_match
  findmnt s target = if is_dir s target then best_match s target (mounts s) else none

  abbrev is_found : S → String → Option String → Bool
  is_found s mount_point none = false
  is_found s mount_point (some found) =
      path_eq (canonicalize_or_raw s found) (canonicalize_or_raw s mount_point)

  unfoldable pub is_exact_mount : S → String → Bool
  unfolding findmnt
  is_exact_mount s mount_point = is_found s mount_point (findmnt s mount_point)
