-- ===== src/Packages/Manager.antt =====
-- `PackageManagerActor` (ssamd/src/package_manager.rs): the packages by name, loaded from the bundled
-- and the downloaded directory, and the requests to install, remove, start and stop them.
pub mod Bundled
pub mod Reload
pub mod Requests
pub mod Downgrade
use Prim.Native.String.{◌++◌}
use ssam.Prelude.{
  Bool, true, false, not, ◌&&◌, ◌||◌, Option, none, some, List, [], ◌∷◌, String, HashMap, get,
  Result, ok, err, ◌>>=◌, ◌>>◌, ensure, map_err, if◌then◌else◌, str_eq,
}
use ssam.Paths.{
  Component, root_dir, cur_dir, parent_dir, normal, components, join, is_safe_path_segment,
}
use ssam.Lifecycle.{BrokenReason}
use ssam.Store.{
  HashMapPackageStore, get_package, insert_package, remove_package, get_broken, insert_broken,
  remove_broken, get_bundled_path, insert_bundled_path, clear_all, clear, clear_broken,
}
use ssam.Packages.Transaction.{InstallMode, fresh, upgrade_bundled, upgrade_downloaded}

pub record BrokenPackageInfo : Type 0 where
  pub package_path : String
  pub broken_info : BrokenReason

-- `PackageParseResult`: a file that is no valid package goes by its file name.
pub record PackageParseResult (PF : Type 0) : Type 0 where
  pub package_name : String
  pub path : String
  pub package_file : Result String PF

-- What `do_install` is asked for, less the metadata of the volume.
pub record InstallInfo (PF : Type 0) : Type 0 where
  pub package_name : String
  pub package_file : PF
  pub path : String
  pub dest : String

-- The packages `P`, the package files `PF`, and the rest of the daemon with its state `E`: the
-- transaction actor, the parser and the file system.
pub record System (PF P E : Type 0) : Type 0 where
  pub path_of : P → String
  pub name_of : P → String
  -- The version of the file is at most that of the package.
  pub not_newer : PF → P → Bool
  pub reason : String → BrokenReason
  pub packages_ext : String
  pub exists : String → E → Bool
  pub is_package_file : String → E → Bool
  pub canonicalize : String → E → Option String
  pub parse_package : String → E → Result String (PackageParseResult PF)
  pub parse_packages_from_dir : String → E → List (Result String (PackageParseResult PF))
  pub volume_metadata : String → PF → Result String (Unit {0})
  pub create_package : String → PF → E → Result String P × E
  pub install : InstallInfo PF → Bool → InstallMode → E → Result String P × E
  pub remove_package_file : String → E → Result String Bool × E
  pub purge_volume : String → E → Result String (Unit {0}) × E
  pub prepare_upgrade : P → E → Result String (Unit {0}) × E
  pub teardown : P → E → Result String (Unit {0}) × E
  pub request_start : P → E → Result String (Unit {0}) × E
  pub request_stop : P → E → Result String (Unit {0}) × E

abbrev pub component_eq : Component → Component → Bool
component_eq root_dir root_dir = true
component_eq cur_dir cur_dir = true
component_eq parent_dir parent_dir = true
component_eq (normal s) (normal t) = str_eq s t
component_eq _ _ = false

-- `Path::starts_with`, on components
abbrev pub has_prefix : List Component → List Component → Bool
has_prefix cs [] = true
has_prefix [] (d ∷ ds) = false
has_prefix (c ∷ cs) (d ∷ ds) = component_eq c d && has_prefix cs ds

-- `path.parent() == Some(dir)`: one component more than the directory.
abbrev pub is_child : List Component → List Component → Bool
is_child [] ds = false
is_child (normal s ∷ []) [] = true
is_child (cur_dir ∷ []) [] = true
is_child (parent_dir ∷ []) [] = true
is_child (root_dir ∷ []) [] = false
is_child (c ∷ d ∷ cs) [] = false
is_child (c ∷ cs) (d ∷ ds) = component_eq c d && is_child cs ds

abbrev pub Store : Type 0 → Type 0
Store P = HashMapPackageStore P BrokenPackageInfo

module _ {PF P E : Type 0} (sys : System PF P E) (bundled_dir downloaded_dir : String) where
  open sys use {
    path_of, name_of, not_newer, reason, packages_ext, exists, is_package_file, canonicalize,
    parse_package, parse_packages_from_dir, volume_metadata, create_package, install,
    remove_package_file, purge_volume, prepare_upgrade, teardown, request_start, request_stop,
  }

  abbrev pub Manager : Type 0
  Manager = Store P × E

  -- `canonicalize().unwrap_or_else(|_| path.clone())`
  canonical_or : Option String → String → String
  canonical_or none path = path
  canonical_or (some p) path = p

  stored : Result String P × E → PackageParseResult PF → Store P → Manager
  unfolding canonical_or
  stored (ok p, e) parsed s = ((insert_package s parsed.package_name p).1, e)
  stored (err t, e) parsed s = (
    insert_broken s parsed.package_name (record {
      package_path = canonical_or (canonicalize parsed.path e) parsed.path;
      broken_info = reason t;
    }),
    e,
  )

  created : Result String PF → String → E → Result String P × E
  created (ok file) path e = create_package path file e
  created (err t) path e = (err t, e)

  unfoldable pub load_parsed_package : PackageParseResult PF → Manager → Manager
  unfolding stored created
  load_parsed_package parsed (s, e) = stored (created parsed.package_file parsed.path e) parsed s

  -- Files that have no usable name are skipped.
  unfoldable pub filter_parsed :
      List (Result String (PackageParseResult PF)) → List (PackageParseResult PF)
  filter_parsed [] = []
  filter_parsed (ok p ∷ rs) = p ∷ filter_parsed rs
  filter_parsed (err t ∷ rs) = filter_parsed rs

  unfoldable pub names : List (PackageParseResult PF) → String → Bool
  names [] name = false
  names (p ∷ ps) name = str_eq p.package_name name || names ps name

  unfoldable pub load_bundled : List (PackageParseResult PF) → (String → Bool) → Manager → Manager
  load_bundled [] overridden m = m
  load_bundled (p ∷ ps) overridden (s, e) =
      let listed : Manager = (insert_bundled_path s p.package_name p.path, e) in
      load_bundled ps overridden
        (if overridden p.package_name then listed else load_parsed_package p listed)

  unfoldable pub load_downloaded : List (PackageParseResult PF) → Manager → Manager
  load_downloaded [] m = m
  load_downloaded (p ∷ ps) m = load_downloaded ps (load_parsed_package p m)

  unfoldable pub reload_packages : Manager → Manager
  reload_packages (s, e) =
      let downloaded = filter_parsed (parse_packages_from_dir downloaded_dir e) in
      let bundled = filter_parsed (parse_packages_from_dir bundled_dir e) in
      load_downloaded downloaded (load_bundled bundled (names downloaded) (clear_all s, e))

  external_path : Option String → String → Result String (Unit {0})
  external_path none path = err "Cannot resolve source path"
  external_path (some p) path =
      if has_prefix (components p) (components downloaded_dir)
      then err "Source file is inside the downloaded package directory"
      else if has_prefix (components p) (components bundled_dir)
      then err "Source file is inside the bundled package directory"
      else ok tt

  unfoldable pub ensure_external_source : String → E → Result String (Unit {0})
  unfolding external_path
  ensure_external_source path e = external_path (canonicalize path e) path

  blocks_version : Option P → PF → Bool → Bool
  blocks_version none file force = false
  blocks_version (some p) file force = not_newer file p && not force

  unfoldable pub prepare_install_package :
      PackageParseResult PF → Option P → Bool → Result String (InstallInfo PF)
  unfolding blocks_version
  prepare_install_package parsed orig force = do
    file ← parsed.package_file
    ensure (not (blocks_version orig file force)) "A same or newer version is already installed"
    ensure (is_safe_path_segment parsed.package_name) "Invalid package name"
    let dest = join downloaded_dir (parsed.package_name ++ ("." ++ packages_ext))
    volume_metadata dest file
    ok (record {
      package_name = parsed.package_name;
      package_file = file;
      path = parsed.path;
      dest = dest;
    })

  recovered : Result String (PackageParseResult PF) → String → E → Result String P × E
  unfolding created
  recovered (ok parsed) path e = created parsed.package_file path e
  recovered (err t) path e = (err t, e)

  unfoldable pub recover_package : String → E → Result String P × E
  unfolding recovered
  recover_package path e = recovered (parse_package path e) path e

  restored : Result String P × E → String → Store P → Manager
  restored (ok p, e) name s = ((insert_package s name p).1, e)
  restored (err t, e) name s = ((remove_package s name).1, e)

  unfoldable pub try_recover : String → String → Manager → Manager
  unfolding restored
  try_recover name path (s, e) = restored (recover_package path e) name s

  unfoldable pub is_bundled_package : String → Bool
  is_bundled_package path = is_child (components path) (components bundled_dir)

  abbrev Reply : Type 0
  Reply = Result String (Unit {0}) × Manager

  restore_bundled : Option String → String → Manager → Manager
  restore_bundled none name m = m
  restore_bundled (some path) name m = try_recover name path m

  file_removed : Result String Bool × E → String → Store P → Reply
  unfolding restore_bundled
  file_removed (err t, e) name s = (err t, (s, e))
  file_removed (ok _, e) name s = (ok tt, restore_bundled (get_bundled_path s name) name (s, e))

  purged : Result String (Unit {0}) × E → String → String → Store P → Reply
  unfolding file_removed
  purged (err t, e) name path s = (err t, try_recover name path (s, e))
  purged (ok _, e) name path s = file_removed (remove_package_file path e) name s

  torn_down : Result String (Unit {0}) × E → P → String → Bool → Store P → Reply
  unfolding purged
  torn_down (err t, e) p name purge s = (err t, (s, e))
  torn_down (ok _, e) p name true s =
      purged (purge_volume name e) name (path_of p) (remove_package s name).1
  torn_down (ok _, e) p name false s = purged (ok tt, e) name (path_of p) (remove_package s name).1

  remove_found : Option P → Option BrokenPackageInfo → String → Bool → Manager → Reply
  unfolding torn_down file_removed
  remove_found (some p) broken name purge (s, e) =
      if is_bundled_package (path_of p)
      then (err "Cannot remove bundled package", (s, e))
      else torn_down (teardown p e) p name purge s
  remove_found none (some info) name purge (s, e) =
      if is_bundled_package info.package_path
      then (err "Cannot remove broken bundled package", (s, e))
      else file_removed (remove_package_file info.package_path e) name (remove_broken s name).1
  remove_found none none name purge m = (err "Package not found", m)

  unfoldable pub handle_remove_package : String → Bool → Manager → Reply
  unfolding remove_found
  handle_remove_package name purge (s, e) =
      remove_found (get_package s name) (get_broken s name) name purge (s, e)
