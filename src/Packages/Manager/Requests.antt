-- ===== src/Packages/Manager/Requests.antt =====
-- The messages of `PackageManagerActor`: to install, start and stop a package, and the teardown of all.
use ssam.Prelude.{
  Bool, false, Option, none, some, List, [], ◌∷◌, String, HashMap, Result, ok, err, ◌>>=◌, ◌>>◌,
  ensure, if◌then◌else◌,
}
use ssam.Paths.{Component, normal, components}
use ssam.Store.{get_package, insert_package, remove_broken, clear, clear_broken}
use ssam.Packages.Transaction.{InstallMode, fresh, upgrade_bundled, upgrade_downloaded}
use ssam.Packages.Manager.{
  InstallInfo, System, Store, try_recover, is_bundled_package, ensure_external_source,
  prepare_install_package,
}

module _ {PF P E : Type 0} (sys : System PF P E) (bundled_dir downloaded_dir : String) where
  open sys use {
    path_of, name_of, exists, is_package_file, parse_package, install, prepare_upgrade, teardown,
    request_start, request_stop,
  }

  -- `store_package` of what was built; the caller reads the metadata of that package.
  installed : Result String P × E → Store P → Result String P × (Store P × E)
  installed (err t, e) s = (err t, (s, e))
  installed (ok p, e) s = (ok p, ((insert_package s (name_of p) p).1, e))

  upgraded : Result String P × E → String → String → Store P → Result String P × (Store P × E)
  unfolding installed
  upgraded (err t, e) name path s =
      (err t, try_recover sys bundled_dir downloaded_dir name path (s, e))
  upgraded (ok p, e) name path s = installed (ok p, e) s

  upgrade_mode : String → InstallMode
  upgrade_mode path =
      if is_bundled_package sys bundled_dir downloaded_dir path
      then upgrade_bundled
      else upgrade_downloaded path

  upgrade_prepared :
      Result String (Unit {0}) × E
      → P
      → InstallInfo PF
      → Bool
      → Store P
      → Result String P × (Store P × E)
  unfolding upgraded upgrade_mode
  upgrade_prepared (err t, e) p info remove_data s = (err t, (s, e))
  upgrade_prepared (ok _, e) p info remove_data s =
      upgraded (install info remove_data (upgrade_mode (path_of p)) e) info.package_name (path_of p)
        s

  -- `Path::file_name`
  file_name : List Component → Option String
  file_name [] = none
  file_name (normal s ∷ []) = some s
  file_name (_ ∷ []) = none
  file_name (_ ∷ c ∷ cs) = file_name (c ∷ cs)

  unbroken : Option String → Store P → Store P
  unbroken none s = s
  unbroken (some name) s = (remove_broken s name).1

  install_over : Option P → InstallInfo PF → Bool → Store P → E → Result String P × (Store P × E)
  unfolding upgrade_prepared installed
  install_over none info remove_data s e = installed (install info false fresh e) s
  install_over (some p) info remove_data s e =
      upgrade_prepared (prepare_upgrade p e) p info remove_data s

  install_prepared :
      Result String (InstallInfo PF) → Bool → (Store P × E) → Result String P × (Store P × E)
  unfolding install_over unbroken file_name
  install_prepared (err t) remove_data m = (err t, m)
  install_prepared (ok info) remove_data (s, e) =
      install_over (get_package s info.package_name) info remove_data
        (unbroken (file_name (components info.dest)) s) e

  unfoldable pub handle_install_package :
      String → Bool → Bool → (Store P × E) → Result String P × (Store P × E)
  unfolding install_prepared
  handle_install_package path force remove_data (s, e) =
      install_prepared
        (do
          ensure (exists path e) "File not found"
          ensure (is_package_file path e) "Invalid package file"
          ensure_external_source sys bundled_dir downloaded_dir path e
          parsed ← parse_package path e
          prepare_install_package sys bundled_dir downloaded_dir parsed
              (get_package s parsed.package_name) force)
        remove_data (s, e)

  on_package :
      Option P
      → (P → E → Result String (Unit {0}) × E)
      → (Store P × E)
      → (Result String (Unit {0}) × (Store P × E))
  on_package none request m = (err "Package not found", m)
  on_package (some p) request (s, e) = let (r, e') = request p e in (r, (s, e'))

  unfoldable pub handle_start_package :
      String → (Store P × E) → (Result String (Unit {0}) × (Store P × E))
  unfolding on_package
  handle_start_package name (s, e) = on_package (get_package s name) request_start (s, e)

  unfoldable pub handle_stop_package :
      String → (Store P × E) → (Result String (Unit {0}) × (Store P × E))
  unfolding on_package
  handle_stop_package name (s, e) = on_package (get_package s name) request_stop (s, e)

  -- A package that cannot be torn down is only logged.
  teardown_each : HashMap P → E → E
  teardown_each [] e = e
  teardown_each ((_, p) ∷ ps) e = teardown_each ps (teardown p e).1

  unfoldable pub teardown_all : (Store P × E) → (Store P × E)
  unfolding teardown_each
  teardown_all (s, e) = (clear_broken (clear s), teardown_each s.packages e)
