-- ===== src/Packages/Manager/Downgrade.antt =====
-- An installation that is not forced never replaces a package by a version that is not newer.
use ssam.Prelude.{
  ◌≡◌, refl, inl, inr, Bool, true, false, some, String, ok, err, Bool-cases, Result-cases,
}
use ssam.Store.{get_package}
use ssam.Packages.Manager.{
  PackageParseResult, System, Store, ensure_external_source, prepare_install_package,
}
use ssam.Packages.Manager.Requests.{handle_install_package}

module _ {PF P E : Type 0} (sys : System PF P E) (bundled_dir downloaded_dir : String) where
  prepare_install_package_older :
      (parsed : PackageParseResult PF) (file : PF) (q : P)
      → parsed.package_file ≡ ok file
      → sys.not_newer file q ≡ true
      → prepare_install_package sys bundled_dir downloaded_dir parsed (some q) false
        ≡ err "A same or newer version is already installed"
  unfolding prepare_install_package
  prepare_install_package_older parsed file q whole old = rw (whole, old) refl

  -- If a package of the file's name is there and the file's version is not newer, then an
  -- installation that is not forced fails, and the packages and the system are as before.
  pub handle_install_package_refused :
      (path : String) (remove_data : Bool) (s : Store P) (e : E) (parsed : PackageParseResult PF)
      (file : PF) (q : P)
      → sys.parse_package path e ≡ ok parsed
      → parsed.package_file ≡ ok file
      → get_package s parsed.package_name ≡ some q
      → sys.not_newer file q ≡ true
      → (t : String) × (handle_install_package sys bundled_dir downloaded_dir path false remove_data
            (s, e)
          ≡ (err t, (s, e)))
  unfolding handle_install_package
  handle_install_package_refused path rd s e parsed file q read whole there old =
      let stopped = prepare_install_package_older parsed file q whole old in
      elim (Bool-cases (sys.exists path e)) [
        | inr missing ↦ ("File not found", rw missing refl)
        | inl here ↦ elim (Bool-cases (sys.is_package_file path e)) [
          | inr other ↦ ("Invalid package file", rw (here, other) refl)
          | inl good ↦
              elim (Result-cases (ensure_external_source sys bundled_dir downloaded_dir path e)) [
                | inr (t, inside) ↦ (t, rw (here, good, inside) refl)
                | inl (u, outside) ↦ (
                  "A same or newer version is already installed",
                  rw (here, good, outside, read, there, stopped) refl,
                )
              ]
        ]
      ]
