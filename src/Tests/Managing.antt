-- ===== src/Tests/Managing.antt =====
-- The theorems on the package manager, with a bundled package, a downloaded one and a broken one.
use ssam.Prelude.{
  ◌≡◌, refl, inr, true, false, ℕ, ◌+◌, leb, some, [], ◌∷◌, String, get, str_eq, if◌then◌else◌, ok,
  err,
}
use ssam.Store.{get_package}
use ssam.Packages.Manager.{PackageParseResult, System, Store, reload_packages, names, filter_parsed}
use ssam.Packages.Manager.Requests.{handle_install_package}
use ssam.Paths.{components}
use ssam.Packages.Manager.{is_child, is_bundled_package, handle_remove_package}
use ssam.Packages.Manager.Bundled.{Keeps, handle_remove_package-keeps}
use ssam.Packages.Manager.Reload.{is_known, reload_packages-is_known}
use ssam.Packages.Manager.Downgrade.{handle_install_package_refused}

-- A package is its name and version, a package file is its version.
abbrev file : String → ℕ → PackageParseResult ℕ
file name version = record { package_name = name; path = "/tmp/a.pkg"; package_file = ok version }

abbrev bad_file : PackageParseResult ℕ
bad_file = record { package_name = "b.pkg"; path = "/d/b.pkg"; package_file = err "no manifest" }

abbrev system : System ℕ (String × ℕ) (Unit {0})
system = record {
  path_of = λ p. "/d/a.pkg";
  name_of = λ p. p.0;
  not_newer = λ v p. leb v p.1;
  reason = λ t. record { summary = t; details = "" };
  packages_ext = "pkg";
  exists = λ p e. true;
  is_package_file = λ p e. true;
  canonicalize = λ p e. some p;
  parse_package = λ p e. ok (file "a" 3);
  parse_packages_from_dir = λ d e.
      if str_eq d "/d"
      then ok bad_file ∷ ok (file "a" 4) ∷ []
      else ok (file "a" 2) ∷ ok (file "c" 1) ∷ [];
  volume_metadata = λ d f. ok tt;
  create_package = λ p v e. (ok ("a", v), e);
  install = λ i rd mode e. (ok (i.package_name, i.package_file), e);
  remove_package_file = λ p e. (ok true, e);
  purge_volume = λ n e. (ok tt, e);
  prepare_upgrade = λ p e. (ok tt, e);
  teardown = λ p e. (ok tt, e);
  request_start = λ p e. (ok tt, e);
  request_stop = λ p e. (ok tt, e);
}

abbrev store : Store (String × ℕ)
store = record { packages = ("a", ("a", 4)) ∷ []; broken_packages = []; bundled_packages = [] }

reload_packages-is_known_example :
    is_known (reload_packages system "/b" "/d" (store, tt)).0 "c" ≡ true
unfolding names filter_parsed
reload_packages-is_known_example =
    reload_packages-is_known system "/b" "/d" (store, tt) "c" (inr refl)

handle_install_package_refused_example :
    (t : String) × (handle_install_package system "/b" "/d" "/tmp/a.pkg" false true (store, tt)
      ≡ (err t, (store, tt)))
unfolding get_package get
handle_install_package_refused_example =
    handle_install_package_refused system "/b" "/d" "/tmp/a.pkg" true store tt (file "a" 3) 3
      ("a", 4) refl refl refl refl

-- A system that counts the files of the bundled directory that it removes.
abbrev counting : System ℕ (String × ℕ) ℕ
counting = record {
  path_of = λ p. "/d/a.pkg";
  name_of = λ p. p.0;
  not_newer = λ v p. leb v p.1;
  reason = λ t. record { summary = t; details = "" };
  packages_ext = "pkg";
  exists = λ p e. true;
  is_package_file = λ p e. true;
  canonicalize = λ p e. some p;
  parse_package = λ p e. ok (file "a" 3);
  parse_packages_from_dir = λ d e. [];
  volume_metadata = λ d f. ok tt;
  create_package = λ p v e. (ok ("a", v), e);
  install = λ i rd mode e. (ok (i.package_name, i.package_file), e);
  remove_package_file =
      λ p e. (ok true, if is_child (components p) (components "/b") then e + 1 else e);
  purge_volume = λ n e. (err "busy", e);
  prepare_upgrade = λ p e. (ok tt, e);
  teardown = λ p e. (ok tt, e);
  request_start = λ p e. (ok tt, e);
  request_stop = λ p e. (ok tt, e);
}

counting-Keeps : Keeps counting "/b" "/d" (λ e. e ≡ 0)
unfolding is_bundled_package
counting-Keeps = record {
  create = λ p v e i. i;
  purge = λ n e i. i;
  teardown = λ p e i. i;
  remove = λ p e own i. rw own i;
}

handle_remove_package-keeps_example :
    (handle_remove_package counting "/b" "/d" "a" true (store, 0)).1.1 ≡ 0
handle_remove_package-keeps_example =
    handle_remove_package-keeps counting "/b" "/d" (λ e. e ≡ 0) counting-Keeps "a" true store 0 refl
