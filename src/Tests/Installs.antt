-- ===== src/Tests/Installs.antt =====
-- The theorems on installations, where every package fails to be built.
use ssam.Prelude.{
  ◌≡◌, refl, true, false, some, [], ◌∷◌, String, get, insert, remove, str_eq, ap, ok, err,
}
use ssam.Packages.Transaction.{
  upgrade_downloaded, InstallInfo, build_failed, Faults, Volumes, World, execute_install_inner,
  rename, copy, backup_path_of, rename_dir, clear, backup_data_dir,
}
use ssam.Packages.Transaction.Rollback.{execute_install_inner-restores}
use ssam.Packages.Transaction.Stray.{execute_install_inner_stray}

abbrev volumes : Volumes String String String String String (Unit {0})
volumes = record {
  data_dir = λ m. m;
  is_vacant = λ d. false;
  acquire = λ m dirs w. (ok m, insert dirs m "new", w);
  purge = λ n dirs w. (ok tt, dirs, w);
  new_package = λ n f v. err "no manifest";
}

abbrev calm : Faults
calm = record {
  backup_file = false;
  copy = false;
  clear_old_dir = false;
  backup_dir = false;
  rollback = false;
  clear_dir = false;
  restore_dir = false;
  remove_backup = false;
  remove_old_dir = false;
}

abbrev before : World String String (Unit {0})
before = record {
  files = ("/d/a.pkg", "version 1") ∷ [];
  dirs = ("/data/a", "old data") ∷ [];
  volumes = tt;
}

abbrev to : String → InstallInfo String String
to dest = record {
  package_name = "a";
  package_file = "version 2";
  path = "/tmp/a.pkg";
  dest = dest;
  volume_meta = "/data/a";
}

execute_install_inner-restores_example :
    get
      (execute_install_inner volumes calm
        (some "version 2")
        (to "/d/a.pkg")
        true
        (upgrade_downloaded "/d/a.pkg")
        before).1.files
      "/d/a.pkg"
    ≡ get before.files "/d/a.pkg"
unfolding execute_install_inner get rename copy backup_path_of backup_data_dir rename_dir clear
    remove
execute_install_inner-restores_example =
    execute_install_inner-restores volumes calm (some "version 2") (to "/d/a.pkg") true
      (upgrade_downloaded "/d/a.pkg") before (build_failed "no manifest") "/d/a.pkg" refl
      (refl, refl) refl

execute_install_inner_stray_example :
    let done =
      execute_install_inner volumes calm
        (some "version 2")
        (to "/d/b.pkg")
        true
        (upgrade_downloaded "/d/a.pkg")
        before in
    (get done.1.files "/d/b.pkg" ≡ some "version 2")
    × (get done.1.files "/d/a.pkg" ≡ get before.files "/d/a.pkg")
unfolding execute_install_inner get rename copy backup_path_of backup_data_dir rename_dir clear
    remove
execute_install_inner_stray_example =
    execute_install_inner_stray volumes calm (some "version 2") (to "/d/b.pkg") true "/d/a.pkg"
      before "no manifest" "version 2" refl refl (λ e. cc (ap (λ s. str_eq s "/d/a.pkg") e))
      (λ e. cc (ap (λ s. str_eq s "/d/a.pkg.old") e)) refl
