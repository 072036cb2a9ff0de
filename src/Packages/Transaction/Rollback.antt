-- ===== src/Packages/Transaction/Rollback.antt =====
-- A failed installation leaves the package files as they were.
use ssam.Prelude.{
  ◌≡◌, refl, ap, Bool, true, false, inl, inr, Option, none, some, String, HashMap, get, Result, ok,
  err, ◌||◌, ◌&&◌, arith, Result-cases,
}
use ssam.Packages.Transaction.{
  InstallMode, fresh, upgrade_bundled, upgrade_downloaded, InstallInfo, InstallError, Faults,
  Volumes, World, FileError, rename, copy, backup_path_of, rollback_file_ops, is_fresh, is_upgrade,
  undo_data, restore_dir, built, acquired, data_saved, save_data, copied, files_saved, save_file,
  execute_install_inner,
}
use ssam.Packages.Transaction.Disks.{
  backup_path_of-ne, rename-IsAside, copy-IsAside, IsAside-back, copy-undone,
}

module _ {PF M V P D W C : Type 0} (vs : Volumes PF M V P D W) (faults : Faults) where
  restore_dir_files :
      (old : Option String) (path : String) (w : World C D W)
      → (restore_dir vs faults old path w).files ≡ w.files
  unfolding restore_dir
  restore_dir_files none path w = refl
  restore_dir_files (some old) path w = refl

  undo_data_files :
      (old : Option String) (b : Bool) (info : InstallInfo PF M) (w : World C D W)
      → (undo_data vs faults old b info w).files ≡ w.files
  unfolding undo_data
  undo_data_files none true info w = refl
  undo_data_files none false info w = refl
  undo_data_files (some old) b info w = refl

  built_files :
      (r : Result String P) (old : Option String) (info : InstallInfo PF M) (rd : Bool)
      (mode : InstallMode) (w : World C D W) {e : InstallError}
      → (built vs faults r old info rd mode w).0 ≡ err e
      → (built vs faults r old info rd mode w).1.files
        ≡ rollback_file_ops faults.rollback mode info.dest w.files
  unfolding built
  built_files (ok p) old info rd mode w e = cc
  built_files (err t) old info rd mode w e = undo_data_files old (rd || is_fresh mode) info _

  acquired_files :
      (r : Result String V × HashMap D × W) (old : Option String) (info : InstallInfo PF M)
      (rd : Bool) (mode : InstallMode) (w : World C D W) {e : InstallError}
      → (acquired vs faults r old info rd mode w).0 ≡ err e
      → (acquired vs faults r old info rd mode w).1.files
        ≡ rollback_file_ops faults.rollback mode info.dest w.files
  unfolding acquired
  acquired_files (err t, dirs, v) old info rd mode w e =
      ap (rollback_file_ops faults.rollback mode info.dest) (
        restore_dir_files old (vs.data_dir info.volume_meta)
          (record w { dirs = dirs; volumes = v }))
  acquired_files (ok volume, dirs, v) old info rd mode w e =
      built_files (vs.new_package info.dest info.package_file volume) old info rd mode
        (record w { dirs = dirs; volumes = v }) e

  data_saved_files :
      (r : Result FileError (Option String) × HashMap D) (info : InstallInfo PF M) (rd : Bool)
      (mode : InstallMode) (w : World C D W) {e : InstallError}
      → (data_saved vs faults r info rd mode w).0 ≡ err e
      → (data_saved vs faults r info rd mode w).1.files
        ≡ rollback_file_ops faults.rollback mode info.dest w.files
  unfolding data_saved
  data_saved_files (err t, dirs) info rd mode w e = refl
  data_saved_files (ok old, dirs) info rd mode w e =
      acquired_files (vs.acquire info.volume_meta dirs w.volumes) old info rd mode
        (record w { dirs = dirs }) e

  pub copied_files :
      (r : Bool × HashMap C) (info : InstallInfo PF M) (rd : Bool) (mode : InstallMode)
      (w : World C D W) {e : InstallError}
      → (copied vs faults r info rd mode w).0 ≡ err e
      → (copied vs faults r info rd mode w).1.files
        ≡ rollback_file_ops faults.rollback mode info.dest r.1
  unfolding copied
  copied_files (false, files) info rd mode w e = refl
  copied_files (true, files) info rd mode w e =
      data_saved_files
        (save_data vs.is_vacant faults (rd && is_upgrade mode) (vs.data_dir info.volume_meta)
          w.dirs)
        info rd mode (record w { files = files }) e

  -- The new file stands at the path of the one that it replaces, or at a path that was free, and no
  -- backup of an earlier installation is left.
  abbrev pub CanUndo : InstallMode → String → HashMap C → Type 0
  CanUndo (upgrade_downloaded installed) dest files =
      (dest ≡ installed) × (get files (backup_path_of installed) ≡ none)
  CanUndo upgrade_bundled dest files = get files dest ≡ none
  CanUndo fresh dest files = get files dest ≡ none

  pub rename_failed :
      (fault : Bool) (a b : String) (m : HashMap C) {e : FileError}
      → (rename fault a b m).0 ≡ err e
      → (rename fault a b m).1 ≡ m
  unfolding rename
  rename_failed true a b m e = refl
  rename_failed false a b m e = ground arith

  -- An installation that fails at any step leaves each package file as it was, if the system does
  -- not refuse the rollback, no backup file lies about, and the new file replaces the file that is
  -- upgraded or none.
  pub execute_install_inner-restores :
      (source : Option C) (info : InstallInfo PF M) (remove_data : Bool) (mode : InstallMode)
      (w : World C D W) (e : InstallError) (p : String)
      → faults.rollback ≡ false
      → CanUndo mode info.dest w.files
      → (execute_install_inner vs faults source info remove_data mode w).0 ≡ err e
      → get (execute_install_inner vs faults source info remove_data mode w).1.files p
        ≡ get w.files p
  unfolding execute_install_inner files_saved save_file rollback_file_ops
  execute_install_inner-restores source info rd fresh w e p calm can failed =
      let same = copied_files (copy faults.copy source info.dest w.files) info rd fresh w failed in
      rw same (rw calm (copy-undone faults.copy source w.files info.dest p can))
  execute_install_inner-restores source info rd upgrade_bundled w e p calm can failed =
      let same =
        copied_files (copy faults.copy source info.dest w.files) info rd upgrade_bundled w failed in
      rw same (rw calm (copy-undone faults.copy source w.files info.dest p can))
  execute_install_inner-restores source info rd (upgrade_downloaded installed) w e p calm (at, free)
        failed =
      let backup = backup_path_of installed in
      let apart = backup_path_of-ne installed in
      elim (Result-cases (rename faults.backup_file installed backup w.files).0) [
        | inr (t, refused) ↦
            rw refused (
              ap (λ m. get m p) (rename_failed faults.backup_file installed backup w.files refused))
        | inl (u, done) ↦
            let saved = (rename faults.backup_file installed backup w.files).1 in
            let aside = rename-IsAside faults.backup_file installed backup w.files apart done in
            let later =
              copy-IsAside faults.copy source w.files saved installed backup apart aside in
            let failed_after : (copied vs faults (copy faults.copy source info.dest saved) info rd
                  (upgrade_downloaded installed) (record w { files = saved })).0
                ≡ err e =
              rw done at failed in
            let same =
              copied_files (copy faults.copy source info.dest saved) info rd
                (upgrade_downloaded installed) (record w { files = saved }) failed_after in
            rw done (
              rw same (
                rw (calm, at)
                  (IsAside-back w.files (copy faults.copy source installed saved).1 installed backup
                    apart free later p)))
      ]
