-- ===== src/Packages/Transaction/Stray.antt =====
-- An upgrade whose new file has another name than the file that it replaces.
use ssam.Prelude.{
  ◌≡◌, ◌≢◌, refl, sym, ap, ◌∙◌, Bool, true, false, inl, inr, Option, some, String, HashMap, get,
  insert, remove, get-insert_self, get-insert_ne, get-remove_ne, err, Bool-cases, Result-cases,
}
use ssam.Packages.Transaction.{
  InstallMode, upgrade_downloaded, InstallInfo, build_failed, copy_failed, backup_failed, Faults,
  Volumes, World, rename, copy, backup_path_of, rollback_file_ops, copied, files_saved, save_file,
  execute_install_inner,
}
use ssam.Packages.Transaction.Disks.{backup_path_of-ne, rename-IsAside}
use ssam.Packages.Transaction.Rollback.{copied_files}

rename_moved :
    {C : Type 0} (a b : String) (m : HashMap C) {h : C}
    → get m a ≡ some h
    → (rename false a b m).1 ≡ insert (remove m a) b h
unfolding rename
rename_moved a b m e = rw e refl

module _ {PF M V P D W C : Type 0} (vs : Volumes PF M V P D W) (faults : Faults) where
  copy_done :
      (source : Option C) (info : InstallInfo PF M) (rd : Bool) (mode : InstallMode)
      (w : World C D W) (m : HashMap C) {t : String}
      → (copied vs faults (copy faults.copy source info.dest m) info rd mode w).0
        ≡ err (build_failed t)
      → (c : C) → source ≡ some c
      → copy faults.copy source info.dest m ≡ (true, insert m info.dest c)
  unfolding copied copy
  copy_done source info rd mode w m e c here = elim (Bool-cases faults.copy) [
    | inl refused ↦ absurd (
        let impossible : err (copy_failed info.path) ≡ err (build_failed _) = rw refused at e in cc)
    | inr fine ↦ rw (fine, here) refl
  ]

  -- If a downloaded package is upgraded to a file of another name and the new package cannot be built,
  -- then both files are there afterwards: the old one is put back, and the new one is not removed.
  pub execute_install_inner_stray :
      (source : Option C) (info : InstallInfo PF M) (remove_data : Bool) (installed : String)
      (w : World C D W) (t : String) (c : C)
      → faults.rollback ≡ false
      → source ≡ some c
      → info.dest ≢ installed
      → info.dest ≢ backup_path_of installed
      → let done =
          execute_install_inner vs faults source info remove_data
            (upgrade_downloaded installed)
            w in
        done.0 ≡ err (build_failed t)
        → (get done.1.files info.dest ≡ some c)
          × (get done.1.files installed ≡ get w.files installed)
  unfolding execute_install_inner files_saved save_file rollback_file_ops
  execute_install_inner_stray source info rd installed w t c calm here apart other failed =
      let backup = backup_path_of installed in
      elim (Result-cases (rename faults.backup_file installed backup w.files).0) [
        | inr (e, refused) ↦ absurd (
            let impossible : err (backup_failed info.dest) ≡ err (build_failed t) =
              rw refused at failed in
            cc)
        | inl (u, done) ↦
            let saved = (rename faults.backup_file installed backup w.files).1 in
            let aside =
              rename-IsAside faults.backup_file installed backup w.files
                (backup_path_of-ne installed) done in
            let failed_after : (copied vs faults (copy faults.copy source info.dest saved) info rd
                  (upgrade_downloaded installed) (record w { files = saved })).0
                ≡ err (build_failed t) =
              rw done at failed in
            let written =
              ap (λ r. r.1)
                (copy_done source info rd (upgrade_downloaded installed)
                  (record w { files = saved }) saved failed_after c here) in
            let same =
              copied_files vs faults (copy faults.copy source info.dest saved) info rd
                (upgrade_downloaded installed) (record w { files = saved }) failed_after in
            let held = get-insert_ne saved info.dest backup c other ∙ aside.aside in
            let back = rename_moved backup installed (insert saved info.dest c) held in
            rw done (
              rw same (
                rw (calm, written, back)
                  (
                    get-insert_ne (remove (insert saved info.dest c) backup) installed info.dest
                          aside.held (λ h. apart (sym h))
                        ∙ get-remove_ne (insert saved info.dest c) backup info.dest
                            (λ h. other (sym h))
                        ∙ get-insert_self saved info.dest c,
                    get-insert_self (remove (insert saved info.dest c) backup) installed aside.held
                        ∙ sym aside.was,
                  )))
      ]
