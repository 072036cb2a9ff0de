-- ===== src/Packages/Transaction.antt =====
-- `PackageTransactionActor` (ssamd/src/package_manager/pkg_file.rs): an installation as one
-- transaction on the package files, the data directories and the volumes. The system may refuse any
-- call; what `PackageFileBackend::copy` writes, it writes whole or not at all.
pub mod Disks
pub mod Rollback
pub mod Stray
use Prim.Native.Char.{Char, code}
use Prim.Native.String
use Prim.Native.String.{◌++◌}
use ssam.Prelude.{
  Bool, true, false, not, ◌&&◌, ◌||◌, Option, none, some, List, [], ◌∷◌, String, HashMap, get,
  insert, remove, Result, ok, err, ◌==◌, if◌then◌else◌, str_eq,
}
use ssam.Paths.{is_sep, split_at, push_front}

pub data InstallMode : Type 0 where
  fresh upgrade_bundled : InstallMode
  upgrade_downloaded : String → InstallMode

-- `InstallInfo`, with a package file of type `PF` and volume metadata of type `M`.
pub record InstallInfo (PF M : Type 0) : Type 0 where
  pub package_name : String
  pub package_file : PF
  pub path : String
  pub dest : String
  pub volume_meta : M

pub data InstallError : Type 0 where
  backup_failed copy_failed data_backup_failed : String → InstallError
  acquire_failed build_failed : String → InstallError

-- Which calls of one installation the system refuses.
pub record Faults : Type 0 where
  pub backup_file : Bool
  pub copy : Bool
  pub clear_old_dir : Bool
  pub backup_dir : Bool
  pub rollback : Bool
  pub clear_dir : Bool
  pub restore_dir : Bool
  pub remove_backup : Bool
  pub remove_old_dir : Bool

-- What the transaction uses of the volume manager and of `Package::new`: packages `P`, volumes `V`,
-- data directories with contents `D`, and the manager's own state `W`.
pub record Volumes (PF M V P D W : Type 0) : Type 0 where
  pub data_dir : M → String
  pub is_vacant : D → Bool
  pub acquire : M → HashMap D → W → Result String V × HashMap D × W
  pub purge : String → HashMap D → W → Result String (Unit {0}) × HashMap D × W
  pub new_package : String → PF → V → Result String P

-- The package files with contents `C`, the data directories, and the volume manager.
pub record World (C D W : Type 0) : Type 0 where
  pub files : HashMap C
  pub dirs : HashMap D
  pub volumes : W

last_segment : List String → String
last_segment [] = ""
last_segment (s ∷ []) = s
last_segment (s ∷ t ∷ ss) = last_segment (t ∷ ss)

-- `Path::extension` is there if the file name has a dot after its first character, and is not `..`.
after_first : String → String
after_first String.[] = ""
after_first (String.◌∷◌ c s) = s

has_dot : String → Bool
has_dot String.[] = false
has_dot (String.◌∷◌ c s) = code c == 0x2e || has_dot s

has_extension : String → Bool
unfolding last_segment after_first has_dot split_at
has_extension p =
    let name = last_segment (split_at is_sep p) in
    not (str_eq name "..") && has_dot (after_first name)

-- `with_extension` with the old extension and `.old`; with no extension, the text is `.old`, which
-- `with_extension` puts after a dot of its own.
unfoldable pub backup_path_of : String → String
unfolding has_extension
backup_path_of p = if has_extension p then p ++ ".old" else p ++ "..old"

abbrev pub old_dir_of : String → String
old_dir_of p = p ++ ".old"

pub data FileError : Type 0 where
  not_found refused : FileError

module _ {C : Type 0} where
  moved : Option C → HashMap C → String → String → Result FileError (Unit {0}) × HashMap C
  moved none files from to = (err not_found, files)
  moved (some c) files from to = (ok tt, insert (remove files from) to c)

  -- `rename`: what was at the new path is gone.
  unfoldable pub rename :
      Bool → String → String → HashMap C → Result FileError (Unit {0}) × HashMap C
  unfolding moved
  rename true from to files = (err refused, files)
  rename false from to files = moved (get files from) files from to

  deleted : Option C → HashMap C → String → Result FileError (Unit {0}) × HashMap C
  deleted none files path = (err not_found, files)
  deleted (some c) files path = (ok tt, remove files path)

  unfoldable pub remove_file : Bool → String → HashMap C → Result FileError (Unit {0}) × HashMap C
  unfolding deleted
  remove_file true path files = (err refused, files)
  remove_file false path files = deleted (get files path) files path

  existed : Result FileError (Unit {0}) × HashMap C → Result FileError Bool × HashMap C
  existed (ok _, files) = (ok true, files)
  existed (err not_found, files) = (ok false, files)
  existed (err refused, files) = (err refused, files)

  unfoldable pub remove_file_if_exists :
      Bool → String → HashMap C → Result FileError Bool × HashMap C
  unfolding existed
  remove_file_if_exists fault path files = existed (remove_file fault path files)

  -- `fs_ops.copy`, of the source's contents
  unfoldable pub copy : Bool → Option C → String → HashMap C → Bool × HashMap C
  copy true source to files = (false, files)
  copy false none to files = (false, files)
  copy false (some c) to files = (true, insert files to c)

  -- An error of the rollback is only logged.
  unfoldable pub rollback_file_ops : Bool → InstallMode → String → HashMap C → HashMap C
  rollback_file_ops fault (upgrade_downloaded installed) dest files =
      (rename fault (backup_path_of installed) installed files).1
  rollback_file_ops fault upgrade_bundled dest files = (remove_file_if_exists fault dest files).1
  rollback_file_ops fault fresh dest files = (remove_file_if_exists fault dest files).1

module _ {D : Type 0} (is_vacant : D → Bool) where
  -- `remove_dir_all` whose result is not looked at
  unfoldable pub clear : Bool → String → HashMap D → HashMap D
  clear true path dirs = dirs
  clear false path dirs = remove dirs path

  target_free : Option D → Bool
  target_free none = true
  target_free (some d) = is_vacant d

  dir_moved : Option D → HashMap D → String → String → Result FileError (Unit {0}) × HashMap D
  unfolding target_free
  dir_moved none dirs from to = (err not_found, dirs)
  dir_moved (some d) dirs from to =
      if target_free (get dirs to)
      then (ok tt, insert (remove dirs from) to d)
      else (err refused, dirs)

  -- `rename` of a directory: another one at the new path must be empty.
  unfoldable pub rename_dir :
      Bool → String → String → HashMap D → Result FileError (Unit {0}) × HashMap D
  unfolding dir_moved
  rename_dir true from to dirs = (err refused, dirs)
  rename_dir false from to dirs = dir_moved (get dirs from) dirs from to

  backed_up :
      Result FileError (Unit {0}) × HashMap D
      → String
      → Result FileError (Option String) × HashMap D
  backed_up (ok _, dirs) old = (ok (some old), dirs)
  backed_up (err not_found, dirs) old = (ok none, dirs)
  backed_up (err refused, dirs) old = (err refused, dirs)

  unfoldable pub backup_data_dir :
      Bool → Bool → String → HashMap D → Result FileError (Option String) × HashMap D
  unfolding backed_up
  backup_data_dir clear_fault fault path dirs =
      backed_up (rename_dir fault path (old_dir_of path) (clear clear_fault (old_dir_of path) dirs))
        (old_dir_of path)

  save_data : Faults → Bool → String → HashMap D → Result FileError (Option String) × HashMap D
  save_data faults true path dirs = backup_data_dir faults.clear_old_dir faults.backup_dir path dirs
  save_data faults false path dirs = (ok none, dirs)

abbrev pub is_upgrade : InstallMode → Bool
is_upgrade fresh = false
is_upgrade upgrade_bundled = true
is_upgrade (upgrade_downloaded _) = true

abbrev is_fresh : InstallMode → Bool
is_fresh mode = not (is_upgrade mode)

-- The reply of an installation, and what it leaves.
abbrev pub Done : (P C D W : Type 0) → Type 0
Done P C D W = Result InstallError P × World C D W

module _ {PF M V P D W C : Type 0} (vs : Volumes PF M V P D W) (faults : Faults) where
  open vs use {data_dir, is_vacant, acquire, purge, new_package}

  undo_files : InstallMode → String → World C D W → World C D W
  undo_files mode dest w = record w { files = rollback_file_ops faults.rollback mode dest w.files }

  -- The backup comes back to a path that is cleared first.
  restore_dir : Option String → String → World C D W → World C D W
  restore_dir none path w = w
  restore_dir (some old) path w = record w {
    dirs =
        (rename_dir is_vacant faults.restore_dir old path
          (clear is_vacant faults.clear_dir path w.dirs)).1;
  }

  purged : Result String (Unit {0}) × HashMap D × W → World C D W → World C D W
  purged (_, dirs, v) w = record w { dirs = dirs; volumes = v }

  -- What a package that cannot be built leaves of the data.
  undo_data : Option String → Bool → InstallInfo PF M → World C D W → World C D W
  unfolding purged restore_dir
  undo_data (some old) purge_fresh info w =
      restore_dir (some old) (data_dir info.volume_meta)
        (purged (purge info.package_name w.dirs w.volumes) w)
  undo_data none true info w = purged (purge info.package_name w.dirs w.volumes) w
  undo_data none false info w = w

  drop_backup : InstallMode → World C D W → World C D W
  drop_backup (upgrade_downloaded installed) w = record w {
    files = (remove_file faults.remove_backup (backup_path_of installed) w.files).1;
  }
  drop_backup _ w = w

  drop_old_dir : Option String → World C D W → World C D W
  drop_old_dir none w = w
  drop_old_dir (some old) w = record w { dirs = clear is_vacant faults.remove_old_dir old w.dirs }

  built :
      Result String P
      → Option String
      → InstallInfo PF M
      → Bool
      → InstallMode
      → World C D W
      → Done P C D W
  unfolding undo_files undo_data drop_backup drop_old_dir
  built (ok built_package) old info remove_data mode w =
      (ok built_package, drop_old_dir old (drop_backup mode w))
  built (err e) old info remove_data mode w = (
    err (build_failed e),
    undo_data old (remove_data || is_fresh mode) info (undo_files mode info.dest w),
  )

  acquired :
      Result String V × HashMap D × W
      → Option String
      → InstallInfo PF M
      → Bool
      → InstallMode
      → World C D W
      → Done P C D W
  unfolding built restore_dir undo_files
  acquired (err e, dirs, v) old info remove_data mode w = (
    err (acquire_failed e),
    undo_files mode info.dest
        (restore_dir old (data_dir info.volume_meta) (record w { dirs = dirs; volumes = v })),
  )
  acquired (ok volume, dirs, v) old info remove_data mode w =
      built (new_package info.dest info.package_file volume) old info remove_data mode
        (record w { dirs = dirs; volumes = v })

  data_saved :
      Result FileError (Option String) × HashMap D
      → InstallInfo PF M
      → Bool
      → InstallMode
      → World C D W
      → Done P C D W
  unfolding acquired undo_files
  data_saved (err e, dirs) info remove_data mode w = (
    err (data_backup_failed (data_dir info.volume_meta)),
    undo_files mode info.dest (record w { dirs = dirs }),
  )
  data_saved (ok old, dirs) info remove_data mode w =
      acquired (acquire info.volume_meta dirs w.volumes) old info remove_data mode
        (record w { dirs = dirs })

  pub copied : Bool × HashMap C → InstallInfo PF M → Bool → InstallMode → World C D W → Done P C D W
  unfolding data_saved save_data undo_files
  copied (false, files) info remove_data mode w =
      (err (copy_failed info.path), undo_files mode info.dest (record w { files = files }))
  copied (true, files) info remove_data mode w =
      data_saved
        (save_data is_vacant faults (remove_data && is_upgrade mode) (data_dir info.volume_meta)
          w.dirs)
        info remove_data mode (record w { files = files })

  files_saved :
      Result FileError (Unit {0}) × HashMap C
      → Option C
      → InstallInfo PF M
      → Bool
      → InstallMode
      → World C D W
      → Done P C D W
  unfolding copied
  files_saved (err e, files) source info remove_data mode w =
      (err (backup_failed info.dest), record w { files = files })
  files_saved (ok _, files) source info remove_data mode w =
      copied (copy faults.copy source info.dest files) info remove_data mode
        (record w { files = files })

  save_file : InstallMode → HashMap C → Result FileError (Unit {0}) × HashMap C
  save_file (upgrade_downloaded installed) files =
      rename faults.backup_file installed (backup_path_of installed) files
  save_file _ files = (ok tt, files)

  -- `execute_install_inner`; `source` is what stands at the path that is installed from.
  unfoldable pub execute_install_inner :
      Option C → InstallInfo PF M → Bool → InstallMode → World C D W → Done P C D W
  unfolding files_saved save_file
  execute_install_inner source info remove_data mode w =
      files_saved (save_file mode w.files) source info remove_data mode w
