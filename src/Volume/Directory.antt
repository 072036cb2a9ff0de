-- ===== src/Volume/Directory.antt =====
-- `DataDirectory` and `DataDirectoryManager`: a package's data directory, its quota, and the
-- directories in it that the container binds. What the kernel does is a parameter.
pub mod Contained
pub mod Created
use Prim.Native.Char.{Char, code}
use Prim.Native.String
use Prim.Native.String.{◌++◌}
use ssam.Prelude.{
  ℕ, Bool, true, false, not, ◌&&◌, ◌||◌, Option, none, some, List, [], ◌∷◌, String, HashMap, Result,
  ok, err, ltb, leb, ◌==◌, if◌then◌else◌, str_eq, ensure, ◌>>=◌, ◌>>◌,
}
use ssam.Paths.{
  split_at, push_front, join, is_sep, starts_with_sep, is_safe_relative_path, is_safe_path_segment,
}
use ssam.Volume.Projects.{get_project_id, remove_id}

-- `char::is_whitespace`
abbrev is_whitespace : Char → Bool
is_whitespace c =
    let n = code c in
    (leb 9 n && leb n 13)
    || n == 0x20
    || n == 0x85
    || n == 0xa0
    || n == 0x1680
    || (leb 0x2000 n && leb n 0x200a)
    || n == 0x2028
    || n == 0x2029
    || n == 0x202f
    || n == 0x205f
    || n == 0x3000

trim_start : String → String
trim_start String.[] = ""
trim_start (String.◌∷◌ c s) =
    let rest = trim_start s in if is_whitespace c then rest else String.◌∷◌ c s

trim_end : String → String
trim_end String.[] = ""
trim_end (String.◌∷◌ c s) =
    let rest = trim_end s in if str_eq rest "" && is_whitespace c then "" else String.◌∷◌ c rest

-- `str::trim`
abbrev trim : String → String
trim s = trim_end (trim_start s)

trimmed_dirs : List String → List String
trimmed_dirs [] = []
trimmed_dirs (s ∷ ss) =
    let rest = trimmed_dirs ss in if str_eq (trim s) "" then rest else trim s ∷ rest

unfoldable pub parse_data_dirs : Option String → Option (List String)
unfolding trim_start trim_end trimmed_dirs split_at
parse_data_dirs none = none
parse_data_dirs (some s) =
    if str_eq (trim s) "" then none else some (trimmed_dirs (split_at (λ c. code c == 0x3a) s))

-- What `Path::strip_prefix("/")` leaves: an absolute path loses the separators and the `.` segments
-- at its front; any other path stays as it is.
rejoin : List String → String
rejoin [] = ""
rejoin (a ∷ []) = a
rejoin (a ∷ b ∷ bs) = a ++ ("/" ++ rejoin (b ∷ bs))

drop_segments : List String → String
unfolding rejoin
drop_segments [] = ""
drop_segments (s ∷ ss) =
    let rest = drop_segments ss in if str_eq s "" || str_eq s "." then rest else rejoin (s ∷ ss)

unfoldable pub strip_root : String → String
unfolding drop_segments split_at
strip_root p = if starts_with_sep p then drop_segments (split_at is_sep p) else p

pub record QuotaInfo : Type 0 where
  pub id : ℕ
  pub block_limit : Option ℕ

pub record DataDirectory : Type 0 where
  pub path : String
  pub data_dirs : Option (List String)
  pub quota_info : Option QuotaInfo

pub data DirectoryError : Type 0 where
  unsafe_name unsafe_data_dir make_directory_failed remove_directory_failed :
      String → DirectoryError
  project_quota_failed block_limits_failed : String → DirectoryError
  invalid_storage_limit : DirectoryError
  id_overflow : ℕ → DirectoryError

-- A 64-bit signed number; `negsuc n` is -(n + 1).
pub data ℤ : Type 0 where
  pos negsuc : ℕ → ℤ

pub record DataDirMetadata : Type 0 where
  pub package_name : String
  pub path : String
  pub data_dirs : Option String
  pub storage_limit : Option ℕ

-- `u64::try_from` under `transpose`
storage_of : Option ℤ → Result DirectoryError (Option ℕ)
storage_of none = ok none
storage_of (some (pos n)) = ok (some n)
storage_of (some (negsuc n)) = err invalid_storage_limit

-- `DataDirMetadata::new`, from what the package file says and the configured root.
unfoldable pub new_metadata :
    String → String → Option String → Option ℤ → Result DirectoryError DataDirMetadata
unfolding storage_of
new_metadata root package_name data_dirs storage_limit = do
  ensure (is_safe_path_segment package_name) (unsafe_name package_name)
  limit ← storage_of storage_limit
  ok (record {
    package_name = package_name;
    path = join root package_name;
    data_dirs = data_dirs;
    storage_limit = limit;
  })

-- `unwrap_or(0)`
abbrev limit_or_zero : Option ℕ → ℕ
limit_or_zero none = 0
limit_or_zero (some n) = n

-- The kernel: quota calls for a project id, and directories. A call answers whether it succeeded.
pub record Kernel (X : Type 0) : Type 0 where
  pub set_project_quota : String → Bool → ℕ → X → Bool × X
  pub set_block_limits : ℕ → ℕ → ℕ → X → Bool × X
  pub make_directory : String → X → Bool × X
  pub remove_dir_all : String → X → Bool × X

module _ {X : Type 0} (kernel : Kernel X) where
  open kernel use {set_project_quota, set_block_limits, make_directory, remove_dir_all}

  abbrev Reply : Type 0
  Reply = Result DirectoryError (Unit {0}) × X

  limits_set : Bool × X → String → Reply
  limits_set (done, x) path = (ensure done (block_limits_failed path), x)

  project_set : Bool × X → Bool → String → QuotaInfo → Reply
  unfolding limits_set
  project_set (false, x) enabled path q = (err (project_quota_failed path), x)
  project_set (true, x) enabled path q =
      limits_set (set_block_limits q.id 0 (if enabled then limit_or_zero q.block_limit else 0) x)
        path

  set_quota : Option QuotaInfo → Bool → String → X → Reply
  unfolding project_set
  set_quota none enabled path x = (ok tt, x)
  set_quota (some q) enabled path x =
      project_set (set_project_quota path enabled (if enabled then q.id else 0) x) enabled path q

  -- Without a quota it only warns.
  unfoldable pub set_block_limit : DataDirectory → Bool → X → Reply
  unfolding set_quota
  set_block_limit d enabled x = set_quota d.quota_info enabled d.path x

  made : Bool × X → String → (X → Reply) → Reply
  made (false, x) path next = (err (make_directory_failed path), x)
  made (true, x) path next = next x

  make_dirs : String → List String → X → Reply
  unfolding made
  make_dirs path [] x = (ok tt, x)
  make_dirs path (dir ∷ dirs) x =
      if is_safe_relative_path (strip_root dir)
      then made (make_directory (join path (strip_root dir)) x) (join path (strip_root dir))
          (make_dirs path dirs)
      else (err (unsafe_data_dir dir), x)

  ensure_dirs : String → Option (List String) → X → Reply
  unfolding make_dirs
  ensure_dirs path none x = (ok tt, x)
  ensure_dirs path (some dirs) x = make_dirs path dirs x

  unfoldable pub ensure_data_dirs : DataDirectory → X → Reply
  unfolding ensure_dirs
  ensure_data_dirs d x = ensure_dirs d.path d.data_dirs x

  and_then : Reply → (X → Reply) → Reply
  and_then (err e, x) next = (err e, x)
  and_then (ok _, x) next = next x

  after_made : DataDirectory → Reply → Result DirectoryError DataDirectory × X
  after_made d (err e, x) = (err e, x)
  after_made d (ok _, x) = (ok d, x)

  make_root : String → X → Reply
  unfolding made
  make_root path x = made (make_directory path x) path (λ x'. (ok tt, x'))

  -- `DataDirectory::new`, `set_block_limit` and `ensure_data_dirs`, up to the first error.
  prepare_directory : DataDirectory → X → Result DirectoryError DataDirectory × X
  unfolding after_made and_then make_root
  prepare_directory d x =
      after_made d
        (and_then (and_then (make_root d.path x) (set_block_limit d true)) (ensure_data_dirs d))

  with_id :
      DataDirMetadata → ℕ × HashMap ℕ → X → Result DirectoryError DataDirectory × HashMap ℕ × X
  unfolding prepare_directory
  with_id meta (id, ids) x =
      if leb id 2147483647
      then (let quota : QuotaInfo = record { id = id; block_limit = meta.storage_limit } in
          let done =
            prepare_directory
              (record {
                path = meta.path;
                data_dirs = parse_data_dirs meta.data_dirs;
                quota_info = some quota;
              })
              x in
          (done.0, ids, done.1))
      else (err (id_overflow id), ids, x)

  -- The flag says whether the quota system was initialised.
  unfoldable pub create_data_directory :
      Bool → HashMap ℕ → DataDirMetadata → X → Result DirectoryError DataDirectory × HashMap ℕ × X
  unfolding with_id prepare_directory
  create_data_directory true ids meta x = with_id meta (get_project_id ids meta.path) x
  create_data_directory false ids meta x =
      let done =
        prepare_directory
          (record {
            path = meta.path;
            data_dirs = parse_data_dirs meta.data_dirs;
            quota_info = none;
          })
          x in
      (done.0, ids, done.1)

  removed : Bool × X → String → Reply
  removed (done, x) path = (ensure done (remove_directory_failed path), x)

  -- A quota that cannot be switched off is only logged.
  unfoldable pub remove_data_directory :
      HashMap ℕ → DataDirectory → X → Result DirectoryError (Unit {0}) × HashMap ℕ × X
  unfolding removed
  remove_data_directory ids d x =
      let done = removed (remove_dir_all d.path (set_block_limit d false x).1) d.path in
      (done.0, remove_id ids d.path, done.1)
