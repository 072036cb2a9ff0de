-- ===== src/Volume/Directory/Contained.antt =====
-- The directories that are made for a package lie inside of its data directory.
use ssam.Prelude.{◌≡◌, true, inl, inr, Option, none, some, List, [], ◌∷◌, String, arith, Bool-cases}
use mathlib.Core.List
use ssam.Paths.{components, join, is_safe_relative_path}
use ssam.Paths.Inside.{AllNormal, components-join}
use ssam.Volume.Directory.{
  Kernel, DataDirectory, strip_root, make_dirs, ensure_dirs, ensure_data_dirs,
}

-- `path` leads from `root` down by names only.
pub record IsBelow (root path : String) : Type 0 where
  pub rest : String
  pub extended : components path ≡ List.◌++◌ (components root) (components rest)
  pub names : AllNormal (components rest)

pub join-IsBelow :
    (root rest : String) → is_safe_relative_path rest ≡ true → IsBelow root (join root rest)
join-IsBelow root rest safe =
    let (same, names) = components-join root rest safe in
    record { rest = rest; extended = same; names = names }

module _ {X : Type 0} (kernel : Kernel X) (P : X → Type 0) where
  make_dirs-keeps :
      (root : String) (dirs : List String) (x : X)
      → ((path : String) (y : X) → IsBelow root path → P y → P (kernel.make_directory path y).1)
      → P x
      → P (make_dirs kernel root dirs x).1
  unfolding make_dirs
  make_dirs-keeps root [] x keep p = p
  make_dirs-keeps root (dir ∷ dirs) x keep p =
      elim (Bool-cases (is_safe_relative_path (strip_root dir))) [
        | inr unsafe ↦ rw unsafe p
        | inl safe ↦
            let path = join root (strip_root dir) in
            let kept = keep path x (join-IsBelow root (strip_root dir) safe) p in
            let later = make_dirs-keeps root dirs (kernel.make_directory path x).1 keep kept in
            rw safe (ground arith)
      ]

  ensure_dirs-keeps :
      (root : String) (dirs : Option (List String)) (x : X)
      → ((path : String) (y : X) → IsBelow root path → P y → P (kernel.make_directory path y).1)
      → P x
      → P (ensure_dirs kernel root dirs x).1
  unfolding ensure_dirs
  ensure_dirs-keeps root none x keep p = p
  ensure_dirs-keeps root (some dirs) x keep p = make_dirs-keeps root dirs x keep p

  -- Whatever `data_dirs` a package asks for, `ensure_data_dirs` makes only directories below the
  -- package's own: what each such call keeps true of the system, the whole call keeps true.
  pub ensure_data_dirs-keeps :
      (d : DataDirectory) (x : X)
      → ((path : String) (y : X) → IsBelow d.path path → P y → P (kernel.make_directory path y).1)
      → P x
      → P (ensure_data_dirs kernel d x).1
  unfolding ensure_data_dirs
  ensure_data_dirs-keeps d x keep p = ensure_dirs-keeps d.path d.data_dirs x keep p
