-- ===== src/Volume/Directory/Created.antt =====
-- What making a data directory does to the project ids.
use ssam.Prelude.{
  ℕ, ◌≡◌, refl, sym, ap, subst, ◌∙◌, Bool, true, false, inl, inr, Option, none, some, String,
  HashMap, get, get-insert_ne, Result, ok, arith, leb, Bool-cases, Option-cases,
}
use ssam.Paths.{join, is_safe_path_segment}
use ssam.Volume.Projects.{get_project_id}
use ssam.Volume.Projects.Separated.{IsSeparated, get_project_id-IsSeparated}
use ssam.Volume.Directory.{
  Kernel, DataDirectory, DataDirMetadata, DirectoryError, QuotaInfo, ℤ, new_metadata,
  create_data_directory, prepare_directory,
}

-- A later request for an id moves no directory that has one.
get_project_id-held :
    (m : HashMap ℕ) (path p : String) {i : ℕ}
    → get m p ≡ some i
    → get (get_project_id m path).1 p ≡ some i
unfolding get_project_id
get_project_id-held m path p {i} e = elim (Option-cases (get m path)) [
  | inr (id, held) ↦ rw held e
  | inl new_path ↦ rw new_path (get-insert_ne m path p _ (λ same. cc (ap (get m) same)) ∙ e)
]

pub new_metadata_lem :
    (root name : String) (dirs : Option String) (limit : Option ℤ) {meta : DataDirMetadata}
    → new_metadata root name dirs limit ≡ ok meta
    → (meta.path ≡ join root name) × (meta.package_name ≡ name) × (is_safe_path_segment name ≡ true)
unfolding new_metadata
new_metadata_lem root name dirs limit e = (ground arith, ground arith, ground arith)

-- The directory stands at the path, and its quota is that of the path's project.
abbrev pub IsOf : HashMap ℕ → String → DataDirectory → Type 0
IsOf ids path d =
    (d.path ≡ path) × ((q : QuotaInfo) → d.quota_info ≡ some q → get ids d.path ≡ some q.id)

abbrev id_of : Option QuotaInfo → ℕ
id_of none = 0
id_of (some q) = q.id

module _ {X : Type 0} (kernel : Kernel X) where
  prepare_directory_lem :
      (d : DataDirectory) (x : X) {d' : DataDirectory}
      → (prepare_directory kernel d x).0 ≡ ok d'
      → d ≡ d'
  unfolding prepare_directory
  prepare_directory_lem d x e = ground arith

  -- What `create_data_directory` leaves of the ids, and what it returns.
  pub record Created (ids : HashMap ℕ) (meta : DataDirMetadata)
      (done : Result DirectoryError DataDirectory) (ids' : HashMap ℕ) : Type 0 where
    pub separated : IsSeparated ids → IsSeparated ids'
    pub held : (p : String) (i : ℕ) → get ids p ≡ some i → get ids' p ≡ some i
    pub placed : (d : DataDirectory) → done ≡ ok d → IsOf ids' meta.path d

  pub create_data_directory-Created :
      (has_quota : Bool) (ids : HashMap ℕ) (meta : DataDirMetadata) (x : X)
      → let done = create_data_directory kernel has_quota ids meta x in
        IsSeparated ids → Created ids meta done.0 done.1
  unfolding create_data_directory
  create_data_directory-Created false ids meta x v = record {
    separated = λ s. s;
    held = λ p i e. e;
    placed = λ d e.
        let same = prepare_directory_lem _ x e in
        (
          sym (ap (λ t. t.path) same),
          λ q eq. absurd (cc (ap (λ (t : DataDirectory). t.quota_info) same)),
        );
  }
  create_data_directory-Created true ids meta x v =
      let (kept, own) = get_project_id-IsSeparated ids meta.path v in
      elim (Bool-cases (leb (get_project_id ids meta.path).0 2147483647)) [
        | inr large ↦ rw large (record {
          separated = λ s. kept;
          held = λ p i e. get_project_id-held ids meta.path p e;
          placed = λ d e. cc;
        })
        | inl small ↦ rw small (record {
          separated = λ s. kept;
          held = λ p i e. get_project_id-held ids meta.path p e;
          placed = λ d e.
              let same = prepare_directory_lem _ x e in
              subst (IsOf (get_project_id ids meta.path).1 meta.path) same
                (refl, λ q eq. own ∙ ap some (ap id_of eq));
        })
      ]
