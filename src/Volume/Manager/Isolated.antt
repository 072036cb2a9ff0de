-- ===== src/Volume/Manager/Isolated.antt =====
-- Two live volumes never count against one quota project.
use ssam.Prelude.{
  ℕ, ◌<◌, ◌≡◌, ◌≢◌, refl, sym, ap, subst, ◌∙◌, Bool, true, inl, inr, Option, none, some, List, [],
  ◌∷◌, String, HashMap, get, remove, get-insert_inv, get-remove_inv, get-remove_ne, Result, ok, err,
  arith, Option-cases, Result-cases,
}
use ssam.Paths.{join, is_safe_path_segment}
use ssam.Paths.Segments.{join_inj}
use ssam.Volume.Projects.{remove_id}
use ssam.Volume.Projects.Separated.{IsSeparated, remove_id-IsSeparated}
use ssam.Volume.Directory.{
  Kernel, DataDirectory, DataDirMetadata, DirectoryError, QuotaInfo, ℤ, new_metadata,
  create_data_directory, remove_data_directory,
}
use ssam.Volume.Directory.Created.{new_metadata_lem, create_data_directory-Created}
use ssam.Volume.Manager.{
  PackageVolume, VolumeManager, handle_acquire_volume, handle_purge_volume, purge_found,
  drop_directory, directory_of,
}

module _ (root : String) where
  -- A volume's directory is the one of its name, and a quota is that of the directory's project.
  pub record IsPlaced (ids : HashMap ℕ) (name : String) (d : DataDirectory) : Type 0 where
    pub path : d.path ≡ join root name
    pub safe : is_safe_path_segment name ≡ true
    pub project : (q : QuotaInfo) → d.quota_info ≡ some q → get ids d.path ≡ some q.id

  pub record IsIsolated {F : Type 0} (m : VolumeManager F) : Type 0 where
    pub separated : IsSeparated m.ids
    pub placed :
        (name : String) (v : PackageVolume F) (d : DataDirectory)
        → get m.volumes name ≡ some v
        → v.data_directory ≡ some d
        → IsPlaced m.ids name d

  -- Dropping the directory of one name leaves the ids of the others.
  drop-IsPlaced :
      (ids : HashMap ℕ) (name other : String) (d e : DataDirectory)
      → name ≢ other
      → IsPlaced ids name d
      → IsPlaced ids other e
      → IsPlaced (remove_id ids d.path) other e
  drop-IsPlaced ids name other d e apart pd pe = record {
    path = pe.path;
    safe = pe.safe;
    project = λ q eq.
        get-remove_ne ids d.path e.path
          (λ same. apart (join_inj root name other pd.safe pe.safe (sym pd.path ∙ same ∙ pe.path)))
        ∙ pe.project q eq;
  }

directory_of-some :
    (r : Result DirectoryError DataDirectory) {d : DataDirectory}
    → directory_of r ≡ some d
    → r ≡ ok d
unfolding directory_of
directory_of-some (ok d) e = ground arith
directory_of-some (err t) e = cc

-- What the transaction actor asks of the manager; metadata that cannot be made ends the request.
pub data Message (F : Type 0) : Type 0 where
  acquire : String → Option String → Option ℤ → F → Message F
  purge : String → Message F

module _ {F X : Type 0} (kernel : Kernel X) (root : String) where
  acquire-IsIsolated :
      (m : VolumeManager F) (name : String) (dirs : Option String) (limit : Option ℤ) (fs : F)
      (meta : DataDirMetadata) (x : X)
      → new_metadata root name dirs limit ≡ ok meta
      → IsIsolated root m
      → IsIsolated root
          (handle_acquire_volume kernel m
            (record { package_name = name; pkgfs_meta = fs; data_meta = meta })
            x).1
  unfolding handle_acquire_volume
  acquire-IsIsolated m name dirs limit fs meta x made v =
      let created = create_data_directory-Created kernel m.has_quota m.ids meta x v.separated in
      let (path, _, safe) = new_metadata_lem root name dirs limit made in
      record {
        separated = created.separated v.separated;
        placed = λ other w d e has. elim (get-insert_inv m.volumes name other _ e) [
          | inr (_, old) ↦
              let p = v.placed other w d old has in
              record {
                path = p.path;
                safe = p.safe;
                project = λ q eq. created.held d.path q.id (p.project q eq);
              }
          | inl (same, new) ↦
              let found =
                directory_of-some (create_data_directory kernel m.has_quota m.ids meta x).0
                  (ap (λ (u : PackageVolume F). u.data_directory) new ∙ has) in
              let (at, quota) = created.placed d found in
              subst
                (λ n. IsPlaced root (create_data_directory kernel m.has_quota m.ids meta x).1 n d)
                same (record { path = at ∙ path; safe = safe; project = quota })
        ];
      }

  drop_directory-IsIsolated :
      (o : Option DataDirectory) (m : VolumeManager F) (name : String) (v : PackageVolume F) (x : X)
      → get m.volumes name ≡ some v
      → v.data_directory ≡ o
      → IsIsolated root m
      → IsIsolated root (drop_directory kernel o (record m { volumes = remove m.volumes name }) x).1
  unfolding drop_directory remove_data_directory
  drop_directory-IsIsolated none m name v x e has i = record {
    separated = i.separated;
    placed =
        λ other w d held dir. i.placed other w d (get-remove_inv m.volumes name other held).1 dir;
  }
  drop_directory-IsIsolated (some d) m name v x e has i = record {
    separated = remove_id-IsSeparated m.ids d.path i.separated;
    placed = λ other w f held dir.
        let (apart, old) = get-remove_inv m.volumes name other held in
        drop-IsPlaced root m.ids name other d f apart (i.placed name v d e has)
          (i.placed other w f old dir);
  }

  purge-IsIsolated :
      (m : VolumeManager F) (name : String) (x : X)
      → IsIsolated root m
      → IsIsolated root (handle_purge_volume kernel m name x).1
  unfolding handle_purge_volume purge_found
  purge-IsIsolated m name x i = elim (Option-cases (get m.volumes name)) [
    | inl absent ↦ rw absent i
    | inr (v, e) ↦ rw e (drop_directory-IsIsolated v.data_directory m name v x e refl i)
  ]

  acquire_made :
      Result DirectoryError DataDirMetadata → String → F → VolumeManager F × X → VolumeManager F × X
  acquire_made (err e) name fs (m, x) = (m, x)
  acquire_made (ok meta) name fs (m, x) =
      let done =
        handle_acquire_volume kernel m
          (record { package_name = name; pkgfs_meta = fs; data_meta = meta }) x in
      (done.1, done.2)

  unfoldable pub handle : Message F → VolumeManager F × X → VolumeManager F × X
  unfolding acquire_made
  handle (acquire name dirs limit fs) s = acquire_made (new_metadata root name dirs limit) name fs s
  handle (purge name) (m, x) = let done = handle_purge_volume kernel m name x in (done.1, done.2)

  unfoldable pub handle_all : List (Message F) → VolumeManager F × X → VolumeManager F × X
  handle_all [] s = s
  handle_all (g ∷ gs) s = handle_all gs (handle g s)

  handle-IsIsolated :
      (g : Message F) (s : VolumeManager F × X)
      → IsIsolated root s.0
      → IsIsolated root (handle g s).0
  unfolding handle
  handle-IsIsolated (purge name) (m, x) i = purge-IsIsolated m name x i
  handle-IsIsolated (acquire name dirs limit fs) (m, x) i =
      elim (Result-cases (new_metadata root name dirs limit)) [
        | inr (_, failed) ↦ rw failed i
        | inl (meta, made) ↦ rw made (acquire-IsIsolated m name dirs limit fs meta x made i)
      ]

  handle_all-IsIsolated :
      (gs : List (Message F)) (s : VolumeManager F × X)
      → IsIsolated root s.0
      → IsIsolated root (handle_all gs s).0
  unfolding handle_all
  handle_all-IsIsolated [] s i = i
  handle_all-IsIsolated (g ∷ gs) s i =
      handle_all-IsIsolated gs (handle g s) (handle-IsIsolated g s i)

  -- A manager that starts with no volumes and with ids that no two directories share never lets the
  -- live volumes of two packages count against one quota project, nor any against the root project,
  -- whatever volumes are acquired and purged and whatever the kernel answers.
  pub projects_separated :
      (gs : List (Message F)) (has_quota : Bool) (ids : HashMap ℕ) (x : X) (a b : String)
      (v w : PackageVolume F) (d e : DataDirectory) (q r : QuotaInfo)
      → IsSeparated ids
      → let m = (handle_all gs (record { has_quota = has_quota; ids = ids; volumes = [] }, x)).0 in
        get m.volumes a ≡ some v
        → get m.volumes b ≡ some w
        → v.data_directory ≡ some d
        → w.data_directory ≡ some e
        → d.quota_info ≡ some q
        → e.quota_info ≡ some r
        → q.id ≡ r.id
        → (a ≡ b) × (0 < q.id)
  unfolding get
  projects_separated gs has_quota ids x a b v w d e q r s ga gb vd we dq er same =
      let i =
        handle_all-IsIsolated gs (record { has_quota = has_quota; ids = ids; volumes = [] }, x)
          (record { separated = s; placed = λ n u f wrong dir. cc }) in
      let pa = i.placed a v d ga vd in
      let pb = i.placed b w e gb we in
      let paths =
        i.separated.apart d.path e.path q.id (pa.project q dq)
          (pb.project r er ∙ ap some (sym same)) in
      (
        join_inj root a b pa.safe pb.safe (sym pa.path ∙ paths ∙ pb.path),
        i.separated.pos d.path q.id (pa.project q dq),
      )
