-- ===== src/Tests/Volumes.antt =====
-- The theorems on volumes over a kernel that counts its calls and refuses none.
use ssam.Prelude.{
  ℕ, ◌+◌, ◌≤◌, ◌<◌, ◌≡◌, refl, true, false, none, some, List, [], ◌∷◌, String, get, insert, remove,
  arith,
}
use ssam.Volume.Projects.{Entry, directory, other_file, new, get_project_id, max_id}
use ssam.Volume.Projects.Separated.{get_id, remove_call, IsSeparated, run, run-new-IsSeparated}
use ssam.Volume.Directory.{
  Kernel, DataDirectory, QuotaInfo, ensure_data_dirs, pos, new_metadata, parse_data_dirs,
}
use ssam.Volume.Directory.Contained.{ensure_data_dirs-keeps}
use ssam.Volume.Manager.{PackageVolume, handle_acquire_volume, handle_purge_volume}
use ssam.Volume.Manager.Isolated
use ssam.Volume.Manager.Isolated.{Message, acquire, purge, projects_separated}

abbrev kernel : Kernel ℕ
kernel = record {
  set_project_quota = λ p b i x. (true, x + 1);
  set_block_limits = λ i s h x. (true, x + 1);
  make_directory = λ p x. (true, x + 1);
  remove_dir_all = λ p x. (true, x + 1);
}

abbrev found : List Entry
found = directory "/data/a" none ∷ other_file ∷ directory "/data/b" (some 7) ∷ []

run-new-IsSeparated_example : IsSeparated (
    run (get_id "/data/c" ∷ remove_call "/data/a" ∷ get_id "/data/d" ∷ []) (new false (some found)))
run-new-IsSeparated_example =
    run-new-IsSeparated found (get_id "/data/c" ∷ remove_call "/data/a" ∷ get_id "/data/d" ∷ [])
      (refl, (refl, tt))

abbrev app : DataDirectory
app = record { path = "/data/app"; data_dirs = some ("/var" ∷ "lib/db" ∷ []); quota_info = none }

ensure_data_dirs-keeps_example : 2 ≤ (ensure_data_dirs kernel app 3).1
ensure_data_dirs-keeps_example =
    ensure_data_dirs-keeps kernel (λ x. 2 ≤ x) app 3 (λ p y below le. omega (arith, le))
      (omega arith)

abbrev messages : List (Message (Unit {0}))
messages =
    acquire "a" (some "/var:/etc") (some (pos 4096)) tt ∷ acquire "b" none none tt ∷ purge "b" ∷ []

abbrev quota : QuotaInfo
quota = record { id = 1; block_limit = some 4096 }

abbrev dir_a : DataDirectory
dir_a = record {
  path = "/data/a";
  data_dirs = some ("/var" ∷ "/etc" ∷ []);
  quota_info = some quota;
}

abbrev volume_a : PackageVolume (Unit {0})
volume_a = record { package_name = "a"; pkgfs = tt; data_directory = some dir_a }

nothing-IsSeparated : IsSeparated []
unfolding get
nothing-IsSeparated = record { apart = λ i j x ei ej. cc; pos = λ i x e. cc }

projects_separated_example : ◌≡◌ {A = String} "a" "a" × (0 < 1)
unfolding Isolated.handle_all Isolated.handle handle_acquire_volume handle_purge_volume new_metadata
    parse_data_dirs get_project_id max_id get insert remove ssam.Paths.is_safe_path_segment
    ssam.Paths.components ssam.Volume.Directory.create_data_directory ssam.Paths.join
    ssam.Volume.Directory.set_block_limit ensure_data_dirs ssam.Paths.is_safe_relative_path
    ssam.Volume.Directory.strip_root
projects_separated_example =
    projects_separated kernel "/data" messages true [] 0 "a" "a" volume_a volume_a dir_a dir_a quota
      quota nothing-IsSeparated refl refl refl refl refl refl refl
