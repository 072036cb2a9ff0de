-- ===== src/Tests/Mounting.antt =====
-- The theorems on mounts, over a kernel that counts the layers of one mount point and takes the
-- answers of its calls from a list.
use ssam.Prelude.{
  ℕ, zero, suc, ◌+◌, ◌*◌, ◌≤◌, Bool, true, false, none, some, List, [], ◌∷◌, String, Result, ok,
  err, ◌≡◌, refl, sym, subst, if◌then◌else◌, ap, ◌∙◌, arith,
}
use Prim.Native.String.{◌++◌}
use ssam.Paths.{split_at, join, components, is_safe_path_segment}
use ssam.Superblock.{erofs}
use ssam.Verity.{PackageFsVerityInfo, split_once, resolve_table}
use ssam.Mount.{
  MountSystem, PackageFsMetadata, PackageFileInfo, Configuration, new, is_exact_mount, findmnt,
  max_by_len, enclosing, len,
}
use ssam.Mount.Attach.{
  LoopAttachBackend, AttachError, resource_busy, attach_with_retry, Explains,
  attach_with_retry_ends,
}
use ssam.Mount.Overlay.{comma, build_overlay_options, escape_overlay_opt, replace}
use ssam.Mount.Options.{cut, lower_layers, overlay_options-cut}
use ssam.Mount.Exact.{AreResolved}
use ssam.Mount.Device
use ssam.Mount.Device.{DeviceMapper, DmDevice, setup, make_target}
use ssam.Mount.Pkgfs.{
  System, mount_failed, overlay_options, mount_pkgfs, unmount_pkgfs, mount_device, pkg_hash10,
}
use ssam.Mount.Pkgfs.Layers.{MountLaws, layers}
use ssam.Mount.Pkgfs.Runs.{
  Call, mount_call, call, run, count, blind, run-AtMost, unmount_pkgfs_clears,
}

-- A device that is busy once more each time.
abbrev busy_backend : LoopAttachBackend ℕ ℕ
busy_backend = record {
  next_free = λ n. (some n, n + 1);
  try_attach = λ dev n. (some resource_busy, n);
}

attach_with_retry_ends_example :
    (r : Result AttachError ℕ) × (s' : ℕ) × (attach_with_retry busy_backend 2 50 53 0 0 7
      ≡ some (r, s'))
    × Explains busy_backend 2 50 r s'
attach_with_retry_ends_example =
    attach_with_retry_ends busy_backend 2 50 7 (omega arith) (omega arith)

abbrev conf : Configuration
conf = record { packages_mnt_root = "/m"; packages_overlayfs_root = "/ovl" }

abbrev verity : PackageFsVerityInfo
verity = record {
  data_size = 4096;
  hash_size = 4096;
  table_params = 49 ∷ 32 ∷ 50 ∷ [];
  hash_offset = 4096;
}

abbrev meta : PackageFsMetadata
meta = record {
  path = "/pkg/a:b.pkg";
  mount_point = "/m/a:b";
  overlayfs_root = "/ovl/a:b";
  packagefs_info = record { fstype = erofs; pkgfs_offset = 0; length = 8192; verity_info = verity };
}

abbrev file : PackageFileInfo
file = record { package_name = "a:b"; pkgfs = some (erofs, some (0, 8192), verity) }

accepted : new conf "/pkg/a:b.pkg" file ≡ ok meta
unfolding new is_safe_path_segment components split_at join
accepted = refl

overlay_options-cut_example :
    (value : String) × (cut comma false (overlay_options meta)
      ≡ ("lowerdir=" ++ value)
        ∷ ("upperdir=" ++ join meta.overlayfs_root "upper")
        ∷ ("workdir=" ++ join meta.overlayfs_root "work")
        ∷ [])
    × (lower_layers value ≡ meta.mount_point ∷ [])
overlay_options-cut_example = overlay_options-cut conf "/pkg/a:b.pkg" file meta accepted refl

-- The layers, and the answers of the calls to come; without any a call succeeds.
abbrev State : Type 0
State = ℕ × List Bool

abbrev same_points : ℕ → List String
same_points zero = []
same_points (suc n) = "/m/a:b" ∷ same_points n

abbrev mount_next : State → Bool × State
mount_next (n, []) = (true, (suc n, []))
mount_next (n, true ∷ answers) = (true, (suc n, answers))
mount_next (n, false ∷ answers) = (false, (n, answers))

abbrev unmount_next : State → Bool × State
unmount_next (zero, answers) = (false, (zero, answers))
unmount_next (suc n, []) = (true, (n, []))
unmount_next (suc n, true ∷ answers) = (true, (n, answers))
unmount_next (suc n, false ∷ answers) = (false, (suc n, answers))

abbrev kernel : Bool → MountSystem State
kernel readable = record {
  is_dir = λ s p. true;
  exists = λ s p. true;
  canonicalize = λ s p. some p;
  mounts = λ s. if readable then some (same_points s.0) else none;
  create_dir_all = λ p s. (true, s);
  mount = λ source target fstype readonly options s. mount_next s;
  unmount = λ target s. unmount_next s;
}

abbrev mapper : DeviceMapper State
mapper = record {
  open_control = λ s. true;
  create_device = λ name s. (ok (record { minor = 0; name = name }), s);
  list_devices = λ s. some [];
  load_table = λ name target s. (true, s);
  resume_device = λ name s. (true, s);
  remove_device = λ name s. (true, s);
  ioctl_blksszget = λ s path. some 512;
  bytes_of = λ path. 47 ∷ [];
  display = λ n. "0";
}

abbrev system : Bool → System State (Unit {0})
system readable = record {
  mounts = kernel readable;
  mapper = mapper;
  attach = λ info s. (some tt, s);
  loop_path = λ dev. some "/dev/loop0";
  detach = λ dev s. s;
  new_suffix = λ s. ("f", s);
  digest = λ text. 1 ∷ 2 ∷ 3 ∷ 4 ∷ 5 ∷ 6 ∷ [];
  hex_encode = λ bytes. "0102030405";
}

abbrev table : State → List String
table s = same_points s.0

counted : (readable : Bool) (s : State) → count conf (system readable) table meta s ≡ s.0
unfolding layers components split_at
counted readable (zero, answers) = refl
counted readable (suc n, answers) = ap suc (counted readable (n, answers))

all_resolved :
    (readable : Bool) (s : State) (n : ℕ) → AreResolved (kernel readable) s "/m/a:b" (same_points n)
unfolding components split_at
all_resolved readable s zero = tt
all_resolved readable s (suc n) = ((λ e. refl, λ e. absurd (cc)), all_resolved readable s n)

shown :
    (readable : Bool) (s : State) (ms : List String)
    → (kernel readable).mounts s ≡ some ms
    → ms ≡ table s
shown true s ms e = cc
shown false s ms e = cc

mounted :
    (s : State)
    → ((mount_next s).0 ≡ true → (mount_next s).1.0 ≡ s.0 + 1)
      × ((mount_next s).0 ≡ false → (mount_next s).1.0 ≡ s.0)
mounted (n, []) = (λ e. omega arith, λ e. cc)
mounted (n, true ∷ answers) = (λ e. omega arith, λ e. cc)
mounted (n, false ∷ answers) = (λ e. cc, λ e. refl)

unmounted :
    (s : State)
    → ((unmount_next s).0 ≡ true → (unmount_next s).1.0 + 1 ≡ s.0)
      × ((unmount_next s).0 ≡ false → (unmount_next s).1.0 ≡ s.0)
unmounted (zero, answers) = (λ e. cc, λ e. refl)
unmounted (suc n, []) = (λ e. omega arith, λ e. cc)
unmounted (suc n, true ∷ answers) = (λ e. omega arith, λ e. cc)
unmounted (suc n, false ∷ answers) = (λ e. cc, λ e. refl)

laws : (readable : Bool) → MountLaws (system readable) table "/m/a:b"
laws readable = record {
  shown = shown readable;
  resolved = λ s. all_resolved readable s s.0;
  has_dir = λ s e. refl;
  mounted = λ source fstype readonly options s e.
      counted readable (mount_next s).1
      ∙ (mounted s).0 e
      ∙ ap (λ n. n + 1) (sym (counted readable s));
  not_mounted = λ source fstype readonly options s e.
      counted readable (mount_next s).1 ∙ (mounted s).1 e ∙ sym (counted readable s);
  unmounted = λ s e.
      ap (λ n. n + 1) (counted readable (unmount_next s).1)
      ∙ (unmounted s).0 e
      ∙ sym (counted readable s);
  not_unmounted =
      λ s e. counted readable (unmount_next s).1 ∙ (unmounted s).1 e ∙ sym (counted readable s);
  make_dirs_keeps = λ path s. refl;
  attach_keeps = λ info s. refl;
  detach_keeps = λ dev s. refl;
  suffix_keeps = λ s. refl;
  create_keeps = λ name s. refl;
  load_keeps = λ name table s. refl;
  resume_keeps = λ name s. refl;
  remove_keeps = λ name s. refl;
}

-- The mounts can be read.
abbrev open_system : System State (Unit {0})
open_system = system true

abbrev calls : List Call
calls = mount_call "a:b" ∷ mount_call "a:b" ∷ []

-- The first overlay and its rollback fail.
abbrev start : State
start = (0, true ∷ false ∷ false ∷ [])

at_start : count conf open_system table meta start ≤ 2
at_start = subst (λ n. n ≤ 2) (sym (counted true start)) (omega arith)

run-AtMost_example :
    count conf open_system table meta (run conf open_system table meta calls start)
    ≤ 2 + 2 * blind conf open_system table meta calls start
run-AtMost_example = run-AtMost conf open_system table meta (laws true) calls start at_start

unmounts :
    (unmount_pkgfs conf open_system meta (run conf open_system table meta calls start)).0 ≡ ok tt
unfolding run call unmount_pkgfs mount_pkgfs mount_device is_exact_mount findmnt max_by_len
    enclosing len components split_at join pkg_hash10 Device.new setup make_target resolve_table
    split_once overlay_options build_overlay_options escape_overlay_opt replace
unmounts = refl

unmount_pkgfs_clears_example :
    count conf open_system table meta
      (unmount_pkgfs conf open_system meta (run conf open_system table meta calls start)).1
    ≡ 0
unmount_pkgfs_clears_example =
    unmount_pkgfs_clears conf open_system table meta (laws true) calls start at_start refl refl refl
      unmounts

mounts :
    ((mount_pkgfs conf open_system "a:b" meta start).0 ≡ err mount_failed)
    × ((mount_pkgfs conf open_system "a:b" meta start).1 ≡ (1, []))
    × ((mount_pkgfs conf (system false) "a:b" meta (2, [])).0 ≡ ok tt)
unfolding mount_pkgfs mount_device is_exact_mount findmnt max_by_len enclosing len components
    split_at join pkg_hash10 Device.new setup make_target resolve_table split_once overlay_options
    build_overlay_options escape_overlay_opt replace
mounts = (refl, refl, refl)
