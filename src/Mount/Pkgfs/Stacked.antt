-- ===== src/Mount/Pkgfs/Stacked.antt =====
-- The layers of a package after mounts and unmounts.
use ssam.Prelude.{
  ℕ, suc, ◌+◌, ◌<◌, Bool, true, false, not, Option, none, some, List, String, Result, ok, err, ltb,
  str_eq, ◌≡◌, refl, ap, ◌∙◌, arith, lt→ltb,
}
use ssam.Paths.{join}
use ssam.Verity.{PackageFsVerityInfo}
use ssam.Mount.{PackageFsMetadata, Configuration, is_exact_mount}
use ssam.Mount.Device
use ssam.Mount.Device.{
  DmDevice, DmTargetInfo, DeviceError, DmError, and_then, try, setup, make_target, clean_up,
  activate, after_create, with_target, with_control, drop_device, devnode,
}
use ssam.Mount.Pkgfs.{
  System, PkgfsError, overlay_enabled, overlay_options, do_unmount, make_dirs, mount_base,
  mount_overlayfs, roll_back, with_overlay, mount_device, display, attach_info, verity_name,
  dropping, mount_verity, mount_suffixed, mount_path, mount_attached, mount_unless, mount_pkgfs,
}
use ssam.Mount.Pkgfs.Layers.{
  Ends, Ends-and_then, Ends-map, Ends-try, layers, reads, MountLaws, is_exact_mount-layers,
  is_exact_mount-unread, do_mount-Ends, make_dirs-Keeps, do_unmount-Ends,
}

-- How many layers a mounted package has.
abbrev pub depth : Bool → ℕ
depth true = 2
depth false = 1

module _ {S Dev : Type 0} (conf : Configuration) (system : System S Dev) (table : S → List String)
    (meta : PackageFsMetadata) (laws : MountLaws system table meta.mount_point) where
  open system use {mounts, mapper, attach, loop_path, detach, new_suffix}

  abbrev pub At : ℕ → S → Type 0
  At n s = layers system table meta.mount_point s ≡ n

  abbrev pub Below : ℕ → S → Type 0
  Below n s = layers system table meta.mount_point s < n

  abbrev pub full : ℕ
  full = depth (overlay_enabled conf system)

  mount_base-Ends :
      (blkdev : String) (n : ℕ) (s : S)
      → At n s
      → Ends (At (suc n)) (At n) (mount_base conf system blkdev meta s)
  unfolding mount_base
  mount_base-Ends blkdev n s at =
      do_mount-Ends system table meta.mount_point laws conf blkdev
        (display meta.packagefs_info.fstype) true none n s at

  mount_overlayfs-Ends :
      (n : ℕ) (s : S) → At n s → Ends (At (suc n)) (At n) (mount_overlayfs conf system meta s)
  unfolding mount_overlayfs
  mount_overlayfs-Ends n s at =
      Ends-and_then (At n) (At n) (At (suc n)) (At n)
        (try (not (str_eq meta.overlayfs_root ""), s) _) _
        (Ends-try (At n) (At n) (not (str_eq meta.overlayfs_root ""), s) _ (λ _. at) (λ _. at))
        (λ _ s1 h1.
          Ends-and_then (At n) (At n) (At (suc n)) (At n)
            (make_dirs conf system (join meta.overlayfs_root "upper") s1) _
            (make_dirs-Keeps system table meta.mount_point laws conf _ n s1 h1)
            (λ _ s2 h2.
              Ends-and_then (At n) (At n) (At (suc n)) (At n)
                (make_dirs conf system (join meta.overlayfs_root "work") s2) _
                (make_dirs-Keeps system table meta.mount_point laws conf _ n s2 h2)
                (λ _ s3 h3.
                  do_mount-Ends system table meta.mount_point laws conf "overlay" "overlay" false
                    (some (overlay_options meta)) n s3 h3)
                (λ _ h. h))
            (λ _ h. h))
        (λ _ h. h)

  roll_back-Ends :
      (n : ℕ) (r : Result PkgfsError (Unit {0}) × S)
      → Ends (At (2 + n)) (At (1 + n)) r
      → Ends (At (2 + n)) (Below (2 + n)) (roll_back conf system meta r)
  unfolding roll_back
  roll_back-Ends n (ok _, s) at = at
  roll_back-Ends n (err e, s) at =
      after (do_unmount conf system meta.mount_point s)
        (do_unmount-Ends system table meta.mount_point laws conf n s (omega (arith, at)))
    where
      after :
          (r : Result PkgfsError (Unit {0}) × S) → Ends (At n) (At (suc n)) r → Below (2 + n) r.1
      after (ok _, t) h = omega (arith, h)
      after (err _, t) h = omega (arith, h)

  with_overlay-Ends :
      (b : Bool) (n : ℕ) (s : S)
      → At (1 + n) s
      → Ends (At (depth b + n)) (Below (depth b + n)) (with_overlay conf system b meta s)
  unfolding with_overlay
  with_overlay-Ends false n s at = at
  with_overlay-Ends true n s at = roll_back-Ends n (mount_overlayfs conf system meta s) (
      Ends-map (At (suc (1 + n))) (At (1 + n)) (At (2 + n)) (At (1 + n)) _
        (mount_overlayfs-Ends (1 + n) s at) (λ t h. omega (arith, h)) (λ t h. h))

  depth-pos : (b : Bool) → 0 < depth b
  depth-pos true = omega arith
  depth-pos false = omega arith

  -- Nothing was added.
  still : (n : ℕ) (s : S) → At n s → Below (full + n) s
  still n s at = omega (arith, at, depth-pos (overlay_enabled conf system))

  mount_device-Ends :
      (blkdev : String) (n : ℕ) (s : S)
      → At n s
      → Ends (At (full + n)) (Below (full + n)) (mount_device conf system blkdev meta s)
  unfolding mount_device
  mount_device-Ends blkdev n s at =
      Ends-and_then (At (suc n)) (At n) (At (full + n)) (Below (full + n))
        (mount_base conf system blkdev meta s) _ (mount_base-Ends blkdev n s at)
        (λ _ t h. with_overlay-Ends (overlay_enabled conf system) n t (omega (arith, h)))
        (λ t h. still n t h)

  activate-Keeps :
      (name : String) (target : DmTargetInfo) (n : ℕ) (s : S)
      → At n s
      → Ends (At n) (At n) (activate mapper name target s)
  activate-Keeps name target n s at =
      Ends-and_then (At n) (At n) (At n) (At n) (try (mapper.load_table name target s) _) _
        (Ends-try (At n) (At n) (mapper.load_table name target s) _
          (λ _. laws.load_keeps name target s ∙ at) (λ _. laws.load_keeps name target s ∙ at))
        (λ _ t h.
          Ends-try (At n) (At n) (mapper.resume_device name t) _ (λ _. laws.resume_keeps name t ∙ h)
            (λ _. laws.resume_keeps name t ∙ h))
        (λ _ h. h)

  clean_up-Keeps :
      (name : String) (device : DmDevice) (n : ℕ) (r : Result DeviceError (Unit {0}) × S)
      → Ends (At n) (At n) r
      → Ends (At n) (At n) (clean_up mapper name device r)
  clean_up-Keeps name device n (ok _, s) at = at
  clean_up-Keeps name device n (err e, s) at = laws.remove_keeps name s ∙ at

  after_create-Keeps :
      (name : String) (target : DmTargetInfo) (n : ℕ) (r : Result DmError DmDevice × S)
      → At n r.1
      → Ends (At n) (At n) (after_create mapper name target r)
  after_create-Keeps name target n (err e, s) at = at
  after_create-Keeps name target n (ok device, s) at =
      clean_up-Keeps name device n (activate mapper name target s)
        (activate-Keeps name target n s at)

  with_target-Keeps :
      (name : String) (r : Result DeviceError DmTargetInfo) (n : ℕ) (s : S)
      → At n s
      → Ends (At n) (At n) (with_target mapper name r s)
  unfolding setup
  with_target-Keeps name (err e) n s at = at
  with_target-Keeps name (ok target) n s at =
      after_create-Keeps name target n (mapper.create_device name s) (laws.create_keeps name s ∙ at)

  new-Keeps :
      (name dev_path : String) (info : PackageFsVerityInfo) (n : ℕ) (s : S)
      → At n s
      → Ends (At n) (At n) (Device.new mapper name dev_path info s)
  unfolding Device.new
  new-Keeps name dev_path info n s at = controlled (mapper.open_control s)
    where
      controlled : (b : Bool) → Ends (At n) (At n) (with_control mapper b name dev_path info s)
      controlled false = at
      controlled true = with_target-Keeps name (make_target mapper s dev_path info) n s at

  dropping-Ends :
      (P Q : S → Type 0) (drop_value : S → S) (r : Result PkgfsError (Unit {0}) × S)
      → ((s : S) → P s → P (drop_value s))
      → ((s : S) → Q s → Q (drop_value s))
      → Ends P Q r
      → Ends P Q (dropping conf system drop_value r)
  dropping-Ends P Q drop_value (ok _, s) p q h = p s h
  dropping-Ends P Q drop_value (err _, s) p q h = q s h

  mount_verity-Ends :
      (n : ℕ) (r : Result DeviceError DmDevice × S)
      → Ends (At n) (At n) r
      → Ends (At (full + n)) (Below (full + n)) (mount_verity conf system meta r)
  unfolding mount_verity
  mount_verity-Ends n (err e, s) at = still n s at
  mount_verity-Ends n (ok device, s) at =
      dropping-Ends (At (full + n)) (Below (full + n)) (drop_device mapper device)
        (mount_device conf system (devnode mapper device) meta s)
        (λ t h. laws.remove_keeps device.name t ∙ h)
        (λ t h. omega (arith, laws.remove_keeps device.name t, h))
        (mount_device-Ends (devnode mapper device) n s at)

  mount_path-Ends :
      (pkg : String) (path : Option String) (n : ℕ) (s : S)
      → At n s
      → Ends (At (full + n)) (Below (full + n)) (mount_path conf system pkg meta path s)
  unfolding mount_path mount_suffixed
  mount_path-Ends pkg none n s at = still n s at
  mount_path-Ends pkg (some path) n s at =
      mount_verity-Ends n
        (Device.new mapper (verity_name conf system pkg (new_suffix s).0) path
          meta.packagefs_info.verity_info (new_suffix s).1)
        (new-Keeps _ path meta.packagefs_info.verity_info n (new_suffix s).1
          (laws.suffix_keeps s ∙ at))

  mount_attached-Ends :
      (pkg : String) (n : ℕ) (r : Option Dev × S)
      → At n r.1
      → Ends (At (full + n)) (Below (full + n)) (mount_attached conf system pkg meta r)
  unfolding mount_attached
  mount_attached-Ends pkg n (none, s) at = still n s at
  mount_attached-Ends pkg n (some dev, s) at =
      dropping-Ends (At (full + n)) (Below (full + n)) (detach dev)
        (mount_path conf system pkg meta (loop_path dev) s) (λ t h. laws.detach_keeps dev t ∙ h)
        (λ t h. omega (arith, laws.detach_keeps dev t, h))
        (mount_path-Ends pkg (loop_path dev) n s at)

  -- A mount that finds nothing adds all layers or, if it fails, fewer.
  mount_unseen :
      (pkg : String) (n : ℕ) (s : S)
      → is_exact_mount mounts s meta.mount_point ≡ false
      → At n s
      → Ends (At (full + n)) (Below (full + n)) (mount_pkgfs conf system pkg meta s)
  unfolding mount_pkgfs mount_unless
  mount_unseen pkg n s nothing at = rw nothing (
      mount_attached-Ends pkg n (attach (attach_info conf system meta) s)
        (laws.attach_keeps (attach_info conf system meta) s ∙ at))

  abbrev pub is_readable : S → Bool
  is_readable s = reads system table meta.mount_point s

  -- A mount onto nothing, and one that cannot see what is there.
  pub mount_fresh :
      (pkg : String) (s : S)
      → At 0 s
      → Ends (At (full + 0)) (Below (full + 0)) (mount_pkgfs conf system pkg meta s)
  mount_fresh pkg s at = mount_unseen pkg 0 s (nothing (is_readable s) refl) at
    where
      nothing : (b : Bool) → is_readable s ≡ b → is_exact_mount mounts s meta.mount_point ≡ false
      nothing true e = is_exact_mount-layers system table meta.mount_point laws s e ∙ ap (ltb 0) at
      nothing false e = is_exact_mount-unread system table meta.mount_point laws s e

  pub mount_unread :
      (pkg : String) (n : ℕ) (s : S)
      → is_readable s ≡ false
      → At n s
      → Ends (At (full + n)) (Below (full + n)) (mount_pkgfs conf system pkg meta s)
  mount_unread pkg n s e at =
      mount_unseen pkg n s (is_exact_mount-unread system table meta.mount_point laws s e) at

  -- Where something is seen to be mounted, nothing is done.
  pub mount_mounted :
      (pkg : String) (s : S)
      → is_readable s ≡ true
      → 0 < layers system table meta.mount_point s
      → mount_pkgfs conf system pkg meta s ≡ (ok tt, s)
  unfolding mount_pkgfs mount_unless
  mount_mounted pkg s readable some_layer =
      let exact : is_exact_mount mounts s meta.mount_point ≡ true =
        is_exact_mount-layers system table meta.mount_point laws s readable
        ∙ lt→ltb 0 (layers system table meta.mount_point s) some_layer in
      rw exact refl
