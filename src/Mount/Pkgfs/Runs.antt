-- ===== src/Mount/Pkgfs/Runs.antt =====
-- Sequences of mounts and unmounts of one package.
use ssam.Prelude.{
  ℕ, zero, suc, ◌+◌, ◌*◌, ◌≤◌, ◌<◌, Bool, true, inl, inr, Bool-cases, if◌then◌else◌, List, [], ◌∷◌,
  String, Result, ok, err, ◌≡◌, refl, arith,
}
use ssam.Mount.{PackageFsMetadata, Configuration}
use ssam.Mount.Pkgfs.{System, PkgfsError, overlay_enabled, unmount_pkgfs, mount_pkgfs}
use ssam.Mount.Pkgfs.Layers.{Ends, layers, reads, MountLaws}
use ssam.Mount.Pkgfs.Stacked.{depth, mount_fresh, mount_unread, mount_mounted}
use ssam.Mount.Pkgfs.Unmounts.{between, unmount-Ends, unmount-AtMost, Ends-left}

pub data Call : Type 0 where
  mount_call : String → Call
  unmount_call : Call

-- So many mounts, of packages with these names.
abbrev pub mount_calls : List String → List Call
mount_calls [] = []
mount_calls (pkg ∷ pkgs) = mount_call pkg ∷ mount_calls pkgs

module _ {S Dev : Type 0} (conf : Configuration) (system : System S Dev) (table : S → List String)
    (meta : PackageFsMetadata) where
  unfoldable pub call : Call → S → Result PkgfsError (Unit {0}) × S
  call (mount_call pkg) s = mount_pkgfs conf system pkg meta s
  call unmount_call s = unmount_pkgfs conf system meta s

  -- The replies are not looked at.
  unfoldable pub run : List Call → S → S
  run [] s = s
  run (c ∷ cs) s = run cs (call c s).1

  abbrev pub can_read : S → Bool
  can_read s = reads system table meta.mount_point s

  -- The mounts among the calls that are made while `/proc/mounts` cannot be read.
  abbrev is_blind : Call → S → ℕ
  is_blind (mount_call pkg) s = if can_read s then 0 else 1
  is_blind unmount_call s = 0

  abbrev pub blind : List Call → S → ℕ
  blind [] s = 0
  blind (c ∷ cs) s = is_blind c s + blind cs (call c s).1

  abbrev pub count : S → ℕ
  count s = layers system table meta.mount_point s

  module _ (laws : MountLaws system table meta.mount_point) where
    abbrev AtMost : ℕ → S → Type 0
    AtMost n s = count s ≤ n

    abbrev full : ℕ
    full = depth (overlay_enabled conf system)

    seen-AtMost :
        (pkg : String) (n k : ℕ) (s : S)
        → can_read s ≡ true
        → count s ≡ n
        → n ≤ k
        → full ≤ k
        → count (mount_pkgfs conf system pkg meta s).1 ≤ k
    seen-AtMost pkg zero k s readable e le fits =
        Ends-left conf system table meta laws (λ t. count t ≡ full + 0) (λ t. count t < full + 0)
          (AtMost k) (mount_pkgfs conf system pkg meta s)
          (mount_fresh conf system table meta laws pkg s e) (λ t h. omega (arith, h, fits))
          (λ t h. omega (arith, h, fits))
    seen-AtMost pkg (suc n) k s readable e le fits =
        let same = mount_mounted conf system table meta laws pkg s readable (omega (arith, e)) in
        rw same (omega (arith, e, le))

    mount-AtMost :
        (pkg : String) (k : ℕ) (s : S)
        → count s ≤ k
        → full ≤ k
        → count (mount_pkgfs conf system pkg meta s).1 ≤ k + full * is_blind (mount_call pkg) s
    mount-AtMost pkg k s le fits = elim (Bool-cases (can_read s)) [
      | inl readable ↦
          rw readable (omega (arith, seen-AtMost pkg (count s) k s readable refl le fits))
      | inr unread ↦ rw unread (
          Ends-left conf system table meta laws (λ t. count t ≡ full + count s)
            (λ t. count t < full + count s) (AtMost (k + full * 1))
            (mount_pkgfs conf system pkg meta s)
            (mount_unread conf system table meta laws pkg (count s) s unread refl)
            (λ t h. omega (arith, h, le)) (λ t h. omega (arith, h, le)))
    ]

    call-AtMost :
        (c : Call) (k : ℕ) (s : S)
        → count s ≤ k
        → full ≤ k
        → count (call c s).1 ≤ k + full * is_blind c s
    unfolding call
    call-AtMost (mount_call pkg) k s le fits = mount-AtMost pkg k s le fits
    call-AtMost unmount_call k s le fits =
        omega (arith, unmount-AtMost conf system table meta laws k s le)

    run_from-AtMost :
        (cs : List Call) (k : ℕ) (s : S)
        → count s ≤ k
        → full ≤ k
        → count (run cs s) ≤ k + full * blind cs s
    unfolding run
    run_from-AtMost [] k s le fits = omega (arith, le)
    run_from-AtMost (c ∷ cs) k s le fits = grind (
      arith,
      run_from-AtMost cs (k + full * is_blind c s) (call c s).1 (call-AtMost c k s le fits)
          (omega (arith, fits)),
    )

    -- However many times a package is mounted and unmounted, and whatever calls fail on the way,
    -- its mount point never holds more than the layers of one mount, and those of one more for
    -- each mount that was made while `/proc/mounts` could not be read. One mount has two layers
    -- with an overlay root, and one without. At the start at most as many are there. The kernel
    -- must keep `MountLaws`.
    pub run-AtMost :
        (cs : List Call) (s : S)
        → count s ≤ depth (overlay_enabled conf system)
        → count (run cs s)
          ≤ depth (overlay_enabled conf system) + depth (overlay_enabled conf system) * blind cs s
    run-AtMost cs s le = run_from-AtMost cs full s le (omega arith)

    -- After any such sequence whose mounts could all read `/proc/mounts`, an unmount that succeeds
    -- and can read it too, at the start and after its first step, leaves nothing mounted for the
    -- package. The kernel must keep `MountLaws`.
    pub unmount_pkgfs_clears :
        (cs : List Call) (s : S)
        → count s ≤ depth (overlay_enabled conf system)
        → blind cs s ≡ 0
        → can_read (run cs s) ≡ true
        → can_read (between conf system table meta (run cs s)) ≡ true
        → (unmount_pkgfs conf system meta (run cs s)).0 ≡ ok tt
        → count (unmount_pkgfs conf system meta (run cs s)).1 ≡ 0
    unmount_pkgfs_clears cs s le seen readable later done =
        cleared (unmount_pkgfs conf system meta (run cs s)) done (
          unmount-Ends conf system table meta laws (run cs s) readable later
            (let bound = rw seen at (run-AtMost cs s le) in omega (arith, bound)))
      where
        cleared :
            (r : Result PkgfsError (Unit {0}) × S)
            → r.0 ≡ ok tt
            → Ends (AtMost 0) (AtMost full) r
            → count r.1 ≡ 0
        cleared (ok _, t) e h = omega (arith, h)
        cleared (err x, t) e h = absurd (cc)
