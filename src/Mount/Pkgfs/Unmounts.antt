-- ===== src/Mount/Pkgfs/Unmounts.antt =====
-- How many layers an unmount leaves.
use ssam.Prelude.{
  ℕ, zero, suc, ◌≤◌, ◌<◌, Bool, true, false, ◌&&◌, List, String, Result, ok, err, ◌≡◌, refl, sym,
  ◌∙◌, arith, ltb→lt,
}
use ssam.Mount.{PackageFsMetadata, Configuration, is_exact_mount}
use ssam.Mount.Device.{and_then}
use ssam.Mount.Pkgfs.{System, PkgfsError, overlay_enabled, do_unmount, unmount_layer, unmount_pkgfs}
use ssam.Mount.Pkgfs.Layers.{
  Ends, Ends-and_then, Ends-map, Ends-try, layers, reads, MountLaws, is_exact_mount-layers,
  is_exact_mount-unread, do_unmount-Ends,
}
use ssam.Mount.Pkgfs.Stacked.{depth}

module _ {S Dev : Type 0} (conf : Configuration) (system : System S Dev) (table : S → List String)
    (meta : PackageFsMetadata) where
  -- The state between the two steps of an unmount.
  pub between : S → S
  between s =
      (unmount_layer conf system
        (overlay_enabled conf system && is_exact_mount system.mounts s meta.mount_point) meta s).1

  abbrev pub can_read : S → Bool
  can_read s = reads system table meta.mount_point s

  abbrev pub count : S → ℕ
  count s = layers system table meta.mount_point s

  module _ (laws : MountLaws system table meta.mount_point) where
    abbrev pub AtMost : ℕ → S → Type 0
    AtMost n s = count s ≤ n

    abbrev pub full : ℕ
    full = depth (overlay_enabled conf system)

    -- One guarded unmount takes a layer away, if there is one.
    unmount_layer-Ends :
        (b : Bool) (n : ℕ) (s : S)
        → (b ≡ true → 0 < count s)
        → (b ≡ false → count s ≤ n)
        → count s ≤ suc n
        → Ends (AtMost n) (AtMost (suc n)) (unmount_layer conf system b meta s)
    unfolding unmount_layer
    unmount_layer-Ends false n s h k le = k refl
    unmount_layer-Ends true n s h k le = held (count s) refl (h refl) le
      where
        held :
            (m : ℕ)
            → count s ≡ m
            → 0 < m
            → m ≤ suc n
            → Ends (AtMost n) (AtMost (suc n)) (do_unmount conf system meta.mount_point s)
        held zero e pos le' = absurd (omega (arith, pos))
        held (suc m) e pos le' =
            Ends-map (λ t. count t ≡ m) (λ t. count t ≡ suc m) (AtMost n) (AtMost (suc n))
              (do_unmount conf system meta.mount_point s)
              (do_unmount-Ends system table meta.mount_point laws conf m s e)
              (λ t f. omega (arith, f, le')) (λ t f. omega (arith, f, le'))

    exact_pos :
        (s : S)
        → can_read s ≡ true
        → is_exact_mount system.mounts s meta.mount_point ≡ true
        → 0 < count s
    exact_pos s readable e =
        ltb→lt 0 (count s)
          (sym (is_exact_mount-layers system table meta.mount_point laws s readable) ∙ e)

    exact_none :
        (s : S)
        → can_read s ≡ true
        → is_exact_mount system.mounts s meta.mount_point ≡ false
        → count s ≤ 0
    exact_none s readable e =
        ground
          (arith, sym (is_exact_mount-layers system table meta.mount_point laws s readable) ∙ e)

    last_layer :
        (s : S)
        → can_read s ≡ true
        → count s ≤ 1
        → Ends
            (AtMost 0)
            (AtMost 1)
            (unmount_layer conf system (is_exact_mount system.mounts s meta.mount_point) meta s)
    last_layer s readable le =
        unmount_layer-Ends (is_exact_mount system.mounts s meta.mount_point) 0 s
          (exact_pos s readable) (exact_none s readable) le

    pub Ends-left :
        (P Q R : S → Type 0) (r : Result PkgfsError (Unit {0}) × S)
        → Ends P Q r
        → ((s : S) → P s → R s)
        → ((s : S) → Q s → R s)
        → R r.1
    Ends-left P Q R (ok _, s) h p q = p s h
    Ends-left P Q R (err _, s) h p q = q s h

    Ends-also :
        (P Q R : S → Type 0) (r : Result PkgfsError (Unit {0}) × S)
        → Ends P Q r
        → R r.1
        → Ends (λ s. P s × R s) Q r
    Ends-also P Q R (ok _, s) h also = (h, also)
    Ends-also P Q R (err _, s) h also = h

    abbrev first_step : Bool → S → Result PkgfsError (Unit {0}) × S
    first_step b s =
        unmount_layer conf system (b && is_exact_mount system.mounts s meta.mount_point) meta s

    abbrev both_steps : Bool → S → Result PkgfsError (Unit {0}) × S
    both_steps b s =
        and_then (first_step b s) (λ _ t.
          unmount_layer conf system (is_exact_mount system.mounts t meta.mount_point) meta t)

    both_steps-Ends :
        (b : Bool) (s : S)
        → can_read s ≡ true
        → can_read (first_step b s).1 ≡ true
        → count s ≤ depth b
        → Ends (AtMost 0) (AtMost (depth b)) (both_steps b s)
    unfolding unmount_layer
    both_steps-Ends false s readable later le =
        Ends-and_then (λ t. AtMost 1 t × (can_read t ≡ true)) (AtMost 1) (AtMost 0) (AtMost 1)
          (first_step false s) _
          (Ends-also (AtMost 1) (AtMost 1) (λ t. can_read t ≡ true) (first_step false s)
            (unmount_layer-Ends false 1 s (λ e. absurd (cc)) (λ _. le) (omega (arith, le))) later)
          (λ _ t h. last_layer t h.1 h.0) (λ t h. h)
    both_steps-Ends true s readable later le =
        Ends-and_then (λ t. AtMost 1 t × (can_read t ≡ true)) (AtMost 2) (AtMost 0) (AtMost 2)
          (first_step true s) _
          (Ends-also (AtMost 1) (AtMost 2) (λ t. can_read t ≡ true) (first_step true s)
            (unmount_layer-Ends (is_exact_mount system.mounts s meta.mount_point) 1 s
              (exact_pos s readable) (λ e. omega (arith, exact_none s readable e)) le)
            later)
          (λ _ t h.
            Ends-map (AtMost 0) (AtMost 1) (AtMost 0) (AtMost 2) _ (last_layer t h.1 h.0) (λ u f. f)
              (λ u f. omega (arith, f)))
          (λ t h. h)

    pub unmount-Ends :
        (s : S)
        → can_read s ≡ true
        → can_read (between s) ≡ true
        → count s ≤ full
        → Ends (AtMost 0) (AtMost full) (unmount_pkgfs conf system meta s)
    unfolding unmount_pkgfs between
    unmount-Ends s readable later le =
        both_steps-Ends (overlay_enabled conf system) s readable later le

    -- An unmount adds nothing, whatever it can read.
    do_unmount-Keeps :
        (n : ℕ) (s : S)
        → count s ≤ n
        → Ends (AtMost n) (AtMost n) (do_unmount conf system meta.mount_point s)
    unfolding do_unmount
    do_unmount-Keeps n s le =
        Ends-try (AtMost n) (AtMost n) (system.mounts.unmount meta.mount_point s) _
          (λ e. omega (arith, laws.unmounted s e, le))
          (λ e. omega (arith, laws.not_unmounted s e, le))

    unmount_layer-Keeps :
        (b : Bool) (n : ℕ) (s : S)
        → count s ≤ n
        → Ends (AtMost n) (AtMost n) (unmount_layer conf system b meta s)
    unfolding unmount_layer
    unmount_layer-Keeps false n s le = le
    unmount_layer-Keeps true n s le = do_unmount-Keeps n s le

    pub unmount-AtMost :
        (n : ℕ) (s : S) → count s ≤ n → count (unmount_pkgfs conf system meta s).1 ≤ n
    unfolding unmount_pkgfs
    unmount-AtMost n s le =
        Ends-left (AtMost n) (AtMost n) (AtMost n) (both_steps (overlay_enabled conf system) s)
          (Ends-and_then (AtMost n) (AtMost n) (AtMost n) (AtMost n)
            (first_step (overlay_enabled conf system) s) _ (unmount_layer-Keeps _ n s le)
            (λ _ t h. unmount_layer-Keeps _ n t h) (λ t h. h))
          (λ t h. h) (λ t h. h)

    pub unmount_unread :
        (s : S) → can_read s ≡ false → unmount_pkgfs conf system meta s ≡ (ok tt, s)
    unfolding unmount_pkgfs unmount_layer
    unmount_unread s unread =
        let nothing = is_exact_mount-unread system table meta.mount_point laws s unread in
        ground (arith, nothing)
