-- ===== src/Mount/Pkgfs/Layers.antt =====
-- How many layers are mounted for a package, whatever its mounts and unmounts meet.
use ssam.Prelude.{
  ℕ, suc, ◌+◌, ◌<◌, Bool, true, false, Option, none, some, List, [], ◌∷◌, String, Result, ok, err,
  ltb, if◌then◌else◌, ◌≡◌, refl, sym, ◌∙◌, arith, inl, inr, Bool-cases, Option-cases, ap, ltb→lt,
  lt→ltb,
}
use ssam.Mount.{Configuration, best_match, findmnt, is_exact_mount}
use ssam.Mount.Exact.{
  is_mount_of, any_mount_of, AreResolved, is_exact_mount-any_mount_of, is_exact_mount-no_dir,
}
use ssam.Mount.Device.{DmTargetInfo, and_then, try}
use ssam.Mount.Pkgfs.{
  System, AttachInfo, has_nul, made_target, make_dirs, mount_unless_nul, do_mount, do_unmount,
}

-- What a call leaves, if it succeeds and if it fails.
abbrev pub Ends : {S E A : Type 0} → (S → Type 0) → (S → Type 0) → Result E A × S → Type 0
Ends P Q (ok _, s) = P s
Ends P Q (err _, s) = Q s

module _ {S E : Type 0} (P Q P' Q' : S → Type 0) where
  pub Ends-and_then :
      {A B : Type 0} (r : Result E A × S) (k : A → S → Result E B × S)
      → Ends P Q r
      → ((a : A) (s : S) → P s → Ends P' Q' (k a s))
      → ((s : S) → Q s → Q' s)
      → Ends P' Q' (and_then r k)
  Ends-and_then (ok a, s) k p next fail = next a s p
  Ends-and_then (err e, s) k q next fail = fail s q

  pub Ends-map :
      {A : Type 0} (r : Result E A × S)
      → Ends P Q r
      → ((s : S) → P s → P' s)
      → ((s : S) → Q s → Q' s)
      → Ends P' Q' r
  Ends-map (ok a, s) h p q = p s h
  Ends-map (err e, s) h p q = q s h

module _ {S E : Type 0} (P Q : S → Type 0) where
  pub Ends-try :
      (r : Bool × S) (e : E)
      → (r.0 ≡ true → P r.1)
      → (r.0 ≡ false → Q r.1)
      → Ends {E = E} {A = Unit {0}} P Q (try r e)
  Ends-try (true, s) e p q = p refl
  Ends-try (false, s) e p q = q refl

-- `table` is the kernel's mount table, whether `/proc/mounts` can be read or not.
module _ {S Dev : Type 0} (system : System S Dev) (table : S → List String) (target : String) where
  open system use {mounts, mapper, attach, loop_path, detach, new_suffix}

  abbrev count_mounts : S → List String → ℕ
  count_mounts s [] = 0
  count_mounts s (m ∷ ms) =
      if is_mount_of mounts s target m then suc (count_mounts s ms) else count_mounts s ms

  -- The mounts of the target.
  unfoldable pub layers : S → ℕ
  layers s = count_mounts s (table s)

  abbrev is_read : Option (List String) → Bool
  is_read none = false
  is_read (some ms) = true

  -- Whether `/proc/mounts` can be read.
  abbrev pub reads : S → Bool
  reads s = is_read (mounts.mounts s)

  -- What the kernel promises of the target: `/proc/mounts` shows the mount table if it can be read,
  -- with resolved paths, the target is a directory while something is mounted on it, `mount` adds one
  -- line and `unmount` takes one away, if they succeed, and no other call changes its lines.
  pub record MountLaws : Type 0 where
    pub shown : (s : S) (ms : List String) → mounts.mounts s ≡ some ms → ms ≡ table s
    pub resolved : (s : S) → AreResolved mounts s target (table s)
    pub has_dir : (s : S) → 0 < layers s → mounts.is_dir s target ≡ true
    pub mounted :
        (source fstype : String) (readonly : Bool) (options : Option String) (s : S)
        → (mounts.mount source target fstype readonly options s).0 ≡ true
        → layers (mounts.mount source target fstype readonly options s).1 ≡ layers s + 1
    pub not_mounted :
        (source fstype : String) (readonly : Bool) (options : Option String) (s : S)
        → (mounts.mount source target fstype readonly options s).0 ≡ false
        → layers (mounts.mount source target fstype readonly options s).1 ≡ layers s
    pub unmounted :
        (s : S)
        → (mounts.unmount target s).0 ≡ true
        → layers (mounts.unmount target s).1 + 1 ≡ layers s
    pub not_unmounted :
        (s : S)
        → (mounts.unmount target s).0 ≡ false
        → layers (mounts.unmount target s).1 ≡ layers s
    pub make_dirs_keeps :
        (path : String) (s : S) → layers (mounts.create_dir_all path s).1 ≡ layers s
    pub attach_keeps : (info : AttachInfo) (s : S) → layers (attach info s).1 ≡ layers s
    pub detach_keeps : (dev : Dev) (s : S) → layers (detach dev s) ≡ layers s
    pub suffix_keeps : (s : S) → layers (new_suffix s).1 ≡ layers s
    pub create_keeps : (name : String) (s : S) → layers (mapper.create_device name s).1 ≡ layers s
    pub load_keeps :
        (name : String) (table : DmTargetInfo) (s : S)
        → layers (mapper.load_table name table s).1 ≡ layers s
    pub resume_keeps : (name : String) (s : S) → layers (mapper.resume_device name s).1 ≡ layers s
    pub remove_keeps : (name : String) (s : S) → layers (mapper.remove_device name s).1 ≡ layers s

  module _ (laws : MountLaws) where
    open laws use {shown, resolved, has_dir}

    any-count :
        (s : S) (ms : List String) → any_mount_of mounts s target ms ≡ ltb 0 (count_mounts s ms)
    unfolding any_mount_of
    any-count s [] = refl
    any-count s (m ∷ ms) = elim (Bool-cases (is_mount_of mounts s target m)) [
      | inl e ↦ rw e (sym (lt→ltb 0 (suc (count_mounts s ms)) (omega arith)))
      | inr e ↦ rw e (any-count s ms)
    ]

    read_table : (s : S) → reads s ≡ true → mounts.mounts s ≡ some (table s)
    read_table s e = elim (Option-cases (mounts.mounts s)) [
      | inl unread ↦ absurd (let f = rw unread at e in cc)
      | inr (ms, read) ↦ read ∙ ap some (shown s ms read)
    ]

    pub is_exact_mount-layers :
        (s : S) → reads s ≡ true → is_exact_mount mounts s target ≡ ltb 0 (layers s)
    unfolding layers
    is_exact_mount-layers s readable = elim (Bool-cases (mounts.is_dir s target)) [
      | inl dir ↦
          is_exact_mount-any_mount_of mounts s target (table s) dir (read_table s readable)
            (resolved s)
          ∙ any-count s (table s)
      | inr no_dir ↦ elim (Bool-cases (ltb 0 (layers s))) [
        | inl some_layer ↦
            absurd
              (let dir = has_dir s (ltb→lt 0 (layers s) some_layer) in ground (arith, dir, no_dir))
        | inr none_left ↦ is_exact_mount-no_dir mounts s target no_dir ∙ sym none_left
      ]
    ]

    -- Nothing is found if the mounts cannot be read.
    pub is_exact_mount-unread : (s : S) → reads s ≡ false → is_exact_mount mounts s target ≡ false
    unfolding is_exact_mount findmnt best_match
    is_exact_mount-unread s e = elim (Bool-cases (mounts.is_dir s target)) [
      | inr no_dir ↦ is_exact_mount-no_dir mounts s target no_dir
      | inl dir ↦ elim (Option-cases (mounts.mounts s)) [
        | inl unread ↦ rw (dir, unread) refl
        | inr (ms, read) ↦ absurd (let f = rw read at e in cc)
      ]
    ]

    -- As many layers as that.
    abbrev At : ℕ → S → Type 0
    At n s = layers s ≡ n

    -- A call of the device mapper, or of something else that mounts nothing.
    abbrev Keeps : {E A : Type 0} → ℕ → Result E A × S → Type 0
    Keeps n r = Ends (At n) (At n) r

    pub do_mount-Ends :
        (conf : Configuration) (source fstype : String) (readonly : Bool) (options : Option String)
        (n : ℕ) (s : S)
        → At n s
        → Ends (At (suc n)) (At n) (do_mount conf system source target fstype readonly options s)
    unfolding do_mount make_dirs
    do_mount-Ends conf source fstype readonly options n s at =
        Ends-and_then (At n) (At n) (At (suc n)) (At n)
          (made_target conf system (mounts.exists s target) target s) _
          (made (mounts.exists s target)) (λ _ t here. guarded (has_nul options) t here)
          (λ t here. here)
      where
        made : (there : Bool) → Keeps n (made_target conf system there target s)
        made true = at
        made false =
            Ends-try (At n) (At n) (mounts.create_dir_all target s) _
              (λ _. laws.make_dirs_keeps target s ∙ at) (λ _. laws.make_dirs_keeps target s ∙ at)

        guarded :
            (nul : Bool) (t : S)
            → At n t
            → Ends
                (At (suc n))
                (At n)
                (mount_unless_nul conf system nul source target fstype readonly options t)
        guarded true t here = here
        guarded false t here =
            Ends-try (At (suc n)) (At n) (mounts.mount source target fstype readonly options t) _
              (λ e. omega (arith, laws.mounted source fstype readonly options t e, here))
              (λ e. laws.not_mounted source fstype readonly options t e ∙ here)

    pub make_dirs-Keeps :
        (conf : Configuration) (path : String) (n : ℕ) (s : S)
        → At n s
        → Keeps n (make_dirs conf system path s)
    unfolding make_dirs
    make_dirs-Keeps conf path n s at =
        Ends-try (At n) (At n) (mounts.create_dir_all path s) _
          (λ _. laws.make_dirs_keeps path s ∙ at) (λ _. laws.make_dirs_keeps path s ∙ at)

    pub do_unmount-Ends :
        (conf : Configuration) (n : ℕ) (s : S)
        → At (suc n) s
        → Ends (At n) (At (suc n)) (do_unmount conf system target s)
    unfolding do_unmount
    do_unmount-Ends conf n s at =
        Ends-try (At n) (At (suc n)) (mounts.unmount target s) _
          (λ e. omega (arith, laws.unmounted s e, at)) (λ e. laws.not_unmounted s e ∙ at)
