-- ===== src/Mount/Exact.antt =====
-- `is_exact_mount` is the test that it stands for.
use ssam.Prelude.{
  ℕ, ◌<◌, Bool, true, false, ◌||◌, Option, none, some, List, [], ◌∷◌, String, ltb, if◌then◌else◌,
  ◌≡◌, refl, ap, ◌∙◌, arith, inl, inr, Bool-cases,
}
use ssam.Paths.{Component, components}
use ssam.Mount.{
  MountSystem, components_eq, is_prefix, path_eq, starts_with, len, max_by_len, canonicalize_or_raw,
  enclosing, best_match, findmnt, is_exact_mount, first_of, is_found,
}

-- Whether a line of `/proc/mounts` is a mount of the target.
module _ {S : Type 0} (system : MountSystem S) where
  abbrev pub is_mount_of : S → String → String → Bool
  is_mount_of s target m =
      path_eq (canonicalize_or_raw system s m) (canonicalize_or_raw system s target)

  unfoldable pub any_mount_of : S → String → List String → Bool
  any_mount_of s target [] = false
  any_mount_of s target (m ∷ ms) = is_mount_of s target m || any_mount_of s target ms

  -- A resolved path that the target lies in is as long as the target if it is the target, and
  -- shorter if it is not.
  abbrev pub AreResolved : S → String → List String → Type 0
  AreResolved s target [] = Unit {0}
  AreResolved s target (m ∷ ms) =
      ((is_mount_of s target m ≡ true
          → len (canonicalize_or_raw system s m) ≡ len (canonicalize_or_raw system s target))
        × (is_mount_of s target m ≡ false
            → starts_with (canonicalize_or_raw system s target) (canonicalize_or_raw system s m)
              ≡ true
            → len (canonicalize_or_raw system s m) < len (canonicalize_or_raw system s target)))
      × AreResolved s target ms

or_assoc : (a b c : Bool) → ((a || b) || c) ≡ (a || (b || c))
or_assoc true b c = refl
or_assoc false b c = refl

module _ (old new : Bool) (l n whole : ℕ) (o1 : old ≡ true → l ≡ whole)
    (o2 : old ≡ false → l < whole) (n1 : new ≡ true → n ≡ whole)
    (n2 : new ≡ false → n < whole) where
  keep_old : ltb n l ≡ true → old ≡ (old || new)
  keep_old e = ground (arith, o1, o2, n1, n2)

  take_new : ltb n l ≡ false → new ≡ (old || new)
  take_new e = ground (arith, o1, o2, n1, n2)

prefix_of_eq : (cs ds : List Component) → components_eq cs ds ≡ true → is_prefix cs ds ≡ true
prefix_of_eq [] [] e = refl
prefix_of_eq [] (d ∷ ds) e = cc
prefix_of_eq (c ∷ cs) [] e = cc
prefix_of_eq (c ∷ cs) (d ∷ ds) e = ground (arith, prefix_of_eq cs ds)

module _ {S : Type 0} (system : MountSystem S) (s : S) (target : String) where
  -- What is kept as the best so far, and whether it is the target.
  abbrev kept : Option (String × ℕ) → Bool
  kept none = false
  kept (some b) = is_mount_of system s target b.0

  abbrev KeptFits : Option (String × ℕ) → Type 0
  KeptFits none = Unit {0}
  KeptFits (some b) =
      (is_mount_of system s target b.0 ≡ true → b.1 ≡ len (canonicalize_or_raw system s target))
      × (is_mount_of system s target b.0 ≡ false → b.1 < len (canonicalize_or_raw system s target))

  abbrev there : String
  there = canonicalize_or_raw system s target

  outside :
      (m : String)
      → starts_with there (canonicalize_or_raw system s m) ≡ false
      → is_mount_of system s target m ≡ false
  outside m out = elim (Bool-cases (is_mount_of system s target m)) [
    | inr e ↦ e
    | inl e ↦
        let inside : starts_with there (canonicalize_or_raw system s m) ≡ true =
          prefix_of_eq (components (canonicalize_or_raw system s m)) (components there) e in
        absurd (ground (arith, out, inside))
  ]

  -- Of two candidates the longer one is kept, and so the target, if it is one of them.
  longer_fits :
      (b : String × ℕ) (m : String)
      → KeptFits (some b)
      → KeptFits (some (m, len (canonicalize_or_raw system s m)))
      → KeptFits (
          some (
            if ltb (len (canonicalize_or_raw system s m)) b.1
            then b
            else (m, len (canonicalize_or_raw system s m))))
        × (kept (
              some (
                if ltb (len (canonicalize_or_raw system s m)) b.1
                then b
                else (m, len (canonicalize_or_raw system s m))))
            ≡ (is_mount_of system s target b.0 || is_mount_of system s target m))
  longer_fits b m fb fm = elim (Bool-cases (ltb (len (canonicalize_or_raw system s m)) b.1)) [
    | inl shorter ↦ rw shorter (fb, keep_old _ _ b.1 _ (len there) fb.0 fb.1 fm.0 fm.1 shorter)
    | inr longer ↦ rw longer (fm, take_new _ _ b.1 _ (len there) fb.0 fb.1 fm.0 fm.1 longer)
  ]

  inside_step :
      (best : Option (String × ℕ)) (m : String) (ms : List String)
      → KeptFits best
      → (is_mount_of system s target m ≡ true → len (canonicalize_or_raw system s m) ≡ len there)
        × (is_mount_of system s target m ≡ false
            → starts_with there (canonicalize_or_raw system s m) ≡ true
            → len (canonicalize_or_raw system s m) < len there)
      → starts_with there (canonicalize_or_raw system s m) ≡ true
      → ((b : Option (String × ℕ))
          → KeptFits b
          → kept (max_by_len b (enclosing system s there ms))
            ≡ (kept b || any_mount_of system s target ms))
      → kept (
          max_by_len best ((m, len (canonicalize_or_raw system s m)) ∷ enclosing system s there ms))
        ≡ (kept best || (is_mount_of system s target m || any_mount_of system s target ms))
  unfolding max_by_len
  inside_step none m ms k here inside rest =
      rest (some (m, len (canonicalize_or_raw system s m))) (here.0, λ e. here.1 e inside)
  inside_step (some b) m ms k here inside rest =
      let (fits, same) = longer_fits b m k (here.0, λ e. here.1 e inside) in
      rest _ fits
      ∙ ap (λ x. x || any_mount_of system s target ms) same
      ∙ or_assoc (is_mount_of system s target b.0) _ _

  max_by_len-kept :
      (best : Option (String × ℕ)) (ms : List String)
      → KeptFits best
      → AreResolved system s target ms
      → kept (max_by_len best (enclosing system s (canonicalize_or_raw system s target) ms))
        ≡ (kept best || any_mount_of system s target ms)
  unfolding max_by_len enclosing any_mount_of
  max_by_len-kept none [] k r = refl
  max_by_len-kept (some b) [] k r = ground arith
  max_by_len-kept best (m ∷ ms) k (here, r) =
      elim (Bool-cases (starts_with there (canonicalize_or_raw system s m))) [
        | inr out ↦
            let other : is_mount_of system s target m ≡ false = outside m out in
            rw (out, other) (max_by_len-kept best ms k r)
        | inl inside ↦
            rw inside (inside_step best m ms k here inside (λ b fits. max_by_len-kept b ms fits r))
      ]

  found_kept : (best : Option (String × ℕ)) → is_found system s target (first_of best) ≡ kept best
  found_kept none = refl
  found_kept (some b) = refl

  -- If the target is a directory and the mounts can be read, then `is_exact_mount` holds exactly if
  -- some line of `/proc/mounts` has the target as its mount point, when both are resolved: the longest
  -- match finds it. Of the resolved paths that the target lies in, the target must be the longest.
  pub is_exact_mount-any_mount_of :
      (ms : List String)
      → system.is_dir s target ≡ true
      → system.mounts s ≡ some ms
      → AreResolved system s target ms
      → is_exact_mount system s target ≡ any_mount_of system s target ms
  unfolding is_exact_mount findmnt best_match
  is_exact_mount-any_mount_of ms dir read resolved =
      rw (dir, read)
        (found_kept (max_by_len none (enclosing system s there ms))
          ∙ max_by_len-kept none ms tt resolved)

  -- Where the target is no directory, nothing is mounted there.
  pub is_exact_mount-no_dir :
      system.is_dir s target ≡ false → is_exact_mount system s target ≡ false
  unfolding is_exact_mount findmnt
  is_exact_mount-no_dir e = rw e refl
