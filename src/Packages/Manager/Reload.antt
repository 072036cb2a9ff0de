-- ===== src/Packages/Manager/Reload.antt =====
-- What `reload_packages` knows afterwards.
use ssam.Prelude.{
  ◌≡◌, refl, ap, Bool, true, false, ◌||◌, ◌⊎◌, inl, inr, Option, none, some, List, [], ◌∷◌, String,
  HashMap, get, insert, get-insert_self, get-insert_ne, Result, ok, err, arith, if◌then◌else◌,
  str_eq-cases, Bool-cases,
}
use ssam.Store.{insert_package, insert_broken, insert_bundled_path, clear_all}
use ssam.Packages.Manager.{
  BrokenPackageInfo, PackageParseResult, System, Store, load_parsed_package, filter_parsed, names,
  load_bundled, load_downloaded, reload_packages, stored, created,
}

abbrev held : {A : Type 0} → Option A → Bool
held none = false
held (some a) = true

held-insert :
    {A : Type 0} (m : HashMap A) (k i : String) (a : A)
    → held (get m i) ≡ true
    → held (get (insert m k a) i) ≡ true
held-insert m k i a h = elim (str_eq-cases k i) [
  | inl (same, _) ↦ rw (← same, get-insert_self m k a) refl
  | inr (other, _) ↦ rw (get-insert_ne m k i a other) h
]

held-insert_self :
    {A : Type 0} (m : HashMap A) (k : String) (a : A) → held (get (insert m k a) k) ≡ true
held-insert_self m k a = rw (get-insert_self m k a) refl

-- The package is loaded or listed as broken.
abbrev pub is_known : {P : Type 0} → Store P → String → Bool
is_known s name = held (get s.packages name) || held (get s.broken_packages name)

broken-is_known :
    {P : Type 0} (s : Store P) (k n : String) (b : BrokenPackageInfo)
    → is_known s n ≡ true ⊎ k ≡ n
    → is_known (record s { broken_packages = insert s.broken_packages k b }) n ≡ true
broken-is_known s k n b (inl known) = ground (arith, held-insert s.broken_packages k n b)
broken-is_known s k n b (inr same) =
    let there = held-insert_self s.broken_packages k b in rw (← same) (ground arith)

module _ {PF P E : Type 0} (sys : System PF P E) (bundled_dir downloaded_dir : String) where
  stored-is_known :
      (r : Result String P × E) (parsed : PackageParseResult PF) (s : Store P) (n : String)
      → is_known s n ≡ true ⊎ parsed.package_name ≡ n
      → is_known (stored sys bundled_dir downloaded_dir r parsed s).0 n ≡ true
  unfolding stored insert_package insert_broken
  stored-is_known (ok p, e) parsed s n (inr same) =
      rw (← same, held-insert_self s.packages parsed.package_name p) refl
  stored-is_known (ok p, e) parsed s n (inl known) =
      ground (arith, held-insert s.packages parsed.package_name n p)
  stored-is_known (err t, e) parsed s n h = broken-is_known s parsed.package_name n _ h

  load_parsed_package-is_known :
      (parsed : PackageParseResult PF) (m : Store P × E) (n : String)
      → is_known m.0 n ≡ true ⊎ parsed.package_name ≡ n
      → is_known (load_parsed_package sys bundled_dir downloaded_dir parsed m).0 n ≡ true
  unfolding load_parsed_package
  load_parsed_package-is_known parsed (s, e) n =
      stored-is_known (created sys bundled_dir downloaded_dir parsed.package_file parsed.path e)
        parsed s n

  load_downloaded-is_known :
      (ps : List (PackageParseResult PF)) (m : Store P × E) (n : String)
      → is_known m.0 n ≡ true ⊎ names sys bundled_dir downloaded_dir ps n ≡ true
      → is_known (load_downloaded sys bundled_dir downloaded_dir ps m).0 n ≡ true
  unfolding load_downloaded names
  load_downloaded-is_known [] m n (inl known) = known
  load_downloaded-is_known [] m n (inr listed) = cc
  load_downloaded-is_known (p ∷ ps) m n (inl known) =
      load_downloaded-is_known ps (load_parsed_package sys bundled_dir downloaded_dir p m) n
        (inl (load_parsed_package-is_known p m n (inl known)))
  load_downloaded-is_known (p ∷ ps) m n (inr listed) =
      load_downloaded-is_known ps (load_parsed_package sys bundled_dir downloaded_dir p m) n
        (elim (str_eq-cases p.package_name n) [
          | inl (same, _) ↦ inl (load_parsed_package-is_known p m n (inr same))
          | inr (_, other) ↦ inr (ground arith)
        ])

  load_bundled-is_known :
      (ps : List (PackageParseResult PF)) (overridden : String → Bool) (m : Store P × E)
      (n : String)
      → is_known m.0 n ≡ true
        ⊎ (names sys bundled_dir downloaded_dir ps n ≡ true) × (overridden n ≡ false)
      → is_known (load_bundled sys bundled_dir downloaded_dir ps overridden m).0 n ≡ true
  unfolding load_bundled names insert_bundled_path
  load_bundled-is_known [] overridden m n (inl known) = known
  load_bundled-is_known [] overridden m n (inr (listed, _)) = cc
  load_bundled-is_known (p ∷ ps) overridden (s, e) n h =
      let listed : Store P × E = (insert_bundled_path s p.package_name p.path, e) in
      load_bundled-is_known ps overridden
        (if overridden p.package_name
          then listed
          else load_parsed_package sys bundled_dir downloaded_dir p listed)
        n
        (elim (Bool-cases (overridden p.package_name)) [
          | inl over ↦ rw over (elim h [
            | inl known ↦ inl known
            | inr (named, free) ↦ elim (str_eq-cases p.package_name n) [
              | inl (same, _) ↦ absurd (cc (over, free, ap overridden same))
              | inr (_, other) ↦ inr (
                let later : names sys bundled_dir downloaded_dir ps n ≡ true = ground arith in
                    later,
                free,
              )
            ]
          ])
          | inr own ↦ rw own (elim h [
            | inl known ↦ inl (load_parsed_package-is_known p listed n (inl known))
            | inr (named, free) ↦ elim (str_eq-cases p.package_name n) [
              | inl (same, _) ↦ inl (load_parsed_package-is_known p listed n (inr same))
              | inr (_, other) ↦ inr (
                let later : names sys bundled_dir downloaded_dir ps n ≡ true = ground arith in
                    later,
                free,
              )
            ]
          ])
        ])

  -- After a reload every package that a file of either directory has the name of is there, as a
  -- loaded or as a broken one: a package that cannot be loaded hides no other.
  pub reload_packages-is_known :
      (m : Store P × E) (n : String)
      → names sys bundled_dir downloaded_dir
            (filter_parsed sys bundled_dir downloaded_dir
              (sys.parse_packages_from_dir downloaded_dir m.1))
            n
          ≡ true
        ⊎ names sys bundled_dir downloaded_dir
            (filter_parsed sys bundled_dir downloaded_dir
              (sys.parse_packages_from_dir bundled_dir m.1))
            n
          ≡ true
      → is_known (reload_packages sys bundled_dir downloaded_dir m).0 n ≡ true
  unfolding reload_packages
  reload_packages-is_known (s, e) n listed =
      let downloaded =
        filter_parsed sys bundled_dir downloaded_dir
          (sys.parse_packages_from_dir downloaded_dir e) in
      let bundled =
        filter_parsed sys bundled_dir downloaded_dir (sys.parse_packages_from_dir bundled_dir e) in
      let first =
        load_bundled sys bundled_dir downloaded_dir bundled
          (names sys bundled_dir downloaded_dir downloaded) (clear_all s, e) in
      load_downloaded-is_known downloaded first n
        (elim (Bool-cases (names sys bundled_dir downloaded_dir downloaded n)) [
          | inl here ↦ inr here
          | inr absent ↦ elim listed [
            | inl here ↦ inr here
            | inr there ↦ inl (
                load_bundled-is_known bundled (names sys bundled_dir downloaded_dir downloaded)
                  (clear_all s, e) n (inr (there, absent)))
          ]
        ])
