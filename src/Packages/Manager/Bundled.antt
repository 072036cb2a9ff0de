-- ===== src/Packages/Manager/Bundled.antt =====
-- A request to remove a package touches no file of the bundled directory.
use ssam.Prelude.{
  ◌≡◌, inl, inr, Bool, true, false, Option, none, some, String, Result, ok, err, Bool-cases,
}
use ssam.Store.{get_package, get_broken, get_bundled_path, remove_package, remove_broken}
use ssam.Packages.Manager.{
  BrokenPackageInfo, PackageParseResult, System, Store, created, recovered, recover_package,
  restored, try_recover, is_bundled_package, restore_bundled, file_removed, purged, torn_down,
  remove_found, handle_remove_package,
}

module _ {PF P E : Type 0} (sys : System PF P E) (bundled_dir downloaded_dir : String) where
  -- What the calls of a removal keep true of the system, a file removal only outside of the bundled
  -- directory.
  pub record Keeps (I : E → Type 0) : Type 0 where
    pub create : (path : String) (file : PF) (e : E) → I e → I (sys.create_package path file e).1
    pub purge : (name : String) (e : E) → I e → I (sys.purge_volume name e).1
    pub teardown : (p : P) (e : E) → I e → I (sys.teardown p e).1
    pub remove :
        (path : String) (e : E)
        → is_bundled_package sys bundled_dir downloaded_dir path ≡ false
        → I e
        → I (sys.remove_package_file path e).1

  module _ (I : E → Type 0) (k : Keeps I) where
    created-keeps :
        (r : Result String PF) (path : String) (e : E)
        → I e
        → I (created sys bundled_dir downloaded_dir r path e).1
    unfolding created
    created-keeps (ok file) path e i = k.create path file e i
    created-keeps (err t) path e i = i

    recovered-keeps :
        (r : Result String (PackageParseResult PF)) (path : String) (e : E)
        → I e
        → I (recovered sys bundled_dir downloaded_dir r path e).1
    unfolding recovered
    recovered-keeps (ok parsed) path e i = created-keeps parsed.package_file path e i
    recovered-keeps (err t) path e i = i

    restored-keeps :
        (r : Result String P × E) (name : String) (s : Store P)
        → I r.1
        → I (restored sys bundled_dir downloaded_dir r name s).1
    unfolding restored
    restored-keeps (ok p, e) name s i = i
    restored-keeps (err t, e) name s i = i

    try_recover-keeps :
        (name path : String) (m : Store P × E)
        → I m.1
        → I (try_recover sys bundled_dir downloaded_dir name path m).1
    unfolding try_recover recover_package
    try_recover-keeps name path (s, e) i =
        restored-keeps (recover_package sys bundled_dir downloaded_dir path e) name s
          (recovered-keeps (sys.parse_package path e) path e i)

    restore_bundled-keeps :
        (o : Option String) (name : String) (m : Store P × E)
        → I m.1
        → I (restore_bundled sys bundled_dir downloaded_dir o name m).1
    unfolding restore_bundled
    restore_bundled-keeps none name m i = i
    restore_bundled-keeps (some path) name m i = try_recover-keeps name path m i

    file_removed-keeps :
        (r : Result String Bool × E) (name : String) (s : Store P)
        → I r.1
        → I (file_removed sys bundled_dir downloaded_dir r name s).1.1
    unfolding file_removed
    file_removed-keeps (err t, e) name s i = i
    file_removed-keeps (ok b, e) name s i =
        restore_bundled-keeps (get_bundled_path s name) name (s, e) i

    purged-keeps :
        (r : Result String (Unit {0}) × E) (name path : String) (s : Store P)
        → is_bundled_package sys bundled_dir downloaded_dir path ≡ false
        → I r.1
        → I (purged sys bundled_dir downloaded_dir r name path s).1.1
    unfolding purged
    purged-keeps (err t, e) name path s own i = try_recover-keeps name path (s, e) i
    purged-keeps (ok u, e) name path s own i =
        file_removed-keeps (sys.remove_package_file path e) name s (k.remove path e own i)

    torn_down-keeps :
        (r : Result String (Unit {0}) × E) (p : P) (name : String) (purge : Bool) (s : Store P)
        → is_bundled_package sys bundled_dir downloaded_dir (sys.path_of p) ≡ false
        → I r.1
        → I (torn_down sys bundled_dir downloaded_dir r p name purge s).1.1
    unfolding torn_down
    torn_down-keeps (err t, e) p name purge s own i = i
    torn_down-keeps (ok u, e) p name true s own i =
        purged-keeps (sys.purge_volume name e) name (sys.path_of p) (remove_package s name).1 own
          (k.purge name e i)
    torn_down-keeps (ok u, e) p name false s own i =
        purged-keeps (ok tt, e) name (sys.path_of p) (remove_package s name).1 own i

    remove_found-keeps :
        (o : Option P) (b : Option BrokenPackageInfo) (name : String) (purge : Bool)
        (m : Store P × E)
        → I m.1
        → I (remove_found sys bundled_dir downloaded_dir o b name purge m).1.1
    unfolding remove_found
    remove_found-keeps (some p) b name purge (s, e) i =
        elim (Bool-cases (is_bundled_package sys bundled_dir downloaded_dir (sys.path_of p))) [
          | inl inside ↦ rw inside i
          | inr own ↦
              rw own (torn_down-keeps (sys.teardown p e) p name purge s own (k.teardown p e i))
        ]
    remove_found-keeps none (some info) name purge (s, e) i =
        elim (Bool-cases (is_bundled_package sys bundled_dir downloaded_dir info.package_path)) [
          | inl inside ↦ rw inside i
          | inr own ↦ rw own (
              file_removed-keeps (sys.remove_package_file info.package_path e) name
                (remove_broken s name).1 (k.remove info.package_path e own i))
        ]
    remove_found-keeps none none name purge m i = i

    -- A request to remove a package asks for the removal of no file of the bundled directory: what
    -- the other calls keep true of the system, and file removals outside of that directory, the
    -- request keeps true, whatever package it names and whatever the calls answer.
    pub handle_remove_package-keeps :
        (name : String) (purge : Bool) (s : Store P) (e : E)
        → I e
        → I (handle_remove_package sys bundled_dir downloaded_dir name purge (s, e)).1.1
    unfolding handle_remove_package
    handle_remove_package-keeps name purge s e i =
        remove_found-keeps (get_package s name) (get_broken s name) name purge (s, e) i
