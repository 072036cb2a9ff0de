-- ===== src/Store.antt =====
-- `HashMapPackageStore` and `PackageStore` of ssamd/src/package_manager/store.rs: the packages, the
-- broken packages and the paths of the bundled ones. Each call holds one lock, so calls are steps.
use ssam.Prelude.{Option, String, HashMap, [], get, insert, remove}

pub record HashMapPackageStore (T B : Type 0) : Type 0 where
  pub packages : HashMap T
  pub broken_packages : HashMap B
  pub bundled_packages : HashMap String

module _ {T B : Type 0} where
  unfoldable pub new : HashMapPackageStore T B
  new = record { packages = []; broken_packages = []; bundled_packages = [] }

  unfoldable pub get_package : HashMapPackageStore T B → String → Option T
  get_package s key = get s.packages key

  -- The value is the package that the key had before.
  unfoldable pub insert_package :
      HashMapPackageStore T B → String → T → Option T × HashMapPackageStore T B
  insert_package s key item =
      (get s.packages key, record s { packages = insert s.packages key item })

  unfoldable pub remove_package :
      HashMapPackageStore T B → String → Option T × HashMapPackageStore T B
  remove_package s key = (get s.packages key, record s { packages = remove s.packages key })

  unfoldable pub clear : HashMapPackageStore T B → HashMapPackageStore T B
  clear s = record s { packages = [] }

  unfoldable pub get_broken : HashMapPackageStore T B → String → Option B
  get_broken s key = get s.broken_packages key

  unfoldable pub insert_broken : HashMapPackageStore T B → String → B → HashMapPackageStore T B
  insert_broken s key info = record s { broken_packages = insert s.broken_packages key info }

  unfoldable pub remove_broken :
      HashMapPackageStore T B → String → Option B × HashMapPackageStore T B
  remove_broken s key =
      (get s.broken_packages key, record s { broken_packages = remove s.broken_packages key })

  unfoldable pub clear_broken : HashMapPackageStore T B → HashMapPackageStore T B
  clear_broken s = record s { broken_packages = [] }

  unfoldable pub get_bundled_path : HashMapPackageStore T B → String → Option String
  get_bundled_path s name = get s.bundled_packages name

  unfoldable pub insert_bundled_path :
      HashMapPackageStore T B → String → String → HashMapPackageStore T B
  insert_bundled_path s name path = record s {
    bundled_packages = insert s.bundled_packages name path;
  }

  unfoldable pub clear_bundled_paths : HashMapPackageStore T B → HashMapPackageStore T B
  clear_bundled_paths s = record s { bundled_packages = [] }

  unfoldable pub clear_all : HashMapPackageStore T B → HashMapPackageStore T B
  clear_all s = clear_bundled_paths (clear_broken (clear s))
