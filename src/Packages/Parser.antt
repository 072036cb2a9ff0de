-- ===== src/Packages/Parser.antt =====
-- The parser of package directories (ssamd/src/package_manager/parser.rs). The file system is the
-- record `Files`; the configuration gives the extension of packages and the public key's file.
pub mod Verified
use ssam.Prelude.{
  Bool, true, false, ◌&&◌, Option, none, some, List, [], ◌∷◌, ℕ, String, Result, ok, err,
  if◌then◌else◌, ok_or, map_err, ◌>>=◌,
}
use ssam.Payload.{Crypto}
use ssam.Wrap.{PackageFile, Formats}
use ssam.Wrap.Loading.{PackageParseError, from_file_verified}
use ssam.Packages.Manager.{PackageParseResult}

-- Names that are no UTF-8, and files and entries that cannot be read, are `none`.
pub record Files : Type 0 where
  pub is_file : String → Bool
  pub extension : String → Option String
  pub eq_ignore_ascii_case : String → String → Bool
  pub file_name : String → Option String
  pub read_dir : String → Option (List (Option String))
  pub open_file : String → Option (List ℕ)

module _ {M R PublicKey PrivateKey : Type 0} (files : Files) (formats : Formats M R)
    (crypto : Crypto PublicKey PrivateKey) (name_of : M → String)
    (packages_ext public_key_file_path : String) where
  open files use {is_file, extension, eq_ignore_ascii_case, file_name, read_dir, open_file}

  abbrev has_extension : Option String → Bool
  has_extension none = false
  has_extension (some ext) = eq_ignore_ascii_case ext packages_ext

  unfoldable pub is_package_file : String → Bool
  is_package_file path = is_file path && has_extension (extension path)

  -- The file name stands for the name of a package that cannot be parsed.
  abbrev name_or : String → Result PackageParseError (PackageFile M R) → String
  name_or filename (ok parsed) = name_of parsed.metadata
  name_or filename (err e) = filename

  unfoldable pub parse_package_file : String → Result String (PackageParseResult (PackageFile M R))
  parse_package_file path = do
    filename ← ok_or (file_name path) "Failed to get filename from path"
    let package_file = from_file_verified formats crypto (open_file path) public_key_file_path
    ok (record {
      package_name = name_or filename package_file;
      path = path;
      package_file = map_err (λ e. "Failed to parse package file") package_file;
    })

  -- The entries that can be read and are package files, in order.
  abbrev keep_file : Option String → List String → List String
  keep_file none rest = rest
  keep_file (some path) rest = if is_package_file path then path ∷ rest else rest

  unfoldable pub package_paths : List (Option String) → List String
  package_paths [] = []
  package_paths (entry ∷ entries) = keep_file entry (package_paths entries)

  unfoldable pub parse_all :
      List String → List (Result String (PackageParseResult (PackageFile M R)))
  parse_all [] = []
  parse_all (path ∷ paths) = parse_package_file path ∷ parse_all paths

  parse_entries :
      Option (List (Option String)) → List (Result String (PackageParseResult (PackageFile M R)))
  parse_entries none = []
  parse_entries (some entries) = parse_all (package_paths entries)

  unfoldable pub parse_packages_from_dir :
      String → List (Result String (PackageParseResult (PackageFile M R)))
  unfolding parse_entries
  parse_packages_from_dir package_dir = parse_entries (read_dir package_dir)
