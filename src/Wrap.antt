-- ===== src/Wrap.antt =====
-- A package file (libssam/src/ssam_package.rs): what `wrap` writes, and how `from_file_verified` reads
-- it. A file is its bytes: the zip archive, the table of payloads, the table's size, the footer. The
-- formats of the crates bincode, serde_json and zip are parameters.
pub mod Loading
pub mod Layout
pub mod Parts
pub mod RoundTrip
use ssam.Prelude.{
  ℕ, ◌+◌, ◌-◌, Bool, true, false, not, ◌&&◌, Option, none, some, List, [], ◌∷◌, ◌++◌, String,
  HashMap, Result, ok, err, ltb, leb, ◌==◌, if◌then◌else◌, ensure, ok_or, map_err, ◌>>=◌, ◌>>◌,
  length, take, drop,
}
use ssam.Payload.{
  PayloadType, metadata, runtime_config, seccomp_policy, signature, package_filesystem, Payload,
  internal, external, data_bytes, Payloads, PayloadError, Crypto, PayloadConfig, configuration,
  init, set, get, all_types, sign,
}

-- `PackageFile`: metadata `M`, a runtime configuration `R`, a seccomp policy that is its text, and the
-- table.
pub record PackageFile (M R : Type 0) : Type 0 where
  pub metadata : M
  pub runtime_config : R
  pub seccomp_policy : List ℕ
  pub payloads : Payloads

-- bincode: what is written, and what is read at the front of some bytes. serde_json: whole texts.
pub record Formats (M R : Type 0) : Type 0 where
  pub encode_metadata : M → Option (List ℕ)
  pub decode_metadata : List ℕ → Option M
  pub write_runtime_config : R → Option (List ℕ)
  pub read_runtime_config : List ℕ → Option R
  pub is_json : List ℕ → Bool
  pub encode_payloads : Payloads → Option (List ℕ)
  pub decode_payloads : List ℕ → Option Payloads
  pub encode_size : ℕ → Option (List ℕ)
  pub decode_size : List ℕ → Option ℕ

-- The zip crate: the bytes of an archive of stored files, and where a file's contents stand in it
-- with how many bytes.
pub record Zip : Type 0 where
  pub archive : HashMap (List ℕ) → Option (List ℕ)
  pub by_name : HashMap (List ℕ) → String → Option (ℕ × ℕ)

-- Which files can be read, and which steps of the writing the system lets happen.
pub record Disk : Type 0 where
  pub read_external : String → Option (List ℕ)
  pub create : Bool
  pub open_append : Bool
  pub write_info : Bool
  pub write_footer : Bool

pub data WrapError : Type 0 where
  metadata_failed runtime_config_failed create_failed zip_failed open_failed write_failed
        footer_failed :
      WrapError
  sign_failed : PayloadError → WrapError
  missing_configuration missing_payload missing_external unsupported_payload not_in_archive :
      PayloadType → WrapError
  table_failed size_failed : WrapError

-- `SSAM_PKG_FORMAT_VERSION`, "0.6.0" and three zeros
abbrev pub format_version : List ℕ
format_version = 48 ∷ 46 ∷ 54 ∷ 46 ∷ 48 ∷ 0 ∷ 0 ∷ 0 ∷ []

-- `SSAM_PKG_MAGIC`, "MIRAEPLATFORMGAEBALGROUP"
abbrev pub magic : List ℕ
magic =
    77 ∷ 73 ∷ 82 ∷ 65 ∷ 69 ∷ 80 ∷ 76 ∷ 65 ∷ 84 ∷ 70 ∷ 79 ∷ 82 ∷ 77 ∷ 71 ∷ 65 ∷ 69 ∷ 66 ∷ 65 ∷ 76
    ∷ 71 ∷ 82 ∷ 79 ∷ 85 ∷ 80 ∷ []

abbrev pub magic_len : ℕ
magic_len = 24

abbrev pub format_version_len : ℕ
format_version_len = 8

abbrev pub footer_len : ℕ
footer_len = magic_len + format_version_len

-- `size_of::<PayloadSizeType>()`
abbrev pub payloads_size_len : ℕ
payloads_size_len = 8

-- `write_footer`
abbrev pub footer : List ℕ
footer = format_version ++ magic

module _ (zip : Zip) (disk : Disk) where
  open zip use {archive, by_name}
  open disk use {read_external, create, open_append, write_info, write_footer}

  pub contents : PayloadType → Payload → Result WrapError (List ℕ)
  contents t (data_bytes bytes) = ok bytes
  contents t (external path) = ok_or (read_external path) (missing_external t)
  contents t (internal _ _) = err (unsupported_payload t)

  -- One file of the archive; a type that is no key of the table gives none.
  wrap_payload :
      PayloadType → Option (Option Payload) → HashMap (List ℕ) → Result WrapError (HashMap (List ℕ))
  unfolding contents
  wrap_payload t none files = ok files
  wrap_payload t (some payload) files = do
    conf ← ok_or (configuration t) (missing_configuration t)
    p ← ok_or payload (missing_payload t)
    bytes ← contents t p
    ok (files ++ ((conf.filename, bytes) ∷ []))

  unfoldable pub wrap_payloads :
      List PayloadType → Payloads → HashMap (List ℕ) → Result WrapError (HashMap (List ℕ))
  unfolding wrap_payload
  wrap_payloads [] p files = ok files
  wrap_payloads (t ∷ ts) p files = wrap_payload t (p t) files >>= wrap_payloads ts p

  -- Where each payload stands in the archive.
  unfoldable pub locate : List PayloadType → HashMap (List ℕ) → Payloads → Result WrapError Payloads
  locate [] files table = ok table
  locate (t ∷ ts) files table = do
    conf ← ok_or (configuration t) (missing_configuration t)
    found ← ok_or (by_name files conf.filename) (not_in_archive t)
    locate ts files (set table t (some (internal found.0 found.1)))

  module _ {M R : Type 0} (formats : Formats M R) where
    open formats use {encode_metadata, write_runtime_config, encode_payloads, encode_size}

    unfoldable pub wrap_payloads_info : HashMap (List ℕ) → Result WrapError (List ℕ)
    wrap_payloads_info files = do
      table ← locate all_types files init
      info ← ok_or (encode_payloads table) table_failed
      size ← ok_or (encode_size (length info)) size_failed
      ensure write_info write_failed
      ok (info ++ size)

    module _ {PublicKey PrivateKey : Type 0} (crypto : Crypto PublicKey PrivateKey) where
      -- The table that is signed.
      unfoldable pub data_payloads : PackageFile M R → Result WrapError Payloads
      data_payloads p = do
        meta ← ok_or (encode_metadata p.metadata) metadata_failed
        runtime ← ok_or (write_runtime_config p.runtime_config) runtime_config_failed
        ok (
            set
              (set
                (set (set init metadata (some (data_bytes meta))) runtime_config
                  (some (data_bytes runtime)))
                seccomp_policy (some (data_bytes p.seccomp_policy)))
              package_filesystem (get p.payloads package_filesystem))

      -- The bytes of the file that `wrap` leaves when it succeeds.
      unfoldable pub wrap : PackageFile M R → String → Result WrapError (List ℕ)
      wrap p private_key = do
        unsigned ← data_payloads p
        signed ← map_err sign_failed (sign crypto unsigned private_key)
        ensure create create_failed
        files ← wrap_payloads all_types signed []
        zipped ← ok_or (archive files) zip_failed
        ensure open_append open_failed
        info ← wrap_payloads_info files
        ensure write_footer footer_failed
        ok (zipped ++ (info ++ footer))
