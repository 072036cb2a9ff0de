-- ===== src/Wrap/Loading.antt =====
-- `from_file_verified`: the footer, the table of payloads, the signature, and the three payloads that
-- it covers.
use ssam.Prelude.{
  ℕ, ◌+◌, ◌-◌, Bool, true, false, ◌&&◌, Option, none, some, List, [], ◌∷◌, String, Result, ok, err,
  leb, ◌==◌, if◌then◌else◌, ensure, ok_or, map_err, ◌>>=◌, ◌>>◌, length, take, drop,
}
use ssam.Payload
use ssam.Payload.{
  PayloadType, metadata, runtime_config, seccomp_policy, Payloads, VerifiedPayloads, PayloadError,
  Crypto, verify,
}
use ssam.Wrap.{
  PackageFile, Formats, format_version, magic, magic_len, format_version_len, footer_len,
  payloads_size_len,
}

pub data PackageParseError : Type 0 where
  file_open io_failed invalid_magic decode_size_failed decode_payloads_failed missing_components :
      PackageParseError
  invalid_format_version : List ℕ → PackageParseError
  declared_size_exceeds : ℕ → ℕ → PackageParseError
  payload_failed : PayloadError → PackageParseError
  missing_verified parse_failed : PayloadType → PackageParseError

-- A file that is open, as the payload reader sees it. Offsets are signed numbers of 64 bits.
abbrev pub opened : List ℕ → Payload.PackageFile
opened bytes = record {
  len = some (length bytes);
  seek = λ offset. leb offset 9223372036854775807;
  read_exact = λ offset n.
      if leb (offset + n) (length bytes) then some (take n (drop offset bytes)) else none;
}

abbrev pub bytes_eq : List ℕ → List ℕ → Bool
bytes_eq [] [] = true
bytes_eq [] (b ∷ bs) = false
bytes_eq (a ∷ as_) [] = false
bytes_eq (a ∷ as_) (b ∷ bs) = a == b && bytes_eq as_ bs

-- A seek to before the start of the file fails.
unfoldable pub read_footer_field : List ℕ → ℕ → ℕ → Result PackageParseError (List ℕ)
read_footer_field bytes n offset_from_end = do
  ensure (leb offset_from_end (length bytes)) io_failed
  ok_or ((opened bytes).read_exact (length bytes - offset_from_end) n) io_failed

unfoldable pub verify_footer : List ℕ → Result PackageParseError (Unit {0})
verify_footer bytes = do
  found ← read_footer_field bytes magic_len magic_len
  ensure (bytes_eq found magic) invalid_magic
  version ← read_footer_field bytes format_version_len footer_len
  ensure (bytes_eq version format_version) (invalid_format_version version)

unfoldable pub seek : List ℕ → ℕ → Result PackageParseError (List ℕ)
seek bytes offset = do ensure ((opened bytes).seek offset) io_failed; ok (drop offset bytes)

-- `PackageFileBuilder`
pub record PackageFileBuilder (M R : Type 0) : Type 0 where
  pub metadata : Option M
  pub runtime_config : Option R
  pub seccomp_policy : Option (List ℕ)
  pub payloads : Option Payloads

abbrev new : {M R : Type 0} → PackageFileBuilder M R
new = record { metadata = none; runtime_config = none; seccomp_policy = none; payloads = none }

abbrev build_parts :
    {M R : Type 0}
    → Option M
    → Option R
    → Option (List ℕ)
    → Option Payloads
    → Result PackageParseError (PackageFile M R)
build_parts (some m) (some r) (some s) (some p) =
    ok (record { metadata = m; runtime_config = r; seccomp_policy = s; payloads = p })
build_parts _ _ _ _ = err missing_components

abbrev pub build :
    {M R : Type 0} → PackageFileBuilder M R → Result PackageParseError (PackageFile M R)
build b = build_parts b.metadata b.runtime_config b.seccomp_policy b.payloads

module _ {M R : Type 0} (formats : Formats M R) {PublicKey PrivateKey : Type 0}
    (crypto : Crypto PublicKey PrivateKey) where
  open formats use {decode_metadata, read_runtime_config, is_json, decode_payloads, decode_size}

  unfoldable pub load_payloads_info :
      List ℕ → String → Result PackageParseError (Payloads × VerifiedPayloads)
  load_payloads_info bytes public_key = do
    verify_footer bytes
    at_size ← seek bytes (length bytes - (footer_len + payloads_size_len))
    payloads_size ← ok_or (decode_size at_size) decode_size_failed
    ensure (leb payloads_size (length bytes - (footer_len + payloads_size_len)))
        (declared_size_exceeds payloads_size (length bytes - (footer_len + payloads_size_len)))
    at_info ← seek bytes (length bytes - (footer_len + payloads_size_len + payloads_size))
    table ← ok_or (decode_payloads at_info) decode_payloads_failed
    verified ← map_err payload_failed (verify crypto (opened bytes) table public_key)
    ok (table, verified)

  -- `PackageSeccompPolicy::deserialize` keeps the text that it has checked.
  unfoldable pub parse_components :
      Payloads → VerifiedPayloads → Result PackageParseError (PackageFile M R)
  parse_components table verified = do
    metadata_bytes ← ok_or (verified metadata) (missing_verified metadata)
    m ← ok_or (decode_metadata metadata_bytes) (parse_failed metadata)
    runtime_bytes ← ok_or (verified runtime_config) (missing_verified runtime_config)
    r ← ok_or (read_runtime_config runtime_bytes) (parse_failed runtime_config)
    seccomp_bytes ← ok_or (verified seccomp_policy) (missing_verified seccomp_policy)
    ensure (is_json seccomp_bytes) (parse_failed seccomp_policy)
    build (record {
      metadata = some m;
      runtime_config = some r;
      seccomp_policy = some seccomp_bytes;
      payloads = some table;
    })

  -- `none` stands for a file that cannot be opened.
  unfoldable pub from_file_verified :
      Option (List ℕ) → String → Result PackageParseError (PackageFile M R)
  from_file_verified package_file public_key = do
    bytes ← ok_or package_file file_open
    loaded ← load_payloads_info bytes public_key
    parse_components loaded.0 loaded.1
