-- ===== src/Payload.antt =====
-- `Payloads` of libssam/src/ssam_package/ssam_pkg_payload.rs: the table of a package file's parts,
-- and the signature over three of them. Bytes are numbers. A `BTreeMap` with keys `PayloadType` is a
-- function, read in the order of the constructors.
pub mod Authentic
pub mod Verified
use ssam.Prelude.{
  ℕ, ◌+◌, Bool, true, false, Option, none, some, List, [], ◌∷◌, ◌++◌, String, Result, ok, err,
  ◌>>=◌, ◌>>◌, ok_or, ltb, if◌then◌else◌,
}

pub data PayloadType : Type 0 where
  metadata runtime_config seccomp_policy signature package_filesystem : PayloadType

pub data Payload : Type 0 where
  internal : ℕ → ℕ → Payload
  external : String → Payload
  data_bytes : List ℕ → Payload

-- A key that is absent, a key without a payload, or a payload.
abbrev pub Payloads : Type 0
Payloads = PayloadType → Option (Option Payload)

abbrev pub VerifiedPayloads : Type 0
VerifiedPayloads = PayloadType → Option (List ℕ)

-- The errors, one for each message of the source.
pub data PayloadError : Type 0 where
  region_exceeds_file : ℕ → ℕ → ℕ → PayloadError
  size_exceeds_maximum : ℕ → ℕ → PayloadError
  seek_failed read_failed metadata_failed key_unreadable : PayloadError
  size_too_large : PayloadType → PayloadError
  missing_signature signature_verification_failed signing_failed : PayloadError
  unknown_type missing_payload expected_internal unsupported_payload : PayloadType → PayloadError

-- A package file: `metadata().len()`, `seek` to an offset, and `read_exact` of a number of bytes
-- there. The system keeps a file's length in a signed 64-bit number.
pub record PackageFile : Type 0 where
  pub len : Option ℕ
  pub seek : ℕ → Bool
  pub read_exact : ℕ → ℕ → Option (List ℕ)

-- The `rsa` crate and the target: hashing, keys read from a path, and the largest `usize`.
pub record Crypto (PublicKey PrivateKey : Type 0) : Type 0 where
  pub sha256 : List ℕ → List ℕ
  pub read_public_key : String → Option PublicKey
  pub size : PublicKey → ℕ
  pub check : PublicKey → List ℕ → List ℕ → Bool
  pub read_private_key : String → Option PrivateKey
  pub sign_digest : PrivateKey → List ℕ → Option (List ℕ)
  pub usize_max : ℕ

abbrev pub max_verify_payload_size : ℕ
max_verify_payload_size = 4194304

abbrev pub saturating_add : ℕ → ℕ → ℕ
saturating_add a b = if ltb 18446744073709551615 (a + b) then 18446744073709551615 else a + b

unfoldable pub seek_to_payload : PackageFile → ℕ → ℕ → ℕ → Result PayloadError (Unit {0})
seek_to_payload f offset size file_size =
    if ltb file_size (saturating_add offset size)
    then err (region_exceeds_file offset size file_size)
    else if f.seek offset
    then ok tt
    else err seek_failed

unfoldable pub read_payload : PackageFile → ℕ → ℕ → ℕ → ℕ → Result PayloadError (List ℕ)
unfolding seek_to_payload
read_payload f offset size file_size max_allowed_size =
    if ltb max_allowed_size size
    then err (size_exceeds_maximum size max_allowed_size)
    else seek_to_payload f offset size file_size >> ok_or (f.read_exact offset size) read_failed

pub record PayloadConfig : Type 0 where
  pub need_verify : Bool
  pub filename : String

-- `SSAM_PAYLOAD_CONFIGURATION`
abbrev pub configuration : PayloadType → Option PayloadConfig
configuration metadata = some (record { need_verify = true; filename = "metadata.json" })
configuration runtime_config =
    some (record { need_verify = true; filename = "runtime_config.json" })
configuration seccomp_policy = some (record { need_verify = true; filename = "seccomp.json" })
configuration signature = some (record { need_verify = false; filename = "signature.sig" })
configuration package_filesystem =
    some (record { need_verify = false; filename = "filesystem.img" })

abbrev pub init : Payloads
init t = some none

abbrev pub type_eq : PayloadType → PayloadType → Bool
type_eq metadata metadata = true
type_eq runtime_config runtime_config = true
type_eq seccomp_policy seccomp_policy = true
type_eq signature signature = true
type_eq package_filesystem package_filesystem = true
type_eq _ _ = false

unfoldable pub insert :
    {A : Type 0} → (PayloadType → Option A) → PayloadType → A → PayloadType → Option A
insert m k a t = if type_eq k t then some a else m t

unfoldable pub set : Payloads → PayloadType → Option Payload → Payloads
set p t payload = insert p t payload

get_entry : Option (Option Payload) → Option Payload
get_entry none = none
get_entry (some v) = v

unfoldable pub get : Payloads → PayloadType → Option Payload
unfolding get_entry
get p t = get_entry (p t)

abbrev pub all_types : List PayloadType
all_types = metadata ∷ runtime_config ∷ seccomp_policy ∷ signature ∷ package_filesystem ∷ []

module _ {PublicKey PrivateKey : Type 0} (crypto : Crypto PublicKey PrivateKey) where
  open crypto use {sha256, read_public_key, size, check, read_private_key, sign_digest, usize_max}

  -- One turn of the loop of `sign`, on the bytes hashed so far.
  sign_data : PayloadType → Option Payload → List ℕ → Result PayloadError (List ℕ)
  sign_data t (some (data_bytes bytes)) hashed = ok (hashed ++ bytes)
  sign_data t _ hashed = err (unsupported_payload t)

  sign_entry : Option (Option Payload) → PayloadType → List ℕ → Result PayloadError (List ℕ)
  unfolding sign_data
  sign_entry none t hashed = ok hashed
  sign_entry (some payload) t hashed = ok_or (configuration t) (unknown_type t) >>= λ conf.
      if conf.need_verify then sign_data t payload hashed else ok hashed

  unfoldable pub sign_entries : List PayloadType → Payloads → List ℕ → Result PayloadError (List ℕ)
  unfolding sign_entry
  sign_entries [] p hashed = ok hashed
  sign_entries (t ∷ ts) p hashed = sign_entry (p t) t hashed >>= sign_entries ts p

  unfoldable pub sign : Payloads → String → Result PayloadError Payloads
  unfolding sign_entries
  sign p private_key = do
    hashed ← sign_entries all_types p []
    key ← ok_or (read_private_key private_key) key_unreadable
    bytes ← ok_or (sign_digest key (sha256 hashed)) signing_failed
    ok (set p signature (some (data_bytes bytes)))

  unfoldable pub read_signature :
      PackageFile → Option Payload → ℕ → ℕ → Result PayloadError (List ℕ)
  read_signature f (some (internal offset n)) file_size max =
      if ltb usize_max n
      then err (size_too_large signature)
      else read_payload f offset n file_size max
  read_signature f _ file_size max = err missing_signature

  unfoldable pub read_entry : PackageFile → ℕ → PayloadType → Payload → Result PayloadError (List ℕ)
  read_entry f file_size t (internal offset n) =
      if ltb usize_max n
      then err (size_too_large t)
      else read_payload f offset n file_size max_verify_payload_size
  read_entry f file_size t _ = err (expected_internal t)

  -- One turn of the loop of `verify`, on the bytes hashed and the payloads verified so far.
  unfoldable pub verify_payload :
      PackageFile
      → ℕ
      → PayloadType
      → Option Payload
      → List ℕ × VerifiedPayloads
      → Result PayloadError (List ℕ × VerifiedPayloads)
  verify_payload f file_size t payload (hashed, verified) = do
    p ← ok_or payload (missing_payload t)
    buf ← read_entry f file_size t p
    ok (hashed ++ buf, insert verified t buf)

  unfoldable pub verify_entry :
      PackageFile
      → ℕ
      → PayloadType
      → Option (Option Payload)
      → List ℕ × VerifiedPayloads
      → Result PayloadError (List ℕ × VerifiedPayloads)
  unfolding verify_payload
  verify_entry f file_size t none done = ok done
  verify_entry f file_size t (some payload) done =
      ok_or (configuration t) (unknown_type t) >>= λ conf.
      if conf.need_verify then verify_payload f file_size t payload done else ok done

  unfoldable pub verify_entries :
      PackageFile
      → ℕ
      → List PayloadType
      → Payloads
      → List ℕ × VerifiedPayloads
      → Result PayloadError (List ℕ × VerifiedPayloads)
  verify_entries f file_size [] p done = ok done
  verify_entries f file_size (t ∷ ts) p done =
      verify_entry f file_size t (p t) done >>= verify_entries f file_size ts p

  unfoldable pub verify : PackageFile → Payloads → String → Result PayloadError VerifiedPayloads
  unfolding read_signature
  verify f p public_key = do
    file_size ← ok_or f.len metadata_failed
    key ← ok_or (read_public_key public_key) key_unreadable
    sig ← read_signature f (get p signature) file_size (size key)
    done ← verify_entries f file_size all_types p ([], λ t. none)
    if check key (sha256 done.0) sig then ok done.1 else err signature_verification_failed
