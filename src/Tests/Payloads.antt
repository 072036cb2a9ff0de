-- ===== src/Tests/Payloads.antt =====
-- The payload theorems at a file of six bytes, with a hash that is the identity and a key that
-- accepts a digest as its own signature.
use ssam.Prelude.{
  ℕ, ◌≡◌, refl, Bool, true, false, ◌&&◌, none, some, List, [], ◌∷◌, ok, arith, zero, suc, ◌==◌,
}
use ssam.Payload
use ssam.Payload.{
  PayloadType, metadata, runtime_config, seccomp_policy, signature, package_filesystem, Payload,
  internal, Payloads, VerifiedPayloads, PackageFile, Crypto, verify,
}
use ssam.Payload.Authentic.{IsAuthentic}
use ssam.Payload.Verified.{verify-IsAuthentic, verify_repartitioned}

abbrev from_offset : ℕ → List ℕ → List ℕ
from_offset zero xs = xs
from_offset (suc n) [] = []
from_offset (suc n) (x ∷ xs) = from_offset n xs

abbrev first_bytes : ℕ → List ℕ → List ℕ
first_bytes zero xs = []
first_bytes (suc n) [] = []
first_bytes (suc n) (x ∷ xs) = x ∷ first_bytes n xs

abbrev bytes_at : ℕ → ℕ → List ℕ
bytes_at offset n = first_bytes n (from_offset offset (7 ∷ 8 ∷ 9 ∷ 7 ∷ 8 ∷ 9 ∷ []))

abbrev file : PackageFile
file = record { len = some 6; seek = λ o. true; read_exact = λ o n. some (bytes_at o n) }

abbrev list_eq : List ℕ → List ℕ → Bool
list_eq [] [] = true
list_eq (x ∷ xs) (y ∷ ys) = (x == y) && list_eq xs ys
list_eq _ _ = false

abbrev crypto : Crypto (Unit {0}) (Unit {0})
crypto = record {
  sha256 = λ b. b;
  read_public_key = λ path. some tt;
  size = λ k. 4;
  check = λ k digest sig. list_eq digest sig;
  read_private_key = λ path. some tt;
  sign_digest = λ k digest. some digest;
  usize_max = 18446744073709551615;
}

abbrev table : Payloads
table metadata = some (some (internal 0 1))
table runtime_config = some (some (internal 1 1))
table seccomp_policy = some (some (internal 2 1))
table signature = some (some (internal 3 3))
table package_filesystem = some none

abbrev contents : VerifiedPayloads
contents =
    Payload.insert
      (Payload.insert (Payload.insert (λ t. none) metadata (7 ∷ [])) runtime_config (8 ∷ []))
      seccomp_policy (9 ∷ [])

-- The second byte moves from the runtime configuration to the metadata.
abbrev moved : Payloads
moved metadata = some (some (internal 0 2))
moved runtime_config = some (some (internal 2 0))
moved seccomp_policy = some (some (internal 2 1))
moved signature = some (some (internal 3 3))
moved package_filesystem = some none

abbrev moved_contents : VerifiedPayloads
moved_contents =
    Payload.insert
      (Payload.insert (Payload.insert (λ t. none) metadata (7 ∷ 8 ∷ [])) runtime_config [])
      seccomp_policy (9 ∷ [])

verify-IsAuthentic_example : IsAuthentic crypto file 6 table "key.pem" contents
unfolding verify Payload.get Payload.read_signature Payload.verify_entries Payload.verify_entry
    Payload.verify_payload Payload.read_entry Payload.read_payload
verify-IsAuthentic_example =
    verify-IsAuthentic crypto file table "key.pem" 6 contents refl (omega arith) refl

verify_repartitioned_example : verify crypto file moved "key.pem" ≡ ok moved_contents
unfolding verify Payload.get Payload.insert Payload.read_signature Payload.verify_entries
    Payload.verify_entry Payload.verify_payload Payload.read_entry Payload.read_payload
verify_repartitioned_example =
    verify_repartitioned crypto file table moved "key.pem" 6 contents moved_contents refl
      (omega arith) refl refl refl
