-- ===== src/Payload/Verified.antt =====
-- `Payloads::verify` as a whole: what it accepts, and what its signature does not cover.
use ssam.Prelude.{
  ℕ, ◌<◌, ◌≡◌, sym, ap, ◌∙◌, true, inl, inr, some, List, String, ok, arith, Bool-cases,
  Option-cases, Result-cases,
}
use ssam.Payload.{
  signature, Payloads, VerifiedPayloads, PackageFile, Crypto, get, all_types, read_signature,
  verify_entries, verify,
}
use ssam.Payload.Authentic.{
  joined, IsAuthentic, start, verify_entries-Turns, Turns-joined, Turns-IsStored,
}

module _ {PublicKey PrivateKey : Type 0} (crypto : Crypto PublicKey PrivateKey) where
  -- The values that a successful call went through.
  record PathOk (f : PackageFile) (n : ℕ) (p : Payloads) (path : String) (v : VerifiedPayloads)
      : Type 0 where
    key : PublicKey
    readable : crypto.read_public_key path ≡ some key
    sig : List ℕ
    read : read_signature crypto f (get p signature) n (crypto.size key) ≡ ok sig
    hashed : List ℕ
    looped : verify_entries crypto f n all_types p (start crypto) ≡ ok (hashed, v)
    accepted : crypto.check key (crypto.sha256 hashed) sig ≡ true

  verify_ok :
      (f : PackageFile) (p : Payloads) (path : String) (n : ℕ) {v : VerifiedPayloads}
      → f.len ≡ some n
      → verify crypto f p path ≡ ok v
      → PathOk f n p path v
  unfolding verify
  verify_ok f p path n {v} len h = elim (Option-cases (crypto.read_public_key path)) [
    | inl unreadable ↦ absurd (ground arith)
    | inr (key, readable) ↦
        elim (Result-cases (read_signature crypto f (get p signature) n (crypto.size key))) [
          | inr (wrong, failed) ↦ absurd (ground arith)
          | inl (sig, read) ↦
              elim (Result-cases (verify_entries crypto f n all_types p (start crypto))) [
                | inr (wrong, failed) ↦ absurd (ground arith)
                | inl ((hashed, w), looped) ↦
                    elim (Bool-cases (crypto.check key (crypto.sha256 hashed) sig)) [
                      | inr refused ↦ absurd (ground arith)
                      | inl accepted ↦
                          let same : w ≡ v = ground arith in
                          record {
                            key = key;
                            readable = readable;
                            sig = sig;
                            read = read;
                            hashed = hashed;
                            looped = looped ∙ ap (λ u. ok (hashed, u)) same;
                            accepted = accepted;
                          }
                    ]
              ]
        ]
  ]

  -- If `verify` accepts a table, then the readable key accepts a signature for the digest of the
  -- verified payloads one after the other, and the table and the file have each of them, as a region of
  -- at most 4 MiB inside of the file. The file's length is below 2^63.
  pub verify-IsAuthentic :
      (f : PackageFile) (p : Payloads) (path : String) (n : ℕ) (v : VerifiedPayloads)
      → f.len ≡ some n
      → n < 9223372036854775808
      → verify crypto f p path ≡ ok v
      → IsAuthentic crypto f n p path v
  verify-IsAuthentic f p path n v len small h =
      let run = verify_ok f p path n len h in
      let turns = verify_entries-Turns crypto f n p small run.looped in
      record {
        key = run.key;
        readable = run.readable;
        sig = run.sig;
        accepted =
            ap (λ b. crypto.check run.key (crypto.sha256 b) run.sig)
              (sym (Turns-joined crypto f n p (run.hashed, v) turns))
            ∙ run.accepted;
        stored = Turns-IsStored crypto f n p (run.hashed, v) turns;
      }

  -- The signature covers no boundary: if `verify` accepts a table, then it accepts each table of the
  -- same file with the same signature entry whose payloads are read without an error and are the same
  -- bytes one after the other, wherever one ends and the next begins.
  pub verify_repartitioned :
      (f : PackageFile) (p q : Payloads) (path : String) (n : ℕ) (v w : VerifiedPayloads)
      → f.len ≡ some n
      → n < 9223372036854775808
      → verify crypto f p path ≡ ok v
      → get q signature ≡ get p signature
      → verify_entries crypto f n all_types q (start crypto) ≡ ok (joined v, w)
      → verify crypto f q path ≡ ok w
  unfolding verify
  verify_repartitioned f p q path n v w len small h same looped =
      let run = verify_ok f p path n len h in
      let turns = verify_entries-Turns crypto f n p small run.looped in
      let whole : crypto.check run.key (crypto.sha256 (joined v)) run.sig ≡ true =
        ap (λ b. crypto.check run.key (crypto.sha256 b) run.sig)
          (sym (Turns-joined crypto f n p (run.hashed, v) turns))
        ∙ run.accepted in
      let read : read_signature crypto f (get q signature) n (crypto.size run.key) ≡ ok run.sig =
        ap (λ s. read_signature crypto f s n (crypto.size run.key)) same ∙ run.read in
      simp (len, run.readable, read, looped, whole)
