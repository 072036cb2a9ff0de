-- ===== src/Payload/Authentic.antt =====
-- What `Payloads::verify` accepts.
use ssam.Prelude.{
  ℕ, ◌+◌, ◌≤◌, ◌<◌, ◌≡◌, refl, sym, ap, subst, ◌∙◌, Bool, true, false, inl, inr, Option, none, some,
  List, [], ◌++◌, String, ok, arith, Result-cases,
}
use ssam.Payload.{
  PayloadType, metadata, runtime_config, seccomp_policy, signature, package_filesystem, Payload,
  internal, external, data_bytes, Payloads, VerifiedPayloads, PackageFile, Crypto,
  max_verify_payload_size, seek_to_payload, read_payload, insert, all_types, read_entry,
  verify_payload, type_eq, verify_entry, verify_entries,
}

-- The bytes so far with those of a payload that may be absent.
abbrev pub append : List ℕ → Option (List ℕ) → List ℕ
append hashed none = hashed
append hashed (some bytes) = hashed ++ bytes

-- The verified payloads one after the other, with nothing in between.
abbrev pub joined : VerifiedPayloads → List ℕ
joined v = append (append (append [] (v metadata)) (v runtime_config)) (v seccomp_policy)

abbrev pub is_signed : PayloadType → Bool
is_signed metadata = true
is_signed runtime_config = true
is_signed seccomp_policy = true
is_signed signature = false
is_signed package_filesystem = false

-- `bytes` are those of a region of at most `max` bytes inside of the file.
pub record IsRegion (f : PackageFile) (file_size max offset n : ℕ) (bytes : List ℕ) : Type 0 where
  pub inside : offset + n ≤ file_size
  pub bounded : n ≤ max
  pub content : f.read_exact offset n ≡ some bytes

pub read_payload-IsRegion :
    (f : PackageFile) (offset n file_size max : ℕ) {bytes : List ℕ}
    → file_size < 9223372036854775808
    → read_payload f offset n file_size max ≡ ok bytes
    → IsRegion f file_size max offset n bytes
unfolding read_payload seek_to_payload
read_payload-IsRegion f offset n file_size max small e = record {
  inside = ground arith;
  bounded = ground arith;
  content = ground arith;
}

module _ {PublicKey PrivateKey : Type 0} (crypto : Crypto PublicKey PrivateKey) where
  -- The table says where the payload stands in the file.
  abbrev pub IsStored : PackageFile → ℕ → Payloads → PayloadType → List ℕ → Type 0
  IsStored f file_size p t bytes =
      (offset : ℕ) × (n : ℕ) × (p t ≡ some (some (internal offset n)))
      × IsRegion f file_size max_verify_payload_size offset n bytes

  read_entry-IsStored :
      (f : PackageFile) (file_size : ℕ) (t : PayloadType) (payload : Payload) {bytes : List ℕ}
      → file_size < 9223372036854775808
      → read_entry crypto f file_size t payload ≡ ok bytes
      → (offset : ℕ) × (n : ℕ) × (payload ≡ internal offset n)
        × IsRegion f file_size max_verify_payload_size offset n bytes
  unfolding read_entry
  read_entry-IsStored f file_size t (internal offset n) small e = (
    offset,
    n,
    refl,
    read_payload-IsRegion f offset n file_size max_verify_payload_size small (ground arith),
  )
  read_entry-IsStored f file_size t (external path) small e = cc
  read_entry-IsStored f file_size t (data_bytes bytes) small e = cc

  -- What a turn of the loop does for a type `t`: it appends and records the payload of the table,
  -- if `t` is signed and the table has the key, and else does nothing.
  pub record Turn (f : PackageFile) (file_size : ℕ) (p : Payloads) (t : PayloadType)
      (before after : List ℕ × VerifiedPayloads) : Type 0 where
    hashed : after.0 ≡ append before.0 (after.1 t)
    others : (u : PayloadType) → type_eq t u ≡ false → after.1 u ≡ before.1 u
    stored : (bytes : List ℕ) → after.1 t ≡ some bytes → IsStored f file_size p t bytes

  payload-Turn :
      (f : PackageFile) (file_size : ℕ) (p : Payloads) (t : PayloadType) (payload : Option Payload)
      (before : List ℕ × VerifiedPayloads) {after : List ℕ × VerifiedPayloads}
      → file_size < 9223372036854775808
      → type_eq t t ≡ true
      → p t ≡ some payload
      → verify_payload crypto f file_size t payload before ≡ ok after
      → Turn f file_size p t before after
  unfolding verify_payload insert
  payload-Turn f file_size p t none before small self e h = cc
  payload-Turn f file_size p t (some payload) (hashed, verified) {after} small self e h =
      elim (Result-cases (read_entry crypto f file_size t payload)) [
        | inr (wrong, failed) ↦ absurd (ground arith)
        | inl (buf, read) ↦
            let done : (hashed ++ buf, insert verified t buf) ≡ after = ground arith in
            rw (← done) (record {
              hashed = ground arith;
              others = λ u apart. ground arith;
              stored = λ bytes same.
                  let (offset, n, kind, region) =
                    read_entry-IsStored f file_size t payload small read in
                  let e_bytes : buf ≡ bytes = ground arith in
                  (
                    offset,
                    n,
                    e ∙ ap (λ k. some (some k)) kind,
                    subst (IsRegion f file_size max_verify_payload_size offset n) e_bytes region,
                  );
            })
      ]

  entry-Turn :
      (f : PackageFile) (file_size : ℕ) (p : Payloads) (t : PayloadType)
      (o : Option (Option Payload)) (before : List ℕ × VerifiedPayloads)
      {after : List ℕ × VerifiedPayloads}
      → file_size < 9223372036854775808
      → is_signed t ≡ true
      → p t ≡ o
      → before.1 t ≡ none
      → verify_entry crypto f file_size t o before ≡ ok after
      → Turn f file_size p t before after
  unfolding verify_entry
  entry-Turn f file_size p t none before {after} small signed e free h =
      let same : before ≡ after = ground arith in
      rw (← same)
        (record { hashed = rw free refl; others = λ u apart. refl; stored = λ bytes found. cc })
  entry-Turn f file_size p metadata (some payload) before small signed e free h =
      payload-Turn f file_size p metadata payload before small refl e h
  entry-Turn f file_size p runtime_config (some payload) before small signed e free h =
      payload-Turn f file_size p runtime_config payload before small refl e h
  entry-Turn f file_size p seccomp_policy (some payload) before small signed e free h =
      payload-Turn f file_size p seccomp_policy payload before small refl e h
  entry-Turn f file_size p signature (some payload) before small signed e free h = cc
  entry-Turn f file_size p package_filesystem (some payload) before small signed e free h = cc

  unsigned_entry :
      (f : PackageFile) (file_size : ℕ) (t : PayloadType) (o : Option (Option Payload))
      (before : List ℕ × VerifiedPayloads)
      → is_signed t ≡ false
      → verify_entry crypto f file_size t o before ≡ ok before
  unfolding verify_entry
  unsigned_entry f file_size t none before e = refl
  unsigned_entry f file_size metadata (some o) before e = cc
  unsigned_entry f file_size runtime_config (some o) before e = cc
  unsigned_entry f file_size seccomp_policy (some o) before e = cc
  unsigned_entry f file_size signature (some o) before e = refl
  unsigned_entry f file_size package_filesystem (some o) before e = refl

  abbrev pub start : List ℕ × VerifiedPayloads
  start = ([], λ t. none)

  -- The loop of `verify` is three turns.
  pub record Turns (f : PackageFile) (file_size : ℕ) (p : Payloads)
      (done : List ℕ × VerifiedPayloads) : Type 0 where
    one : List ℕ × VerifiedPayloads
    two : List ℕ × VerifiedPayloads
    first : Turn f file_size p metadata start one
    second : Turn f file_size p runtime_config one two
    third : Turn f file_size p seccomp_policy two done

  pub verify_entries-Turns :
      (f : PackageFile) (file_size : ℕ) (p : Payloads) {done : List ℕ × VerifiedPayloads}
      → file_size < 9223372036854775808
      → verify_entries crypto f file_size all_types p start ≡ ok done
      → Turns f file_size p done
  unfolding verify_entries
  verify_entries-Turns f file_size p {done} small h =
      elim (Result-cases (verify_entry crypto f file_size metadata (p metadata) start)) [
        | inr (wrong, failed) ↦ absurd (ground arith)
        | inl (one, e1) ↦
            let t1 = entry-Turn f file_size p metadata (p metadata) start small refl refl refl e1 in
            elim (Result-cases
              (verify_entry crypto f file_size runtime_config (p runtime_config) one)) [
                | inr (wrong, failed) ↦ absurd (ground arith)
                | inl (two, e2) ↦
                    let t2 =
                      entry-Turn f file_size p runtime_config (p runtime_config) one small refl refl
                        (t1.others runtime_config refl) e2 in
                    elim (Result-cases
                      (verify_entry crypto f file_size seccomp_policy (p seccomp_policy) two)) [
                        | inr (wrong, failed) ↦ absurd (ground arith)
                        | inl (three, e3) ↦
                            let t3 =
                              entry-Turn f file_size p seccomp_policy (p seccomp_policy) two small
                                refl refl
                                (t2.others seccomp_policy refl ∙ t1.others seccomp_policy refl)
                                e3 in
                            let same : three ≡ done = ground (
                              arith,
                              unsigned_entry f file_size signature (p signature) three refl,
                              unsigned_entry f file_size package_filesystem (p package_filesystem)
                                  three refl,
                            ) in
                            record {
                              one = one;
                              two = two;
                              first = t1;
                              second = t2;
                              third = subst (Turn f file_size p seccomp_policy two) same t3;
                            }
                      ]
              ]
      ]

  -- What an accepted table comes with: a readable key, and a signature that the key accepts for the
  -- digest of the verified payloads one after the other, each of which stands in the file.
  pub record IsAuthentic (f : PackageFile) (file_size : ℕ) (p : Payloads) (path : String)
      (v : VerifiedPayloads) : Type 0 where
    pub key : PublicKey
    pub readable : crypto.read_public_key path ≡ some key
    pub sig : List ℕ
    pub accepted : crypto.check key (crypto.sha256 (joined v)) sig ≡ true
    pub stored :
        (t : PayloadType) (bytes : List ℕ) → v t ≡ some bytes → IsStored f file_size p t bytes

  pub Turns-joined :
      (f : PackageFile) (file_size : ℕ) (p : Payloads) (done : List ℕ × VerifiedPayloads)
      → Turns f file_size p done
      → done.0 ≡ joined done.1
  Turns-joined f file_size p done ts =
      let m1 = ts.second.others metadata refl in
      let m2 = ts.third.others metadata refl in
      let r2 = ts.third.others runtime_config refl in
      rw (m2, m1, r2, ts.third.hashed, ts.second.hashed, ts.first.hashed) refl

  pub Turns-IsStored :
      (f : PackageFile) (file_size : ℕ) (p : Payloads) (done : List ℕ × VerifiedPayloads)
      → Turns f file_size p done
      → (t : PayloadType) (bytes : List ℕ) → done.1 t ≡ some bytes
      → IsStored f file_size p t bytes
  Turns-IsStored f file_size p done ts metadata bytes e =
      ts.first.stored bytes
        (sym (ts.third.others metadata refl ∙ ts.second.others metadata refl) ∙ e)
  Turns-IsStored f file_size p done ts runtime_config bytes e =
      ts.second.stored bytes (sym (ts.third.others runtime_config refl) ∙ e)
  Turns-IsStored f file_size p done ts seccomp_policy bytes e = ts.third.stored bytes e
  Turns-IsStored f file_size p done ts signature bytes e =
      let none_left =
        ts.third.others signature refl
        ∙ ts.second.others signature refl
        ∙ ts.first.others signature refl in
      cc
  Turns-IsStored f file_size p done ts package_filesystem bytes e =
      let none_left =
        ts.third.others package_filesystem refl
        ∙ ts.second.others package_filesystem refl
        ∙ ts.first.others package_filesystem refl in
      cc
