-- ===== src/Packages/Parser/Verified.antt =====
-- What the daemon takes for a package is signed.
use ssam.Prelude.{
  ℕ, ◌<◌, true, Option, none, some, List, [], ◌∷◌, String, Result, ok, err, ◌≡◌, refl, subst, inl,
  inr, Bool-cases, Option-cases, map_err, Result-cases, ◌+◌, ◌-◌, length, leb,
}
use ssam.Payload.{
  metadata, runtime_config, seccomp_policy, Payloads, VerifiedPayloads, Crypto, verify,
}
use ssam.Payload.Authentic.{IsAuthentic}
use ssam.Payload.Verified.{verify-IsAuthentic}
use ssam.Wrap.{PackageFile, Formats}
use ssam.Wrap.Loading.{
  PackageParseError, verify_footer, seek, opened, load_payloads_info, parse_components,
  from_file_verified,
}
use ssam.Packages.Manager.{PackageParseResult}
use ssam.Packages.Parser.{
  Files, is_package_file, name_or, parse_package_file, package_paths, parse_all, parse_entries,
  parse_packages_from_dir,
}

module _ {M R PublicKey PrivateKey : Type 0} (formats : Formats M R)
    (crypto : Crypto PublicKey PrivateKey) (public_key : String) where
  -- The parts of a package are decoded from payloads that a signature covers.
  pub record IsSigned (bytes : List ℕ) (p : PackageFile M R) : Type 0 where
    pub verified : VerifiedPayloads
    pub authentic : IsAuthentic crypto (opened bytes) (length bytes) p.payloads public_key verified
    pub metadata_bytes : List ℕ
    pub has_metadata : verified metadata ≡ some metadata_bytes
    pub metadata_of : formats.decode_metadata metadata_bytes ≡ some p.metadata
    pub runtime_bytes : List ℕ
    pub has_runtime : verified runtime_config ≡ some runtime_bytes
    pub runtime_of : formats.read_runtime_config runtime_bytes ≡ some p.runtime_config
    pub has_seccomp : verified seccomp_policy ≡ some p.seccomp_policy

  ok_inj : {A : Type 0} {a b : A} → ◌≡◌ {A = Result PackageParseError A} (ok a) (ok b) → a ≡ b
  ok_inj e = cc

  load_payloads_info_inv :
      (bytes : List ℕ) {loaded : Payloads × VerifiedPayloads}
      → load_payloads_info formats crypto bytes public_key ≡ ok loaded
      → verify crypto (opened bytes) loaded.0 public_key ≡ ok loaded.1
  unfolding load_payloads_info
  load_payloads_info_inv bytes e = elim (Result-cases (verify_footer bytes)) [
    | inr (_, bad) ↦ absurd (let f = rw (bad) at e in cc)
    | inl (u, e1) ↦ elim (Result-cases (seek bytes (length bytes - 40))) [
      | inr (_, bad) ↦ absurd (let f = rw (e1, bad) at e in cc)
      | inl (at_size, e2) ↦ elim (Option-cases (formats.decode_size at_size)) [
        | inl bad ↦ absurd (let f = rw (e1, e2, bad) at e in cc)
        | inr (size, e3) ↦ elim (Bool-cases (leb size (length bytes - 40))) [
          | inr bad ↦ absurd (let f = rw (e1, e2, e3, bad) at e in cc)
          | inl e4 ↦ elim (Result-cases (seek bytes (length bytes - (40 + size)))) [
            | inr (_, bad) ↦ absurd (let f = rw (e1, e2, e3, e4, bad) at e in cc)
            | inl (at_info, e5) ↦ elim (Option-cases (formats.decode_payloads at_info)) [
              | inl bad ↦ absurd (let f = rw (e1, e2, e3, e4, e5, bad) at e in cc)
              | inr (table, e6) ↦
                  elim (Result-cases (verify crypto (opened bytes) table public_key)) [
                    | inr (_, bad) ↦ absurd (let f = rw (e1, e2, e3, e4, e5, e6, bad) at e in cc)
                    | inl (verified, e7) ↦
                        let f = rw (e1, e2, e3, e4, e5, e6, e7) at e in
                        subst (λ l. verify crypto (opened bytes) l.0 public_key ≡ ok l.1) (ok_inj f)
                          e7
                  ]
            ]
          ]
        ]
      ]
    ]
  ]

  -- What a package is put together from.
  abbrev Made : Payloads → VerifiedPayloads → PackageFile M R → Type 0
  Made table verified p =
      (mb : List ℕ) × (rb : List ℕ) × (verified metadata ≡ some mb)
      × (formats.decode_metadata mb ≡ some p.metadata)
      × (verified runtime_config ≡ some rb)
      × (formats.read_runtime_config rb ≡ some p.runtime_config)
      × (verified seccomp_policy ≡ some p.seccomp_policy)
      × (p.payloads ≡ table)

  parse_components-Made :
      (table : Payloads) (verified : VerifiedPayloads) {p : PackageFile M R}
      → parse_components formats crypto table verified ≡ ok p
      → Made table verified p
  unfolding parse_components
  parse_components-Made table verified e = elim (Option-cases (verified metadata)) [
    | inl bad ↦ absurd (let f = rw (bad) at e in cc)
    | inr (mb, e1) ↦ elim (Option-cases (formats.decode_metadata mb)) [
      | inl bad ↦ absurd (let f = rw (e1, bad) at e in cc)
      | inr (m, e2) ↦ elim (Option-cases (verified runtime_config)) [
        | inl bad ↦ absurd (let f = rw (e1, e2, bad) at e in cc)
        | inr (rb, e3) ↦ elim (Option-cases (formats.read_runtime_config rb)) [
          | inl bad ↦ absurd (let f = rw (e1, e2, e3, bad) at e in cc)
          | inr (r, e4) ↦ elim (Option-cases (verified seccomp_policy)) [
            | inl bad ↦ absurd (let f = rw (e1, e2, e3, e4, bad) at e in cc)
            | inr (sb, e5) ↦ elim (Bool-cases (formats.is_json sb)) [
              | inr bad ↦ absurd (let f = rw (e1, e2, e3, e4, e5, bad) at e in cc)
              | inl e6 ↦
                  let f = rw (e1, e2, e3, e4, e5, e6) at e in
                  subst (Made table verified) (ok_inj f) (mb, rb, e1, e2, e3, e4, e5, refl)
            ]
          ]
        ]
      ]
    ]
  ]

  from_file_verified-IsSigned :
      (bytes : List ℕ) (p : PackageFile M R)
      → length bytes < 9223372036854775808
      → from_file_verified formats crypto (some bytes) public_key ≡ ok p
      → IsSigned bytes p
  unfolding from_file_verified
  from_file_verified-IsSigned bytes p small e =
      elim (Result-cases (load_payloads_info formats crypto bytes public_key)) [
        | inr (_, bad) ↦ absurd (let f = rw bad at e in cc)
        | inl ((table, verified), loaded) ↦
            let f = rw loaded at e in
            let (mb, rb, hm, dm, hr, dr, hs, same) = parse_components-Made table verified f in
            record {
              verified = verified;
              authentic =
                  verify-IsAuthentic crypto (opened bytes) p.payloads public_key (length bytes)
                    verified refl small (rw same (load_payloads_info_inv bytes loaded));
              metadata_bytes = mb;
              has_metadata = hm;
              metadata_of = dm;
              runtime_bytes = rb;
              has_runtime = hr;
              runtime_of = dr;
              has_seccomp = hs;
            }
      ]

module _ {M R PublicKey PrivateKey : Type 0} (files : Files) (formats : Formats M R)
    (crypto : Crypto PublicKey PrivateKey) (name_of : M → String)
    (packages_ext public_key : String) where
  open files use {open_file, file_name, read_dir}

  -- A package that was parsed is that of its file, is signed, and goes by the name in its metadata.
  abbrev pub IsSignedResult : Result String (PackageParseResult (PackageFile M R)) → Type 0
  IsSignedResult (err _) = Unit {0}
  IsSignedResult (ok r) = elim r.package_file [
    | err _ ↦ Unit {0}
    | ok p ↦
        (bytes : List ℕ) × (open_file r.path ≡ some bytes)
        × IsSigned formats crypto public_key bytes p
        × (r.package_name ≡ name_of p.metadata)
        × (is_package_file files formats crypto name_of packages_ext public_key r.path ≡ true)
  ]

  abbrev pub AllSigned : List (Result String (PackageParseResult (PackageFile M R))) → Type 0
  AllSigned [] = Unit {0}
  AllSigned (r ∷ rs) = IsSignedResult r × AllSigned rs

  abbrev made_of :
      String
      → String
      → Result PackageParseError (PackageFile M R)
      → PackageParseResult (PackageFile M R)
  made_of filename path r = record {
    package_name = name_or files formats crypto name_of packages_ext public_key filename r;
    path = path;
    package_file = map_err (λ e. "Failed to parse package file") r;
  }

  module _
      (small : (path : String) (bytes : List ℕ)
        → open_file path ≡ some bytes
        → length bytes < 9223372036854775808) where
    made-IsSignedResult :
        (filename path : String) (opened_file : Option (List ℕ))
        (r : Result PackageParseError (PackageFile M R))
        → open_file path ≡ opened_file
        → is_package_file files formats crypto name_of packages_ext public_key path ≡ true
        → from_file_verified formats crypto opened_file public_key ≡ r
        → IsSignedResult (ok (made_of filename path r))
    unfolding from_file_verified
    made-IsSignedResult filename path opened_file (err e) o file parsed = tt
    made-IsSignedResult filename path none (ok p) o file parsed = absurd (cc)
    made-IsSignedResult filename path (some bytes) (ok p) o file parsed = (
      bytes,
      o,
      from_file_verified-IsSigned formats crypto public_key bytes p (small path bytes o) parsed,
      refl,
      file,
    )

    parse_package_file-IsSignedResult :
        (path : String)
        → is_package_file files formats crypto name_of packages_ext public_key path ≡ true
        → IsSignedResult
            (parse_package_file files formats crypto name_of packages_ext public_key path)
    unfolding parse_package_file
    parse_package_file-IsSignedResult path file = elim (Option-cases (file_name path)) [
      | inl unnamed ↦ rw unnamed tt
      | inr (filename, named) ↦ rw named (
          made-IsSignedResult filename path (open_file path)
            (from_file_verified formats crypto (open_file path) public_key) refl file refl)
    ]

    parse_all-AllSigned :
        (entries : List (Option String))
        → AllSigned (
            parse_all files formats crypto name_of packages_ext public_key
              (package_paths files formats crypto name_of packages_ext public_key entries))
    unfolding parse_all package_paths
    parse_all-AllSigned [] = tt
    parse_all-AllSigned (none ∷ entries) = parse_all-AllSigned entries
    parse_all-AllSigned (some path ∷ entries) =
        elim (Bool-cases
          (is_package_file files formats crypto name_of packages_ext public_key path)) [
            | inr other ↦ rw other (parse_all-AllSigned entries)
            | inl file ↦
                rw file (parse_package_file-IsSignedResult path file, parse_all-AllSigned entries)
          ]

    -- Every package that the daemon takes from a directory is signed: its metadata, its runtime
    -- configuration and its seccomp policy are decoded from payloads of its file that a signature
    -- covers which the configured public key accepts; it goes by the name in that metadata, and its
    -- file has the extension of packages. Files are shorter than 2^63 bytes.
    pub parse_packages_from_dir-AllSigned :
        (package_dir : String)
        → AllSigned (
            parse_packages_from_dir files formats crypto name_of packages_ext public_key
              package_dir)
    unfolding parse_packages_from_dir parse_entries
    parse_packages_from_dir-AllSigned package_dir = from (read_dir package_dir)
      where
        from :
            (o : Option (List (Option String)))
            → AllSigned (parse_entries files formats crypto name_of packages_ext public_key o)
        from none = tt
        from (some entries) = parse_all-AllSigned entries
