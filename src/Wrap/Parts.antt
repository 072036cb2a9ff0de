-- ===== src/Wrap/Parts.antt =====
-- What a file that `wrap` left is made of.
use ssam.Prelude.{
  ℕ, ◌≡◌, refl, Bool, true, false, Option, none, some, List, [], ◌∷◌, ◌++◌, String, HashMap, Result,
  ok, inl, inr, ensure, ok_or, ◌>>=◌, Option-cases, Result-cases, Bool-cases, length,
}
use ssam.Payload.{
  metadata, runtime_config, seccomp_policy, signature, package_filesystem, Payload, data_bytes,
  Payloads, Crypto, init, insert, set, get, all_types, sign, sign_entries,
}
use ssam.Wrap.{
  PackageFile, Formats, Zip, Disk, WrapError, zip_failed, create_failed, open_failed, footer_failed,
  contents, wrap_payloads, locate, wrap_payloads_info, data_payloads, wrap, footer,
}

abbrev pub unsigned : List ℕ → List ℕ → List ℕ → Option Payload → Payloads
unsigned meta runtime seccomp image =
    set
      (set
        (set (set init metadata (some (data_bytes meta))) runtime_config
          (some (data_bytes runtime)))
        seccomp_policy (some (data_bytes seccomp)))
      package_filesystem image

abbrev pub named : List ℕ → List ℕ → List ℕ → List ℕ → List ℕ → HashMap (List ℕ)
named meta runtime seccomp sig image =
    ("metadata.json", meta)
    ∷ ("runtime_config.json", runtime)
    ∷ ("seccomp.json", seccomp)
    ∷ ("signature.sig", sig)
    ∷ ("filesystem.img", image)
    ∷ []

-- The bytes that the signature covers.
abbrev pub covered : List ℕ → List ℕ → List ℕ → List ℕ
covered meta runtime seccomp = (([] ++ meta) ++ runtime) ++ seccomp

ensure_inv :
    {E A : Type 0} (b : Bool) (t : E) (f : Unit {0} → Result E A) {r : A}
    → (ensure b t >>= f) ≡ ok r
    → f tt ≡ ok r
ensure_inv true t f e = e
ensure_inv false t f e = cc

module _ {M R PublicKey PrivateKey : Type 0} (zip : Zip) (disk : Disk) (formats : Formats M R)
    (crypto : Crypto PublicKey PrivateKey) where
  data_payloads_inv :
      (p : PackageFile M R) {u : Payloads}
      → data_payloads zip disk formats crypto p ≡ ok u
      → (meta runtime : List ℕ) × (formats.encode_metadata p.metadata ≡ some meta)
        × (formats.write_runtime_config p.runtime_config ≡ some runtime)
        × (u ≡ unsigned meta runtime p.seccomp_policy (get p.payloads package_filesystem))
  unfolding data_payloads
  data_payloads_inv p e = elim (Option-cases (formats.encode_metadata p.metadata)) [
    | inl bad ↦ absurd (let f = rw bad at e in cc)
    | inr (meta, hm) ↦ elim (Option-cases (formats.write_runtime_config p.runtime_config)) [
      | inl bad ↦ absurd (let f = rw (hm, bad) at e in cc)
      | inr (runtime, hr) ↦ let f = rw (hm, hr) at e in (meta, runtime, hm, hr, cc)
    ]
  ]

  sign_entries-unsigned :
      (meta runtime seccomp : List ℕ) (image : Option Payload)
      → sign_entries crypto all_types (unsigned meta runtime seccomp image) []
        ≡ ok (covered meta runtime seccomp)
  unfolding sign_entries set insert
  sign_entries-unsigned meta runtime seccomp image = refl

  sign_inv :
      (meta runtime seccomp : List ℕ) (image : Option Payload) (private_key : String) {s : Payloads}
      → sign crypto (unsigned meta runtime seccomp image) private_key ≡ ok s
      → (key : PrivateKey) × (sig : List ℕ) × (crypto.read_private_key private_key ≡ some key)
        × (crypto.sign_digest key (crypto.sha256 (covered meta runtime seccomp)) ≡ some sig)
        × (s ≡ set (unsigned meta runtime seccomp image) signature (some (data_bytes sig)))
  unfolding sign
  sign_inv meta runtime seccomp image private_key e =
      let e1 = rw (sign_entries-unsigned meta runtime seccomp image) at e in
      elim (Option-cases (crypto.read_private_key private_key)) [
        | inl bad ↦ absurd (let f = rw bad at e1 in cc)
        | inr (key, hk) ↦
            elim (Option-cases
              (crypto.sign_digest key (crypto.sha256 (covered meta runtime seccomp)))) [
                | inl bad ↦ absurd (let f = rw (hk, bad) at e1 in cc)
                | inr (sig, hs) ↦ let f = rw (hk, hs) at e1 in (key, sig, hk, hs, cc)
              ]
      ]

  wrap_payloads_inv :
      (meta runtime seccomp sig : List ℕ) (image : Option Payload) {files : HashMap (List ℕ)}
      → wrap_payloads zip disk all_types
          (set (unsigned meta runtime seccomp image) signature (some (data_bytes sig)))
          []
        ≡ ok files
      → (payload : Payload) × (img : List ℕ) × (image ≡ some payload)
        × (contents zip disk package_filesystem payload ≡ ok img)
        × (files ≡ named meta runtime seccomp sig img)
  unfolding wrap_payloads set insert
  wrap_payloads_inv meta runtime seccomp sig none e = absurd (cc)
  wrap_payloads_inv meta runtime seccomp sig (some payload) e =
      elim (Result-cases (contents zip disk package_filesystem payload)) [
        | inr (t, bad) ↦ absurd (let f = rw bad at e in cc)
        | inl (img, hc) ↦ let f = rw hc at e in (payload, img, refl, hc, cc)
      ]

  -- The parts of a file that was written.
  pub record Written (p : PackageFile M R) (private_key : String) (bytes : List ℕ) : Type 0 where
    pub meta : List ℕ
    pub runtime : List ℕ
    pub key : PrivateKey
    pub sig : List ℕ
    pub image : Payload
    pub img : List ℕ
    pub zipped : List ℕ
    pub table : Payloads
    pub info : List ℕ
    pub size : List ℕ
    pub has_meta : formats.encode_metadata p.metadata ≡ some meta
    pub has_runtime : formats.write_runtime_config p.runtime_config ≡ some runtime
    pub has_key : crypto.read_private_key private_key ≡ some key
    pub signed :
        crypto.sign_digest key (crypto.sha256 (covered meta runtime p.seccomp_policy)) ≡ some sig
    pub has_image : get p.payloads package_filesystem ≡ some image
    pub read_image : contents zip disk package_filesystem image ≡ ok img
    pub has_zip : zip.archive (named meta runtime p.seccomp_policy sig img) ≡ some zipped
    pub located :
        locate zip disk all_types (named meta runtime p.seccomp_policy sig img) init ≡ ok table
    pub has_info : formats.encode_payloads table ≡ some info
    pub has_size : formats.encode_size (length info) ≡ some size
    pub whole : bytes ≡ zipped ++ ((info ++ size) ++ footer)

  wrap_payloads_info_inv :
      (files : HashMap (List ℕ)) {b : List ℕ}
      → wrap_payloads_info zip disk formats files ≡ ok b
      → (table : Payloads) × (info : List ℕ) × (size : List ℕ) × (locate zip disk all_types files
            init
          ≡ ok table)
        × (formats.encode_payloads table ≡ some info)
        × (formats.encode_size (length info) ≡ some size)
        × (b ≡ info ++ size)
  unfolding wrap_payloads_info
  wrap_payloads_info_inv files e = elim (Result-cases (locate zip disk all_types files init)) [
    | inr (t, bad) ↦ absurd (let f = rw bad at e in cc)
    | inl (table, ht) ↦ elim (Option-cases (formats.encode_payloads table)) [
      | inl bad ↦ absurd (let f = rw (ht, bad) at e in cc)
      | inr (info, hi) ↦ elim (Option-cases (formats.encode_size (length info))) [
        | inl bad ↦ absurd (let f = rw (ht, hi, bad) at e in cc)
        | inr (size, hs) ↦ elim (Bool-cases disk.write_info) [
          | inr bad ↦ absurd (let f = rw (ht, hi, hs, bad) at e in cc)
          | inl good ↦ let f = rw (ht, hi, hs, good) at e in (table, info, size, ht, hi, hs, cc)
        ]
      ]
    ]
  ]

  -- The steps of `wrap` behind the choice of the files.
  abbrev wrap_files : HashMap (List ℕ) → Result WrapError (List ℕ)
  wrap_files files = ok_or (zip.archive files) zip_failed >>= λ zipped.
      ensure disk.open_append open_failed >>= λ _.
      wrap_payloads_info zip disk formats files >>= λ info.
      ensure disk.write_footer footer_failed >>= λ _. ok (zipped ++ (info ++ footer))

  wrap_files_inv :
      (files : HashMap (List ℕ)) {b : List ℕ}
      → wrap_files files ≡ ok b
      → (zipped : List ℕ) × (info : List ℕ) × (zip.archive files ≡ some zipped)
        × (wrap_payloads_info zip disk formats files ≡ ok info)
        × (b ≡ zipped ++ (info ++ footer))
  wrap_files_inv files e = elim (Option-cases (zip.archive files)) [
    | inl bad ↦ absurd (let f = rw bad at e in cc)
    | inr (zipped, hz) ↦
        let e1 =
          ensure_inv disk.open_append open_failed
            (λ _. wrap_payloads_info zip disk formats files >>= λ info.
              ensure disk.write_footer footer_failed >>= λ _. ok (zipped ++ (info ++ footer)))
            (rw hz at e) in
        elim (Result-cases (wrap_payloads_info zip disk formats files)) [
          | inr (t, bad) ↦ absurd (let f = rw bad at e1 in cc)
          | inl (info, hi) ↦
              let e2 =
                ensure_inv disk.write_footer footer_failed (λ _. ok (zipped ++ (info ++ footer)))
                  (rw hi at e1) in
              (zipped, info, hz, hi, cc)
        ]
  ]

  pub wrap-Written :
      (p : PackageFile M R) (private_key : String) {bytes : List ℕ}
      → wrap zip disk formats crypto p private_key ≡ ok bytes
      → Written p private_key bytes
  unfolding wrap
  wrap-Written p private_key {bytes} e =
      elim (Result-cases (data_payloads zip disk formats crypto p)) [
        | inr (t, bad) ↦ absurd (let f = rw bad at e in cc)
        | inl (u, hu) ↦ elim (Result-cases (sign crypto u private_key)) [
          | inr (t, bad) ↦ absurd (let f = rw (hu, bad) at e in cc)
          | inl (s, hs) ↦
              let e1 =
                ensure_inv disk.create create_failed
                  (λ _. wrap_payloads zip disk all_types s [] >>= wrap_files) (rw (hu, hs) at e) in
              elim (Result-cases (wrap_payloads zip disk all_types s [])) [
                | inr (t, bad) ↦ absurd (let f = rw bad at e1 in cc)
                | inl (files, hf) ↦
                    let (zipped, part, hz, hp, whole) = wrap_files_inv files (rw hf at e1) in
                    let (table, info, size, ht, hi, hn, split) = wrap_payloads_info_inv files hp in
                    let (meta, runtime, hm, hr, hu') = data_payloads_inv p hu in
                    let (key, sig, hk, hd, hs') =
                      sign_inv meta runtime p.seccomp_policy (get p.payloads package_filesystem)
                        private_key (rw hu' at hs) in
                    let (image, img, im, hc, hf') =
                      wrap_payloads_inv meta runtime p.seccomp_policy sig
                        (get p.payloads package_filesystem) (rw hs' at hf) in
                    record {
                      meta = meta;
                      runtime = runtime;
                      key = key;
                      sig = sig;
                      image = image;
                      img = img;
                      zipped = zipped;
                      table = table;
                      info = info;
                      size = size;
                      has_meta = hm;
                      has_runtime = hr;
                      has_key = hk;
                      signed = hd;
                      has_image = im;
                      read_image = hc;
                      has_zip = rw hf' at hz;
                      located = rw hf' at ht;
                      has_info = hi;
                      has_size = hn;
                      whole = rw split at whole;
                    }
              ]
        ]
      ]
