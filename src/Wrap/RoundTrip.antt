-- ===== src/Wrap/RoundTrip.antt =====
-- `from_file_verified` reads back what `wrap` wrote.
use ssam.Prelude.{
  ℕ, ◌+◌, ◌-◌, ◌≤◌, ◌≡◌, refl, sym, ap, subst, ◌∙◌, Bool, true, false, Option, none, some, List, [],
  ◌∷◌, ◌++◌, String, HashMap, Result, ok, err, arith, leb, ltb, le→leb, inl, inr, if◌then◌else◌,
  ok_or, map_err, ensure, ◌>>=◌, length, length-append,
}
use ssam.Prelude
use mathlib.Core.List.{append_assoc}
use ssam.Payload.{
  PayloadType, metadata, runtime_config, seccomp_policy, signature, package_filesystem, Payload,
  internal, Payloads, read_failed, Crypto, read_payload, read_signature, read_entry, init, insert,
  set, get, all_types, verify, verify_entries, verify_entry, max_verify_payload_size,
}
use ssam.Wrap.{PackageFile, Formats, Zip, Disk, WrapError, contents, locate, wrap, footer}
use ssam.Wrap.Loading.{
  opened, verify_footer, seek, load_payloads_info, parse_components, from_file_verified,
  payload_failed,
}
use ssam.Wrap.Layout.{read_exact-middle, verify_footer-wrapped, seek-append}
use ssam.Wrap.Parts.{named, covered, wrap-Written}

-- The contents `c` stand in the file where the table says that a payload does.
pub record IsAt (bytes : List ℕ) (table : Payloads) (t : PayloadType) (c : List ℕ) : Type 0 where
  pub before : List ℕ
  pub after : List ℕ
  pub entry : table t ≡ some (some (internal (length before) (length c)))
  pub whole : bytes ≡ before ++ (c ++ after)

abbrev pub i64_max : ℕ
i64_max = 9223372036854775807

read_payload-IsAt :
    {bytes : List ℕ} {table : Payloads} {t : PayloadType} {c : List ℕ} (max : ℕ)
    → (a : IsAt bytes table t c) → length bytes ≤ i64_max
    → length c ≤ max
    → read_payload (opened bytes) (length a.before) (length c) (length bytes) max ≡ ok c
unfolding read_payload
read_payload-IsAt {bytes} {table} {t} {c} max a fits small =
    let inside : length a.before + length c ≤ length bytes =
      omega (
        arith,
        ap length a.whole,
        length-append a.before (c ++ a.after),
        length-append c a.after,
      ) in
    let read : (opened bytes).read_exact (length a.before) (length c) ≡ some c =
      rw a.whole (read_exact-middle a.before c a.after (length a.before) (length c) refl refl) in
    let allowed : ltb max (length c) ≡ false = ground arith in
    let exact : ltb 18446744073709551615 (length a.before + length c) ≡ false = ground arith in
    let region : ltb (length bytes) (length a.before + length c) ≡ false = ground arith in
    let offset : leb (length a.before) i64_max ≡ true = ground arith in
    rw (allowed, exact, region, offset) (ap (λ r. ok_or r read_failed) read)

IsAt-append :
    {zipped : List ℕ} {table : Payloads} {t : PayloadType} {c : List ℕ} (rest : List ℕ)
    → IsAt zipped table t c
    → IsAt (zipped ++ rest) table t c
IsAt-append rest a = record {
  before = a.before;
  after = a.after ++ rest;
  entry = a.entry;
  whole =
      ap (λ z. z ++ rest) a.whole
      ∙ append_assoc a.before _ rest
      ∙ ap (λ z. a.before ++ z) (append_assoc _ a.after rest);
}

-- What is assumed of the crates, and of the pair of keys.
pub record IsLawful {M R PublicKey PrivateKey : Type 0} (zip : Zip) (formats : Formats M R)
    (crypto : Crypto PublicKey PrivateKey) (private_key public_key : String) : Type 0 where
  pub metadata_back :
      (m : M) (b : List ℕ) → formats.encode_metadata m ≡ some b → formats.decode_metadata b ≡ some m
  pub runtime_config_back :
      (r : R) (b : List ℕ)
      → formats.write_runtime_config r ≡ some b
      → formats.read_runtime_config b ≡ some r
  pub payloads_back :
      (p : Payloads) (b rest : List ℕ)
      → formats.encode_payloads p ≡ some b
      → formats.decode_payloads (b ++ rest) ≡ some p
  pub size_back :
      (n : ℕ) (b rest : List ℕ)
      → formats.encode_size n ≡ some b
      → (length b ≡ 8) × (formats.decode_size (b ++ rest) ≡ some n)
  pub stored :
      (files : HashMap (List ℕ)) (zipped : List ℕ) (name : String) (c : List ℕ)
      → zip.archive files ≡ some zipped
      → Prelude.get files name ≡ some c
      → (before : List ℕ) × (after : List ℕ) × (zip.by_name files name
          ≡ some (length before, length c))
        × (zipped ≡ before ++ (c ++ after))
  pub pair :
      (key : PrivateKey)
      → crypto.read_private_key private_key ≡ some key
      → (public : PublicKey) × (crypto.read_public_key public_key ≡ some public)
        × ((d s : List ℕ)
            → crypto.sign_digest key d ≡ some s
            → (crypto.check public d s ≡ true) × (length s ≤ crypto.size public))

length-footer : length footer ≡ 32
unfolding length
length-footer = refl

module _ {M R PublicKey PrivateKey : Type 0} (zip : Zip) (disk : Disk) (formats : Formats M R)
    (crypto : Crypto PublicKey PrivateKey) where
  read_entry-IsAt :
      {bytes : List ℕ} {table : Payloads} {t : PayloadType} {c : List ℕ} (a : IsAt bytes table t c)
      → length bytes ≤ i64_max
      → length bytes ≤ crypto.usize_max
      → length c ≤ max_verify_payload_size
      → read_entry crypto (opened bytes) (length bytes) t (internal (length a.before) (length c))
        ≡ ok c
  unfolding read_entry
  read_entry-IsAt {bytes} {table} {t} {c} a fits usize small =
      let inside : length c ≤ length bytes = omega (
        arith,
        ap length a.whole,
        length-append a.before (c ++ a.after),
        length-append c a.after,
      ) in
      let not_big : ltb crypto.usize_max (length c) ≡ false = ground arith in
      rw not_big (read_payload-IsAt max_verify_payload_size a fits small)

  abbrev unwrap : Result WrapError Payloads → Payloads
  unwrap (ok p) = p
  unwrap (err _) = init

  -- Where the five payloads stand, by the table that `wrap` makes.
  record Placed (bytes : List ℕ) (table : Payloads) (meta runtime seccomp sig img : List ℕ)
      : Type 0 where
    at_metadata : IsAt bytes table metadata meta
    at_runtime : IsAt bytes table runtime_config runtime
    at_seccomp : IsAt bytes table seccomp_policy seccomp
    at_signature : IsAt bytes table signature sig
    at_image : IsAt bytes table package_filesystem img

  locate-Placed :
      {private_key public_key : String} (law : IsLawful zip formats crypto private_key public_key)
      (meta runtime seccomp sig img zipped rest : List ℕ) {table : Payloads}
      → zip.archive (named meta runtime seccomp sig img) ≡ some zipped
      → locate zip disk all_types (named meta runtime seccomp sig img) init ≡ ok table
      → Placed (zipped ++ rest) table meta runtime seccomp sig img
  unfolding locate set insert Prelude.get
  locate-Placed law meta runtime seccomp sig img zipped rest hz e =
      let files = named meta runtime seccomp sig img in
      let (b1, a1, h1, w1) = law.stored files zipped "metadata.json" meta hz refl in
      let (b2, a2, h2, w2) = law.stored files zipped "runtime_config.json" runtime hz refl in
      let (b3, a3, h3, w3) = law.stored files zipped "seccomp.json" seccomp hz refl in
      let (b4, a4, h4, w4) = law.stored files zipped "signature.sig" sig hz refl in
      let (b5, a5, h5, w5) = law.stored files zipped "filesystem.img" img hz refl in
      let made = rw (h1, h2, h3, h4, h5) at e in
      record {
        at_metadata = IsAt-append rest (record {
          before = b1;
          after = a1;
          entry = sym (ap (λ r. unwrap r metadata) made);
          whole = w1;
        });
        at_runtime = IsAt-append rest (record {
          before = b2;
          after = a2;
          entry = sym (ap (λ r. unwrap r runtime_config) made);
          whole = w2;
        });
        at_seccomp = IsAt-append rest (record {
          before = b3;
          after = a3;
          entry = sym (ap (λ r. unwrap r seccomp_policy) made);
          whole = w3;
        });
        at_signature = IsAt-append rest (record {
          before = b4;
          after = a4;
          entry = sym (ap (λ r. unwrap r signature) made);
          whole = w4;
        });
        at_image = IsAt-append rest (record {
          before = b5;
          after = a5;
          entry = sym (ap (λ r. unwrap r package_filesystem) made);
          whole = w5;
        });
      }

  -- The three payloads that are covered.
  abbrev found : List ℕ → List ℕ → List ℕ → PayloadType → Option (List ℕ)
  found meta runtime seccomp =
      insert (insert (insert (λ t. none) metadata meta) runtime_config runtime) seccomp_policy
        seccomp

  verify_entries-Placed :
      {bytes : List ℕ} {table : Payloads} {meta runtime seccomp sig img : List ℕ}
      → Placed bytes table meta runtime seccomp sig img
      → length bytes ≤ i64_max
      → length bytes ≤ crypto.usize_max
      → length meta ≤ max_verify_payload_size
      → length runtime ≤ max_verify_payload_size
      → length seccomp ≤ max_verify_payload_size
      → verify_entries crypto (opened bytes) (length bytes) all_types table ([], λ t. none)
        ≡ ok (covered meta runtime seccomp, found meta runtime seccomp)
  unfolding verify_entries verify_entry
  verify_entries-Placed p fits usize sm sr ss =
      rw
        (
          p.at_metadata.entry,
          read_entry-IsAt p.at_metadata fits usize sm,
          p.at_runtime.entry,
          read_entry-IsAt p.at_runtime fits usize sr,
          p.at_seccomp.entry,
          read_entry-IsAt p.at_seccomp fits usize ss,
          p.at_signature.entry,
          p.at_image.entry,
        )
        refl

  read_signature-IsAt :
      {bytes : List ℕ} {table : Payloads} {sig : List ℕ} (max : ℕ)
      → IsAt bytes table signature sig
      → length bytes ≤ i64_max
      → length bytes ≤ crypto.usize_max
      → length sig ≤ max
      → read_signature crypto (opened bytes) (get table signature) (length bytes) max ≡ ok sig
  unfolding read_signature get
  read_signature-IsAt {bytes} {table} {sig} max a fits usize small =
      let inside : length sig ≤ length bytes = omega (
        arith,
        ap length a.whole,
        length-append a.before (sig ++ a.after),
        length-append sig a.after,
      ) in
      let not_big : ltb crypto.usize_max (length sig) ≡ false = ground arith in
      rw (a.entry, not_big) (read_payload-IsAt max a fits small)

  verify-Placed :
      {private_key public_key : String} (law : IsLawful zip formats crypto private_key public_key)
      {bytes : List ℕ} {table : Payloads} {meta runtime seccomp sig img : List ℕ} (key : PrivateKey)
      → crypto.read_private_key private_key ≡ some key
      → crypto.sign_digest key (crypto.sha256 (covered meta runtime seccomp)) ≡ some sig
      → Placed bytes table meta runtime seccomp sig img
      → length bytes ≤ i64_max
      → length bytes ≤ crypto.usize_max
      → length meta ≤ max_verify_payload_size
      → length runtime ≤ max_verify_payload_size
      → length seccomp ≤ max_verify_payload_size
      → verify crypto (opened bytes) table public_key ≡ ok (found meta runtime seccomp)
  unfolding verify
  verify-Placed law {bytes} {table} {meta} {runtime} {seccomp} {sig} key hk hs p fits usize sm sr
        ss =
      let (public, hp, checks) = law.pair key hk in
      let (good, short) = checks (crypto.sha256 (covered meta runtime seccomp)) sig hs in
      rw
        (
          hp,
          read_signature-IsAt (crypto.size public) p.at_signature fits usize short,
          verify_entries-Placed p fits usize sm sr ss,
          good,
        )
        refl

  load_steps :
      (bytes at_size at_info : List ℕ) (n : ℕ) (table : Payloads) (public_key : String)
      → verify_footer bytes ≡ ok tt
      → seek bytes (length bytes - 40) ≡ ok at_size
      → formats.decode_size at_size ≡ some n
      → leb n (length bytes - 40) ≡ true
      → seek bytes (length bytes - (40 + n)) ≡ ok at_info
      → formats.decode_payloads at_info ≡ some table
      → load_payloads_info formats crypto bytes public_key ≡ (
          map_err payload_failed (verify crypto (opened bytes) table public_key) >>= λ verified.
          ok (table, verified))
  unfolding load_payloads_info
  load_steps bytes at_size at_info n table public_key e1 e2 e3 e4 e5 e6 =
      rw (e1, e2, e3, e4, e5, e6) refl

  load-wrapped :
      {private_key public_key : String} (law : IsLawful zip formats crypto private_key public_key)
      (zipped info size : List ℕ) (table : Payloads)
      → formats.encode_payloads table ≡ some info
      → formats.encode_size (length info) ≡ some size
      → length (zipped ++ ((info ++ size) ++ footer)) ≤ i64_max
      → load_payloads_info formats crypto (zipped ++ ((info ++ size) ++ footer)) public_key ≡ (
          map_err payload_failed
            (verify crypto (opened (zipped ++ ((info ++ size) ++ footer))) table public_key)
          >>= λ verified. ok (table, verified))
  load-wrapped law zipped info size table hi hn fits =
      let bytes = zipped ++ ((info ++ size) ++ footer) in
      let (eight, size_read) = law.size_back (length info) size footer hn in
      let at_end : bytes ≡ (zipped ++ (info ++ size)) ++ footer =
        sym (append_assoc zipped (info ++ size) footer) in
      let at_size : bytes ≡ (zipped ++ info) ++ (size ++ footer) =
        ap (λ z. zipped ++ z) (append_assoc info size footer)
        ∙ sym (append_assoc zipped info (size ++ footer)) in
      let at_info : bytes ≡ zipped ++ (info ++ (size ++ footer)) =
        ap (λ z. zipped ++ z) (append_assoc info size footer) in
      let footer_ok : verify_footer bytes ≡ ok tt =
        rw at_end (verify_footer-wrapped (zipped ++ (info ++ size))) in
      let total : length bytes ≡ length zipped + length info + 40 = omega (
        arith,
        eight,
        length-footer,
        length-append zipped ((info ++ size) ++ footer),
        length-append (info ++ size) footer,
        length-append info size,
      ) in
      let size_at : seek bytes (length bytes - 40) ≡ ok (size ++ footer) =
        subst (λ b. seek b (length bytes - 40) ≡ ok (size ++ footer)) (sym at_size)
          (seek-append (zipped ++ info) (size ++ footer) (length bytes - 40)
            (omega (arith, total, length-append zipped info)) (omega arith)) in
      let info_at : seek bytes (length bytes - (40 + length info)) ≡ ok (info ++ (size ++ footer)) =
        subst (λ b. seek b (length bytes - (40 + length info)) ≡ ok (info ++ (size ++ footer)))
          (sym at_info)
          (seek-append zipped (info ++ (size ++ footer)) (length bytes - (40 + length info))
            (omega (arith, total)) (omega arith)) in
      load_steps bytes (size ++ footer) (info ++ (size ++ footer)) (length info) table _ footer_ok
        size_at size_read (le→leb (length info) (length bytes - 40) (omega (arith, total))) info_at
        (law.payloads_back table info (size ++ footer) hi)

  -- If `wrap` writes a package, then `from_file_verified` accepts the file under the matching public
  -- key and gives the same metadata, runtime configuration and seccomp policy, and its table leads to
  -- the same filesystem image. Each of the three payloads must be at most 4 MiB, and offsets must fit.
  pub from_file_verified-wrap :
      (private_key public_key : String)
      → IsLawful zip formats crypto private_key public_key
      → (p : PackageFile M R) (bytes : List ℕ)
      → wrap zip disk formats crypto p private_key ≡ ok bytes
      → length bytes ≤ i64_max
      → length bytes ≤ crypto.usize_max
      → ((b : List ℕ)
          → formats.encode_metadata p.metadata ≡ some b
          → length b ≤ max_verify_payload_size)
      → ((b : List ℕ)
          → formats.write_runtime_config p.runtime_config ≡ some b
          → length b ≤ max_verify_payload_size)
      → length p.seccomp_policy ≤ max_verify_payload_size
      → formats.is_json p.seccomp_policy ≡ true
      → (table : Payloads) × (image : Payload) × (img : List ℕ) × (from_file_verified formats crypto
            (some bytes)
            public_key
          ≡ ok (record p { payloads = table }))
        × (get p.payloads package_filesystem ≡ some image)
        × (contents zip disk package_filesystem image ≡ ok img)
        × IsAt bytes table package_filesystem img
  unfolding from_file_verified parse_components insert
  from_file_verified-wrap private_key public_key law p bytes e fits usize sm sr ss json =
      let w = wrap-Written zip disk formats crypto p private_key e in
      let all_at =
        locate-Placed law w.meta w.runtime p.seccomp_policy w.sig w.img w.zipped
          ((w.info ++ w.size) ++ footer) w.has_zip w.located in
      let placed : Placed bytes w.table w.meta w.runtime p.seccomp_policy w.sig w.img =
        subst (λ b. Placed b w.table w.meta w.runtime p.seccomp_policy w.sig w.img) (sym w.whole)
          all_at in
      let verified =
        verify-Placed law w.key w.has_key w.signed placed fits usize (sm w.meta w.has_meta)
          (sr w.runtime w.has_runtime) ss in
      let loaded : load_payloads_info formats crypto bytes public_key ≡ (
          map_err payload_failed (verify crypto (opened bytes) w.table public_key) >>= λ verified.
          ok (w.table, verified)) =
        subst
          (λ b. load_payloads_info formats crypto b public_key ≡ (
            map_err payload_failed (verify crypto (opened b) w.table public_key) >>= λ verified.
            ok (w.table, verified)))
          (sym w.whole)
          (load-wrapped law w.zipped w.info w.size w.table w.has_info w.has_size
            (subst (λ b. length b ≤ i64_max) w.whole fits)) in
      (
        w.table,
        w.image,
        w.img,
        rw
            (
              loaded,
              verified,
              law.metadata_back p.metadata w.meta w.has_meta,
              law.runtime_config_back p.runtime_config w.runtime w.has_runtime,
              json,
            )
            refl,
        w.has_image,
        w.read_image,
        placed.at_image,
      )
