-- ===== src/Tests/Wrapping.antt =====
-- A package that is wrapped and read back, with an archive that is its files one after the other.
use ssam.Prelude.{
  ℕ, ◌+◌, ◌≤◌, ◌<◌, ◌≡◌, refl, sym, ap, subst, ◌∙◌, Bool, true, false, ◌&&◌, Option, none, some,
  List, [], ◌∷◌, ◌++◌, String, HashMap, Result, ok, arith, ◌==◌, str_eq, str_eq-cases,
  if◌then◌else◌, ◌>>=◌, inl, inr, Option-cases, length, length-append,
}
use ssam.Prelude
use mathlib.Core.List.{append_assoc}
use mathlib.Core.Path.{fun_ext}
use ssam.Payload.{
  PayloadType, metadata, runtime_config, seccomp_policy, signature, package_filesystem, Payload,
  internal, external, Payloads, Crypto, init, set, insert, get, sign, sign_entries,
  max_verify_payload_size,
}
use ssam.Wrap.{
  PackageFile, Formats, Zip, Disk, wrap, wrap_payloads, wrap_payloads_info, locate, data_payloads,
  footer, contents,
}
use ssam.Wrap.Loading.{from_file_verified, bytes_eq}
use ssam.Packages.Parser.{Files, parse_packages_from_dir}
use ssam.Packages.Parser.Verified.{AllSigned, parse_packages_from_dir-AllSigned}
use ssam.Wrap.RoundTrip.{IsAt, IsLawful, from_file_verified-wrap}

some_inj : {A : Type 0} {a b : A} → ◌≡◌ {A = Option A} (some a) (some b) → a ≡ b
some_inj e = cc

abbrev archive : HashMap (List ℕ) → List ℕ
archive [] = []
archive ((name, bytes) ∷ files) = bytes ++ archive files

abbrev farther : ℕ → Option (ℕ × ℕ) → Option (ℕ × ℕ)
farther n none = none
farther n (some (offset, size)) = some (n + offset, size)

abbrev by_name : HashMap (List ℕ) → String → Option (ℕ × ℕ)
by_name [] wanted = none
by_name ((name, bytes) ∷ files) wanted =
    if str_eq name wanted
    then some (0, length bytes)
    else farther (length bytes) (by_name files wanted)

abbrev zip : Zip
zip = record { archive = λ files. some (archive files); by_name = by_name }

stored_at :
    (files : HashMap (List ℕ)) (name : String) (c : List ℕ)
    → Prelude.get files name ≡ some c
    → (before : List ℕ) × (after : List ℕ) × (by_name files name ≡ some (length before, length c))
      × (archive files ≡ before ++ (c ++ after))
unfolding Prelude.get length
stored_at [] name c e = absurd (cc)
stored_at ((first, bytes) ∷ files) name c e = elim (str_eq-cases first name) [
  | inl (same, s) ↦
      let f = rw s at e in
      ([], archive files, rw (s, some_inj f) refl, ap (λ b. b ++ archive files) (some_inj f))
  | inr (ne, s) ↦
      let (before, after, found, whole) = stored_at files name c (rw s at e) in
      (
        bytes ++ before,
        after,
        rw (s, found) (ap (λ n. some (n, length c)) (sym (length-append bytes before))),
        ap (λ l. bytes ++ l) whole ∙ sym (append_assoc bytes before (c ++ after)),
      )
]

abbrev disk : Disk
disk = record {
  read_external = λ path. some (5 ∷ 6 ∷ []);
  create = true;
  open_append = true;
  write_info = true;
  write_footer = true;
}

-- The offset and the size of an entry that has them.
abbrev offsets : Option (Option Payload) → Option (ℕ × ℕ)
offsets (some (some (internal offset size))) = some (offset, size)
offsets _ = none

offsets_inv :
    (o : Option (Option Payload)) {r : ℕ × ℕ}
    → offsets o ≡ some r
    → o ≡ some (some (internal r.0 r.1))
offsets_inv none e = cc
offsets_inv (some none) e = cc
offsets_inv (some (some (internal a b))) e = ap (λ r. some (some (internal r.0 r.1))) (some_inj e)
offsets_inv (some (some (external path))) e = cc
offsets_inv (some (some (Payload.data_bytes bytes))) e = cc

abbrev Place : Type 0
Place = ℕ × ℕ

abbrev table_of : Place → Place → Place → Place → Place → Payloads
table_of m r s g f metadata = some (some (internal m.0 m.1))
table_of m r s g f runtime_config = some (some (internal r.0 r.1))
table_of m r s g f seccomp_policy = some (some (internal s.0 s.1))
table_of m r s g f signature = some (some (internal g.0 g.1))
table_of m r s g f package_filesystem = some (some (internal f.0 f.1))

abbrev written : Place → Place → Place → Place → Place → List ℕ
written m r s g f = m.0 ∷ m.1 ∷ r.0 ∷ r.1 ∷ s.0 ∷ s.1 ∷ g.0 ∷ g.1 ∷ f.0 ∷ f.1 ∷ []

abbrev on_some : {A B : Type 0} → Option A → (A → Option B) → Option B
on_some none f = none
on_some (some a) f = f a

-- Of a table that lacks an entry nothing is written.
abbrev encode_payloads : Payloads → Option (List ℕ)
encode_payloads p = on_some (offsets (p metadata)) (λ m. on_some (offsets (p runtime_config)) (λ r.
    on_some (offsets (p seccomp_policy)) (λ s.
      on_some (offsets (p signature))
        (λ g. on_some (offsets (p package_filesystem)) (λ f. some (written m r s g f))))))

abbrev decode_payloads : List ℕ → Option Payloads
decode_payloads (a ∷ b ∷ c ∷ d ∷ e ∷ f ∷ g ∷ h ∷ i ∷ j ∷ rest) =
    some (table_of (a, b) (c, d) (e, f) (g, h) (i, j))
decode_payloads _ = none

same_table :
    (p : Payloads) (m r s g f : Place)
    → p metadata ≡ some (some (internal m.0 m.1))
    → p runtime_config ≡ some (some (internal r.0 r.1))
    → p seccomp_policy ≡ some (some (internal s.0 s.1))
    → p signature ≡ some (some (internal g.0 g.1))
    → p package_filesystem ≡ some (some (internal f.0 f.1))
    → (t : PayloadType) → table_of m r s g f t ≡ p t
same_table p m r s g f em er es eg ef metadata = sym em
same_table p m r s g f em er es eg ef runtime_config = sym er
same_table p m r s g f em er es eg ef seccomp_policy = sym es
same_table p m r s g f em er es eg ef signature = sym eg
same_table p m r s g f em er es eg ef package_filesystem = sym ef

payloads_back :
    (p : Payloads) (b rest : List ℕ)
    → encode_payloads p ≡ some b
    → decode_payloads (b ++ rest) ≡ some p
payloads_back p b rest e = elim (Option-cases (offsets (p metadata))) [
  | inl bad ↦ absurd (let h = rw (bad) at e in cc)
  | inr (m, em) ↦ elim (Option-cases (offsets (p runtime_config))) [
    | inl bad ↦ absurd (let h = rw (em, bad) at e in cc)
    | inr (r, er) ↦ elim (Option-cases (offsets (p seccomp_policy))) [
      | inl bad ↦ absurd (let h = rw (em, er, bad) at e in cc)
      | inr (s, es) ↦ elim (Option-cases (offsets (p signature))) [
        | inl bad ↦ absurd (let h = rw (em, er, es, bad) at e in cc)
        | inr (g, eg) ↦ elim (Option-cases (offsets (p package_filesystem))) [
          | inl bad ↦ absurd (let h = rw (em, er, es, eg, bad) at e in cc)
          | inr (f, ef) ↦
              let h = rw (em, er, es, eg, ef) at e in
              subst (λ c. decode_payloads (c ++ rest) ≡ some p) (some_inj h)
                (ap some (
                  fun_ext (
                    same_table p m r s g f (offsets_inv _ em) (offsets_inv _ er) (offsets_inv _ es)
                      (offsets_inv _ eg) (offsets_inv _ ef))))
        ]
      ]
    ]
  ]
]

abbrev decode_size : List ℕ → Option ℕ
decode_size [] = none
decode_size (n ∷ rest) = some n

abbrev formats : Formats (List ℕ) (List ℕ)
formats = record {
  encode_metadata = λ m. some m;
  decode_metadata = λ b. some b;
  write_runtime_config = λ r. some r;
  read_runtime_config = λ b. some b;
  is_json = λ b. true;
  encode_payloads = encode_payloads;
  decode_payloads = decode_payloads;
  encode_size = λ n. some (n ∷ 0 ∷ 0 ∷ 0 ∷ 0 ∷ 0 ∷ 0 ∷ 0 ∷ []);
  decode_size = decode_size;
}

-- A signature is the first byte of a digest.
abbrev sign_first : List ℕ → List ℕ
sign_first [] = 0 ∷ []
sign_first (b ∷ bs) = b ∷ []

abbrev crypto : Crypto (Unit {0}) (Unit {0})
crypto = record {
  sha256 = λ b. b;
  read_public_key = λ path. some tt;
  size = λ k. 1;
  check = λ k digest sig. bytes_eq sig (sign_first digest);
  read_private_key = λ path. some tt;
  sign_digest = λ k digest. some (sign_first digest);
  usize_max = 18446744073709551615;
}

signed_first :
    (d : List ℕ) → (bytes_eq (sign_first d) (sign_first d) ≡ true) × (length (sign_first d) ≤ 1)
unfolding length
signed_first [] = (refl, omega arith)
signed_first (b ∷ d) = (ground arith, omega arith)

lawful : IsLawful zip formats crypto "private.pem" "public.pem"
unfolding length
lawful = record {
  metadata_back = λ m b e. sym e;
  runtime_config_back = λ r b e. sym e;
  payloads_back = payloads_back;
  size_back = λ n b rest e.
      subst (λ s. (length s ≡ 8) × (decode_size (s ++ rest) ≡ some n)) (some_inj e) (refl, refl);
  stored = λ files zipped name c e h.
      subst
        (λ z.
          (before : List ℕ) × (after : List ℕ) × (by_name files name
            ≡ some (length before, length c))
          × (z ≡ before ++ (c ++ after)))
        (some_inj e) (stored_at files name c h);
  pair = λ key e. (
    tt,
    refl,
    λ d s h.
        subst (λ z. (bytes_eq z (sign_first d) ≡ true) × (length z ≤ 1)) (some_inj h)
          (signed_first d),
  );
}

abbrev app : PackageFile (List ℕ) (List ℕ)
app = record {
  metadata = 7 ∷ [];
  runtime_config = 8 ∷ [];
  seccomp_policy = 9 ∷ [];
  payloads = set init package_filesystem (some (external "/image"));
}

abbrev bytes : List ℕ
bytes =
    (7 ∷ 8 ∷ 9 ∷ 7 ∷ 5 ∷ 6 ∷ [])
    ++ (((0 ∷ 1 ∷ 1 ∷ 1 ∷ 2 ∷ 1 ∷ 3 ∷ 1 ∷ 4 ∷ 2 ∷ []) ++ (10 ∷ 0 ∷ 0 ∷ 0 ∷ 0 ∷ 0 ∷ 0 ∷ 0 ∷ []))
        ++ footer)

wrapped : wrap zip disk formats crypto app "private.pem" ≡ ok bytes
unfolding wrap data_payloads set insert get sign sign_entries wrap_payloads wrap_payloads_info
    locate length
wrapped = refl

fits :
    (length bytes ≤ 9223372036854775807)
    × (length bytes ≤ 18446744073709551615)
    × (length app.seccomp_policy ≤ max_verify_payload_size)
unfolding length
fits = (omega arith, omega arith, omega arith)

one_byte : (a : ℕ) (b : List ℕ) → some (a ∷ []) ≡ some b → length b ≤ max_verify_payload_size
unfolding length
one_byte a b e = subst (λ c. length c ≤ max_verify_payload_size) (some_inj e) (omega arith)

from_file_verified-wrap_example :
    (table : Payloads) × (image : Payload) × (img : List ℕ) × (from_file_verified formats crypto
        (some bytes)
        "public.pem"
      ≡ ok (record app { payloads = table }))
    × (get app.payloads package_filesystem ≡ some image)
    × (contents zip disk package_filesystem image ≡ ok img)
    × IsAt bytes table package_filesystem img
from_file_verified-wrap_example =
    from_file_verified-wrap zip disk formats crypto "private.pem" "public.pem" lawful app bytes
      wrapped fits.0 fits.1 (one_byte 7) (one_byte 8) fits.2 refl

-- A directory with the package, a text file and an entry that cannot be read.
abbrev files : Files
files = record {
  is_file = λ path. true;
  extension = λ path. if str_eq path "/pkg/app.ssam" then some "SSAM" else some "txt";
  eq_ignore_ascii_case = λ a b. str_eq a "SSAM";
  file_name = λ path. some "app.ssam";
  read_dir = λ dir. some (some "/pkg/app.ssam" ∷ none ∷ some "/pkg/notes.txt" ∷ []);
  open_file = λ path. some bytes;
}

abbrev name_of : List ℕ → String
name_of m = "app"

all_small : (path : String) (b : List ℕ) → some bytes ≡ some b → length b < 9223372036854775808
unfolding length
all_small path b e = subst (λ c. length c < 9223372036854775808) (some_inj e) (omega arith)

parse_packages_from_dir-AllSigned_example :
    AllSigned files formats crypto name_of "ssam" "public.pem"
      (parse_packages_from_dir files formats crypto name_of "ssam" "public.pem" "/pkg")
parse_packages_from_dir-AllSigned_example =
    parse_packages_from_dir-AllSigned files formats crypto name_of "ssam" "public.pem" all_small
      "/pkg"
