-- ===== src/Mount/Options.antt =====
-- How the kernel reads the options of an overlay mount, and what it finds in those of a package.
use Prim.Native.Char.{Char, code}
use Prim.Native.String.{◌++◌}
use text.Mathlib.TextLemmas.{nil-append, cons-append, append_assoc}
use text.Mathlib.TextEquality.{Char-path}
use ssam.Prelude.{
  ℕ, Bool, true, false, not, ◌||◌, String, List, [], ◌∷◌, ◌==◌, ==→eq, if◌then◌else◌, ◌≡◌, refl,
  sym, ap, ◌∙◌, ◌⊎◌, ok, Option-cases, subst, str_eq, arith, inl, inr, Bool-cases,
}
use ssam.Paths.{push_front, contains_char, is_forbidden, is_safe_path_segment, join}
use ssam.Mount.{Configuration, PackageFileInfo, PackageFsMetadata, new, overlayfs_root_of}
use ssam.Mount.Pkgfs.{overlay_options}
use ssam.Mount.Overlay.{replace, escape_overlay_opt, build_overlay_options, comma, backslash, colon}

-- A text is cut at a separator, unless a backslash stands before it.
unfoldable pub cut : ℕ → Bool → String → List String
cut n escaped String.[] = String.[] ∷ []
cut n true (String.◌∷◌ c s) = push_front c (cut n false s)
cut n false (String.◌∷◌ c s) =
    let after = cut n true s in
    let rest = cut n false s in
    if code c == backslash
    then push_front c after
    else if code c == n
    then String.[] ∷ rest
    else push_front c rest

-- Each backslash goes, and what stands after it stays.
unfoldable pub unescape : Bool → String → String
unescape escaped String.[] = String.[]
unescape true (String.◌∷◌ c s) = String.◌∷◌ c (unescape false s)
unescape false (String.◌∷◌ c s) =
    let after = unescape true s in
    let rest = String.◌∷◌ c (unescape false s) in if code c == backslash then after else rest

-- The text has no separator, and no backslash at its end.
closed : ℕ → Bool → String → Bool
closed n escaped String.[] = not escaped
closed n true (String.◌∷◌ c s) = closed n false s
closed n false (String.◌∷◌ c s) =
    let after = closed n true s in
    let rest = closed n false s in
    if code c == backslash then after else if code c == n then false else rest

closed-append :
    (n : ℕ) (b : Bool) (s r : String)
    → closed n b s ≡ true
    → closed n false r ≡ true
    → closed n b (s ++ r) ≡ true
unfolding closed
closed-append n true String.[] r e h = absurd (cc)
closed-append n false String.[] r e h = rw nil-append h
closed-append n true (String.◌∷◌ c s) r e h = rw cons-append (closed-append n false s r e h)
closed-append n false (String.◌∷◌ c s) r e h =
    rw cons-append (ground (arith, closed-append n true s r, closed-append n false s r))

cut-closed : (n : ℕ) (b : Bool) (s : String) → closed n b s ≡ true → cut n b s ≡ s ∷ []
unfolding closed cut
cut-closed n b String.[] e = refl
cut-closed n true (String.◌∷◌ c s) e = ground (arith, cut-closed n false s)
cut-closed n false (String.◌∷◌ c s) e = ground (arith, cut-closed n true s, cut-closed n false s)

cut-append :
    (n : ℕ) (b : Bool) (s r : String) (sep : Char)
    → code sep ≡ n
    → (n == backslash) ≡ false
    → closed n b s ≡ true
    → cut n b (s ++ String.◌∷◌ sep r) ≡ s ∷ cut n false r
unfolding closed cut
cut-append n true String.[] r sep es nb e = absurd (cc)
cut-append n false String.[] r sep es nb e = rw (nil-append) (ground arith)
cut-append n true (String.◌∷◌ c s) r sep es nb e =
    rw cons-append (ground (arith, cut-append n false s r sep es nb))
cut-append n false (String.◌∷◌ c s) r sep es nb e =
    rw cons-append
      (ground (arith, cut-append n true s r sep es nb, cut-append n false s r sep es nb))

lowerdir_closed : closed comma false "lowerdir=" ≡ true
unfolding closed
lowerdir_closed = refl

-- What becomes of one character.
abbrev chunk : Char → String
chunk c =
    if code c == backslash
    then "\\\\"
    else if code c == comma
    then "\\,"
    else if code c == colon
    then "\\:"
    else String.◌∷◌ c String.[]

replace-append :
    (n : ℕ) (to s r : String) → replace n to (s ++ r) ≡ replace n to s ++ replace n to r
unfolding replace
replace-append n to String.[] r = rw (nil-append) (sym (nil-append (replace n to r)))
replace-append n to (String.◌∷◌ c s) r = elim (Bool-cases (code c == n)) [
  | inl e ↦
      rw (cons-append, e, replace-append n to s r)
        (sym (append_assoc to (replace n to s) (replace n to r)))
  | inr e ↦
      rw (cons-append, e, replace-append n to s r)
        (sym (cons-append c (replace n to s) (replace n to r)))
]

single-append : (c : Char) (s : String) → String.◌∷◌ c String.[] ++ s ≡ String.◌∷◌ c s
single-append c s = cons-append c String.[] s ∙ ap (String.◌∷◌ c) (nil-append s)

escape-cons :
    (c : Char) (s : String) → escape_overlay_opt (String.◌∷◌ c s) ≡ chunk c ++ escape_overlay_opt s
unfolding escape_overlay_opt replace
escape-cons c s =
    let once = replace backslash "\\\\" s in
    elim (Bool-cases (code c == backslash)) [
      | inl e ↦ rw e (
          ap (replace colon "\\:") (replace-append comma "\\," "\\\\" once)
          ∙ replace-append colon "\\:" "\\\\" (replace comma "\\," once))
      | inr e ↦ elim (Bool-cases (code c == comma)) [
        | inl f ↦ rw (e, f) (replace-append colon "\\:" "\\," (replace comma "\\," once))
        | inr f ↦ elim (Bool-cases (code c == colon)) [
          | inl g ↦ rw (e, f, g) refl
          | inr g ↦
              rw (e, f, g) (sym (single-append c (replace colon "\\:" (replace comma "\\," once))))
        ]
      ]
    ]

escape_nil : escape_overlay_opt "" ≡ ""
unfolding escape_overlay_opt replace
escape_nil = refl

closed-nil : (n : ℕ) → closed n false "" ≡ true
unfolding closed
closed-nil n = refl

unescape_nil : unescape false "" ≡ ""
unfolding unescape
unescape_nil = refl

closed-chunk : (n : ℕ) (c : Char) → (n ≡ comma) ⊎ (n ≡ colon) → closed n false (chunk c) ≡ true
unfolding closed
closed-chunk n c h = elim (Bool-cases (code c == backslash)) [
  | inl e ↦ rw e refl
  | inr e ↦ elim (Bool-cases (code c == comma)) [
    | inl f ↦ rw (e, f) refl
    | inr f ↦ elim (Bool-cases (code c == colon)) [
      | inl g ↦ rw (e, f, g) refl
      | inr g ↦ elim h [ inl m ↦ rw (e, f, g, m, e, f) refl | inr m ↦ rw (e, f, g, m, e, g) refl ]
    ]
  ]
]

closed-escape :
    (n : ℕ) (s : String) → (n ≡ comma) ⊎ (n ≡ colon) → closed n false (escape_overlay_opt s) ≡ true
closed-escape n String.[] e = rw escape_nil (closed-nil n)
closed-escape n (String.◌∷◌ c s) e = rw (escape-cons c s) (
    closed-append n false (chunk c) (escape_overlay_opt s) (closed-chunk n c e)
      (closed-escape n s e))

two-append :
    (a b : Char) (r : String)
    → String.◌∷◌ a (String.◌∷◌ b String.[]) ++ r ≡ String.◌∷◌ a (String.◌∷◌ b r)
two-append a b r = cons-append a (String.◌∷◌ b String.[]) r ∙ ap (String.◌∷◌ a) (single-append b r)

unescape-chunk :
    (c : Char) (r : String) → unescape false (chunk c ++ r) ≡ String.◌∷◌ c (unescape false r)
unfolding unescape
unescape-chunk c r = elim (Bool-cases (code c == backslash)) [
  | inl e ↦ rw (e, two-append "\\" "\\" r, Char-path c "\\" (==→eq _ _ e)) refl
  | inr e ↦ elim (Bool-cases (code c == comma)) [
    | inl f ↦ rw (e, f, two-append "\\" "," r, Char-path c "," (==→eq _ _ f)) refl
    | inr f ↦ elim (Bool-cases (code c == colon)) [
      | inl g ↦ rw (e, f, g, two-append "\\" ":" r, Char-path c ":" (==→eq _ _ g)) refl
      | inr g ↦ rw (e, f, g, single-append c r, e) refl
    ]
  ]
]

unescape-escape : (s : String) → unescape false (escape_overlay_opt s) ≡ s
unescape-escape String.[] = rw escape_nil unescape_nil
unescape-escape (String.◌∷◌ c s) =
    rw (escape-cons c s, unescape-chunk c (escape_overlay_opt s))
      (ap (String.◌∷◌ c) (unescape-escape s))

-- No comma and no backslash.
abbrev is_special : Char → Bool
is_special c = code c == comma || code c == backslash

abbrev pub IsPlain : String → Type 0
IsPlain s = contains_char is_special s ≡ false

IsPlain-closed : (s : String) → IsPlain s → closed comma false s ≡ true
unfolding closed
IsPlain-closed String.[] p = refl
IsPlain-closed (String.◌∷◌ c s) p = ground (arith, IsPlain-closed s)

IsPlain-append : (s r : String) → IsPlain s → IsPlain r → IsPlain (s ++ r)
IsPlain-append String.[] r p q = rw nil-append q
IsPlain-append (String.◌∷◌ c s) r p q = rw cons-append (ground (arith, IsPlain-append s r))

IsPlain-join : (p r : String) → IsPlain p → IsPlain r → IsPlain (join p r)
unfolding join
IsPlain-join p r hp hr =
    ground (
      arith,
      IsPlain-append p r hp hr,
      IsPlain-append p ("/" ++ r) hp (IsPlain-append "/" r refl hr),
    )

IsPlain-forbidden : (s : String) → contains_char is_forbidden s ≡ false → IsPlain s
IsPlain-forbidden String.[] e = refl
IsPlain-forbidden (String.◌∷◌ c s) e = ground (arith, IsPlain-forbidden s)

IsPlain-segment : (s : String) → is_safe_path_segment s ≡ true → IsPlain s
unfolding is_safe_path_segment
IsPlain-segment s e = ground (arith, IsPlain-forbidden s)

options_cut :
    (lowerdir upperdir workdir : String)
    → IsPlain upperdir
    → IsPlain workdir
    → cut comma false (build_overlay_options lowerdir upperdir workdir)
      ≡ ("lowerdir=" ++ escape_overlay_opt lowerdir)
        ∷ ("upperdir=" ++ upperdir)
        ∷ ("workdir=" ++ workdir)
        ∷ []
unfolding build_overlay_options
options_cut lowerdir upperdir workdir pu pw =
    let lower = "lowerdir=" ++ escape_overlay_opt lowerdir in
    let upper = "upperdir=" ++ upperdir in
    let work = "workdir=" ++ workdir in
    let e1 = cons-append "," "workdir=" workdir in
    let e2 =
      ap (λ t. "upperdir=" ++ (upperdir ++ t)) e1
      ∙ sym (append_assoc "upperdir=" upperdir (String.◌∷◌ "," work)) in
    let e3 : ",upperdir=" ++ (upperdir ++ (",workdir=" ++ workdir))
        ≡ String.◌∷◌ "," (upper ++ String.◌∷◌ "," work) =
      cons-append "," "upperdir=" (upperdir ++ (",workdir=" ++ workdir)) ∙ ap (String.◌∷◌ ",") e2 in
    let whole =
      ap (λ t. "lowerdir=" ++ (escape_overlay_opt lowerdir ++ t)) e3
      ∙ sym (
          append_assoc "lowerdir=" (escape_overlay_opt lowerdir)
            (String.◌∷◌ "," (upper ++ String.◌∷◌ "," work))) in
    ap (cut comma false) whole
    ∙ cut-append comma false lower (upper ++ String.◌∷◌ "," work) "," refl refl (
        closed-append comma false "lowerdir=" (escape_overlay_opt lowerdir) lowerdir_closed
          (closed-escape comma lowerdir (inl refl)))
    ∙ ap (λ l. lower ∷ l)
        (cut-append comma false upper work "," refl refl
          (IsPlain-closed upper (IsPlain-append "upperdir=" upperdir refl pu)))
    ∙ ap (λ l. lower ∷ upper ∷ l)
        (cut-closed comma false work
          (IsPlain-closed work (IsPlain-append "workdir=" workdir refl pw)))

-- The directories that a value of `lowerdir` stands for.
abbrev unescape_all : List String → List String
unescape_all [] = []
unescape_all (s ∷ ss) = unescape false s ∷ unescape_all ss

unfoldable pub lower_layers : String → List String
unfolding cut unescape
lower_layers value = unescape_all (cut colon false value)

lower_layers-escape : (s : String) → lower_layers (escape_overlay_opt s) ≡ s ∷ []
unfolding lower_layers
lower_layers-escape s =
    ap unescape_all
      (cut-closed colon false (escape_overlay_opt s) (closed-escape colon s (inr refl)))
    ∙ ap (λ t. t ∷ []) (unescape-escape s)

root-IsPlain :
    (conf : Configuration) (name : String)
    → IsPlain conf.packages_overlayfs_root
    → is_safe_path_segment name ≡ true
    → IsPlain (overlayfs_root_of conf name)
root-IsPlain conf name p safe = elim (Bool-cases (str_eq conf.packages_overlayfs_root "")) [
  | inl e ↦ rw e refl
  | inr e ↦ rw e (IsPlain-join conf.packages_overlayfs_root name p (IsPlain-segment name safe))
]

new-IsPlain :
    (conf : Configuration) (path : String) (file : PackageFileInfo) {meta : PackageFsMetadata}
    → new conf path file ≡ ok meta
    → IsPlain conf.packages_overlayfs_root
    → IsPlain meta.overlayfs_root
unfolding new
new-IsPlain conf path file {meta} e p = elim (Option-cases file.pkgfs) [
  | inl none_read ↦ absurd (let f = rw none_read at e in cc)
  | inr (info, read) ↦ elim (Bool-cases (is_safe_path_segment file.package_name)) [
    | inr unsafe ↦ absurd (let f = rw (read, unsafe) at e in cc)
    | inl safe ↦ elim (Option-cases info.1) [
      | inl short ↦ absurd (let f = rw (read, safe, short) at e in cc)
      | inr (extent, found) ↦
          let f = rw (read, safe, found) at e in
          let same : overlayfs_root_of conf file.package_name ≡ meta.overlayfs_root = cc in
          subst IsPlain same (root-IsPlain conf file.package_name p safe)
    ]
  ]
]

-- The kernel reads the overlay options of any package that is accepted as the three that are meant:
-- one lower directory, which is the mount point, and the two directories below the overlay root. No
-- name of a package adds an option or a layer. The configured overlay root must hold no comma and no
-- backslash.
pub overlay_options-cut :
    (conf : Configuration) (path : String) (file : PackageFileInfo) (meta : PackageFsMetadata)
    → new conf path file ≡ ok meta
    → IsPlain conf.packages_overlayfs_root
    → (value : String) × (cut comma false (overlay_options meta)
        ≡ ("lowerdir=" ++ value)
          ∷ ("upperdir=" ++ join meta.overlayfs_root "upper")
          ∷ ("workdir=" ++ join meta.overlayfs_root "work")
          ∷ [])
      × (lower_layers value ≡ meta.mount_point ∷ [])
unfolding overlay_options
overlay_options-cut conf path file meta e p =
    let plain = new-IsPlain conf path file e p in
    (
      escape_overlay_opt meta.mount_point,
      options_cut meta.mount_point (join meta.overlayfs_root "upper")
          (join meta.overlayfs_root "work") (IsPlain-join meta.overlayfs_root "upper" plain refl)
          (IsPlain-join meta.overlayfs_root "work" plain refl),
      lower_layers-escape meta.mount_point,
    )
