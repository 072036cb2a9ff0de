-- ===== src/Paths/Inside.antt =====
-- Joining a safe path to a directory never leaves the directory.
use Prim.Native.Char.{Char}
use Prim.Native.String.{◌++◌}
use text.Mathlib.TextLemmas.{append_assoc, append-nil, cons≢nil}
use mathlib.Core.List
use ssam.Prelude.{
  ◌≡◌, ◌≢◌, refl, sym, ap, ◌∙◌, Bool, true, false, List, [], ◌∷◌, String, arith, inl, inr,
  Bool-cases, str_eq, str_eq-cases, str_eq_ne,
}
use ssam.Paths.{
  Component, root_dir, cur_dir, parent_dir, normal, split_at, is_sep, body, leading, components,
  starts_with_sep, ends_with_sep, join, safe_components, is_safe_relative_path,
}
use ssam.Paths.Split.{split_at-cons, split_at-sep, ends_with_sep_lem, body-append}

-- Every component is a name.
abbrev pub AllNormal : List Component → Type 0
AllNormal [] = Unit {0}
AllNormal (normal s ∷ cs) = AllNormal cs
AllNormal (_ ∷ cs) = ⊥

safe_components-AllNormal :
    (cs : List Component) (b : Bool) → safe_components cs b ≡ true → AllNormal cs
unfolding safe_components
safe_components-AllNormal [] b e = tt
safe_components-AllNormal (normal s ∷ cs) b e = safe_components-AllNormal cs true (ground arith)
safe_components-AllNormal (root_dir ∷ cs) b e = cc
safe_components-AllNormal (cur_dir ∷ cs) b e = cc
safe_components-AllNormal (parent_dir ∷ cs) b e = cc

leading_of_safe :
    (ss : List String) → safe_components (leading ss) false ≡ true → leading ss ≡ body ss
unfolding safe_components body
leading_of_safe [] e = refl
leading_of_safe (s ∷ []) e = ground arith
leading_of_safe (s ∷ t ∷ ss) e = ground arith

-- Two segments or more, or one that is not empty.
abbrev Starts : List String → Type 0
Starts [] = ⊥
Starts (s ∷ []) = str_eq s "" ≡ false
Starts (s ∷ t ∷ ss) = Unit {0}

leading-append :
    (xs ys : List String) → Starts xs → leading (List.◌++◌ xs ys) ≡ List.◌++◌ (leading xs) (body ys)
unfolding body
leading-append [] ys h = absurd h
leading-append (s ∷ []) [] h = ground arith
leading-append (s ∷ []) (y ∷ ys) h = ground arith
leading-append (s ∷ t ∷ xs) ys h = ground (arith, body-append xs ys)

Starts-cons : (c : Char) (first : String) (rest : List String) → Starts (String.◌∷◌ c first ∷ rest)
Starts-cons c first [] = str_eq_ne (String.◌∷◌ c first) "" (λ e. cons≢nil e)
Starts-cons c first (s ∷ ss) = tt

Starts-split_at : (p : String) → p ≢ "" → Starts (split_at is_sep p)
unfolding split_at
Starts-split_at String.[] ne = absurd (ne refl)
Starts-split_at (String.◌∷◌ c s) ne =
    let (first, rest, same) = split_at-cons is_sep s in
    elim (Bool-cases (is_sep c)) [
      | inl e ↦ rw (e, same) tt
      | inr e ↦ rw (e, same) (Starts-cons c first rest)
    ]

-- A safe relative path has the components of its segments, and is not absolute.
components_of_safe :
    (r : String) → is_safe_relative_path r ≡ true → components r ≡ body (split_at is_sep r)
unfolding components is_safe_relative_path
components_of_safe r e = leading_of_safe (split_at is_sep r) e

relative_of_safe : (r : String) → is_safe_relative_path r ≡ true → starts_with_sep r ≡ false
unfolding is_safe_relative_path components split_at safe_components
relative_of_safe String.[] e = refl
relative_of_safe (String.◌∷◌ c s) e =
    let (first, rest, same) = split_at-cons is_sep s in
    elim (Bool-cases (is_sep c)) [
      | inl sep ↦
          let impossible : safe_components (root_dir ∷ body (first ∷ rest)) false ≡ true =
            rw (sep, same) at e in
          cc
      | inr other ↦ other
    ]

components-sep :
    (p r : String)
    → p ≢ ""
    → components (p ++ ("/" ++ r)) ≡ List.◌++◌ (components p) (body (split_at is_sep r))
unfolding components
components-sep p r ne =
    ap leading (split_at-sep p r)
    ∙ leading-append (split_at is_sep p) (split_at is_sep r) (Starts-split_at p ne)

leading-append_end :
    (first : String) (rest : List String) (y : String) (ys : List String)
    → leading (List.◌++◌ (first ∷ rest) (y ∷ ys))
      ≡ List.◌++◌ (leading (List.◌++◌ (first ∷ rest) ("" ∷ []))) (body (y ∷ ys))
unfolding body
leading-append_end first [] y ys = ground arith
leading-append_end first (t ∷ rest) y ys =
    ground
      (arith, body-append rest (y ∷ ys), body-append rest ("" ∷ []), List.append-nil (body rest))

split_at-sep_end :
    (q : String) → split_at is_sep (q ++ "/") ≡ List.◌++◌ (split_at is_sep q) ("" ∷ [])
unfolding split_at
split_at-sep_end q = ap (λ t. split_at is_sep (q ++ t)) (sym (append-nil "/")) ∙ split_at-sep q ""

-- The path of a directory that ends with the separator.
components-sep_end :
    (q r : String)
    → components ((q ++ "/") ++ r) ≡ List.◌++◌ (components (q ++ "/")) (body (split_at is_sep r))
unfolding components
components-sep_end q r =
    let (first, rest, same) = split_at-cons is_sep q in
    let (y, ys, same_r) = split_at-cons is_sep r in
    let whole : split_at is_sep ((q ++ "/") ++ r)
        ≡ List.◌++◌ (split_at is_sep q) (split_at is_sep r) =
      ap (split_at is_sep) (append_assoc q "/" r) ∙ split_at-sep q r in
    rw (whole, split_at-sep_end q, same, same_r) (leading-append_end first rest y ys)

components-AllNormal : (r : String) → is_safe_relative_path r ≡ true → AllNormal (components r)
unfolding is_safe_relative_path
components-AllNormal r safe = safe_components-AllNormal (components r) false safe

components_nil : components "" ≡ []
unfolding components split_at
components_nil = refl

components_joined :
    (p r : String)
    → starts_with_sep r ≡ false
    → components r ≡ body (split_at is_sep r)
    → components (join p r) ≡ List.◌++◌ (components p) (components r)
unfolding join
components_joined p r relative same = rw relative (elim (str_eq-cases p "") [
  | inl (empty, e) ↦ rw (e, empty, components_nil) refl
  | inr (ne, e) ↦ elim (Bool-cases (ends_with_sep p)) [
    | inr open_end ↦ rw (e, open_end, same) (components-sep p r ne)
    | inl closed ↦
        let (q, whole) = ends_with_sep_lem p closed in
        rw (e, closed, same, whole) (components-sep_end q r)
  ]
])

-- A safe relative path that is joined to a directory leads to a place below it: the components are
-- the directory's, followed by those of the path, which are names.
pub components-join :
    (p r : String)
    → is_safe_relative_path r ≡ true
    → (components (join p r) ≡ List.◌++◌ (components p) (components r)) × AllNormal (components r)
unfolding join
components-join p r safe =
    let same = components_of_safe r safe in
    let relative = relative_of_safe r safe in
    (components_joined p r relative same, components-AllNormal r safe)
