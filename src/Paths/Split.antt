-- ===== src/Paths/Split.antt =====
-- Splitting a text that is put together at a separator.
use Prim.Native.Char.{Char}
use Prim.Native.String.{◌++◌}
use text.Mathlib.TextEquality.{Char-path}
use text.Mathlib.TextLemmas.{nil-append, cons-append}
use mathlib.Core.List
use ssam.Prelude.{
  ◌≡◌, refl, sym, ap, ◌∙◌, Bool, true, List, [], ◌∷◌, String, arith, inl, inr, Bool-cases, ==→eq,
}
use ssam.Paths.{split_at, is_sep, body, ends_with_sep}

pub split_at-cons :
    (f : Char → Bool) (s : String)
    → (first : String) × (rest : List String) × (split_at f s ≡ first ∷ rest)
unfolding split_at
split_at-cons f String.[] = ("", [], refl)
split_at-cons f (String.◌∷◌ c s) = elim (Bool-cases (f c)) [
  | inl e ↦ ("", split_at f s, rw e refl)
  | inr e ↦
      let (first, rest, same) = split_at-cons f s in (String.◌∷◌ c first, rest, rw (e, same) refl)
]

abbrev slash : Char
slash = "/"

sep-append : (r : String) → "/" ++ r ≡ String.◌∷◌ slash r
sep-append r = cons-append slash "" r ∙ ap (String.◌∷◌ slash) (nil-append r)

pub split_at-sep :
    (s r : String)
    → split_at is_sep (s ++ ("/" ++ r)) ≡ List.◌++◌ (split_at is_sep s) (split_at is_sep r)
unfolding split_at
split_at-sep String.[] r = rw (nil-append, sep-append) refl
split_at-sep (String.◌∷◌ c s) r = elim (Bool-cases (is_sep c)) [
  | inl e ↦ rw (cons-append, e) (ap (λ l. "" ∷ l) (split_at-sep s r))
  | inr e ↦
      let (first, rest, same) = split_at-cons is_sep s in
      rw (cons-append, e, split_at-sep s r, same) refl
]

pub ends_with_sep_lem : (p : String) → ends_with_sep p ≡ true → (q : String) × (p ≡ q ++ "/")
ends_with_sep_lem String.[] e = cc
ends_with_sep_lem (String.◌∷◌ c String.[]) e =
    ("", ap (λ d. String.◌∷◌ d "") (Char-path c slash (==→eq _ _ e)))
ends_with_sep_lem (String.◌∷◌ c (String.◌∷◌ d s)) e =
    let (q, same) = ends_with_sep_lem (String.◌∷◌ d s) e in
    (String.◌∷◌ c q, ap (String.◌∷◌ c) same ∙ sym (cons-append c q "/"))

pub body-append : (xs ys : List String) → body (List.◌++◌ xs ys) ≡ List.◌++◌ (body xs) (body ys)
unfolding body
body-append [] ys = refl
body-append (s ∷ xs) ys = ground (arith, body-append xs ys)
