-- ===== src/Paths/Segments.antt =====
-- A name that `is_safe_path_segment` accepts is one component, itself.
use Prim.Native.Char.{code}
use mathlib.Core.List
use ssam.Prelude.{◌≡◌, refl, sym, ap, ◌∙◌, true, false, List, [], ◌∷◌, String, arith, ◌==◌}
use ssam.Paths.{
  Component, normal, split_at, is_sep, body, components, join, contains_char, is_forbidden,
  safe_components, is_safe_relative_path, is_safe_path_segment,
}
use ssam.Paths.Inside.{components-join}

split_at_without :
    (name : String) → contains_char is_forbidden name ≡ false → split_at is_sep name ≡ name ∷ []
unfolding split_at
split_at_without String.[] e = refl
split_at_without (String.◌∷◌ c s) e = ground (arith, split_at_without s)

no_nul :
    (name : String)
    → contains_char is_forbidden name ≡ false
    → contains_char (λ c. code c == 0) name ≡ false
no_nul String.[] e = refl
no_nul (String.◌∷◌ c s) e = ground (arith, no_nul s)

pub components_segment :
    (name : String) → is_safe_path_segment name ≡ true → components name ≡ normal name ∷ []
unfolding is_safe_path_segment components body
components_segment name e = ground (arith, split_at_without name)

pub segment-safe :
    (name : String) → is_safe_path_segment name ≡ true → is_safe_relative_path name ≡ true
unfolding is_safe_relative_path safe_components is_safe_path_segment
segment-safe name e = ground (arith, components_segment name, no_nul name)

abbrev last_name : List Component → String
last_name [] = ""
last_name (normal s ∷ []) = s
last_name (c ∷ []) = ""
last_name (c ∷ d ∷ cs) = last_name (d ∷ cs)

last_name-append : (cs : List Component) (s : String) → last_name (List.◌++◌ cs (normal s ∷ [])) ≡ s
last_name-append [] s = refl
last_name-append (c ∷ []) s = ground arith
last_name-append (c ∷ d ∷ cs) s = ground (arith, last_name-append (d ∷ cs) s)

-- Different names lead to different paths in a directory.
pub join_inj :
    (root a b : String)
    → is_safe_path_segment a ≡ true
    → is_safe_path_segment b ≡ true
    → join root a ≡ join root b
    → a ≡ b
join_inj root a b sa sb e =
    let ea =
      (components-join root a (segment-safe a sa)).0
      ∙ ap (List.◌++◌ (components root)) (components_segment a sa) in
    let eb =
      (components-join root b (segment-safe b sb)).0
      ∙ ap (List.◌++◌ (components root)) (components_segment b sb) in
    sym (last_name-append (components root) a)
    ∙ ap last_name (sym ea ∙ ap components e ∙ eb)
    ∙ last_name-append (components root) b
