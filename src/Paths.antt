-- ===== src/Paths.antt =====
-- What the program uses of `std::path::Path` on Linux, where a path is a text with `/` between its
-- segments, and the two tests of paths in ssamd/src/utils.rs.
pub mod Split
pub mod Inside
pub mod Segments
use Prim.Native.Char.{Char, code}
use Prim.Native.String
use Prim.Native.String.{◌++◌}
use ssam.Prelude.{
  ℕ, Bool, true, false, not, ◌&&◌, ◌||◌, Option, none, some, List, [], ◌∷◌, String, ◌==◌,
  if◌then◌else◌, str_eq,
}

abbrev pub is_sep : Char → Bool
is_sep c = code c == 0x2f

abbrev pub push_front : Char → List String → List String
push_front c [] = (String.◌∷◌ c String.[]) ∷ []
push_front c (s ∷ ss) = (String.◌∷◌ c s) ∷ ss

-- `str::split` at the characters that a test picks: one segment more than there are such characters.
unfoldable pub split_at : (Char → Bool) → String → List String
split_at f String.[] = String.[] ∷ []
split_at f (String.◌∷◌ c s) =
    let rest = split_at f s in if f c then String.[] ∷ rest else push_front c rest

pub data Component : Type 0 where
  root_dir cur_dir parent_dir : Component
  normal : String → Component

abbrev pub add_component : String → List Component → List Component
add_component s cs =
    if str_eq s ""
    then cs
    else if str_eq s "."
    then cs
    else if str_eq s ".."
    then parent_dir ∷ cs
    else normal s ∷ cs

-- The segments after the first: empty ones and `.` are dropped.
unfoldable pub body : List String → List Component
body [] = []
body (s ∷ ss) = add_component s (body ss)

abbrev pub leading : List String → List Component
leading [] = []
leading (first ∷ []) = if str_eq first "." then cur_dir ∷ [] else body (first ∷ [])
leading (first ∷ second ∷ rest) =
    if str_eq first ""
    then root_dir ∷ body (second ∷ rest)
    else if str_eq first "."
    then cur_dir ∷ body (second ∷ rest)
    else body (first ∷ second ∷ rest)

-- `Path::components`
unfoldable pub components : String → List Component
unfolding body
components s = leading (split_at is_sep s)

abbrev pub ends_with_sep : String → Bool
ends_with_sep String.[] = false
ends_with_sep (String.◌∷◌ c String.[]) = is_sep c
ends_with_sep (String.◌∷◌ c (String.◌∷◌ d s)) = ends_with_sep (String.◌∷◌ d s)

abbrev pub starts_with_sep : String → Bool
starts_with_sep String.[] = false
starts_with_sep (String.◌∷◌ c s) = is_sep c

-- `Path::join`: an absolute path replaces the one before.
unfoldable pub join : String → String → String
join p r =
    if starts_with_sep r
    then r
    else if str_eq p ""
    then r
    else if ends_with_sep p
    then p ++ r
    else p ++ ("/" ++ r)

abbrev pub contains_char : (Char → Bool) → String → Bool
contains_char f String.[] = false
contains_char f (String.◌∷◌ c s) = f c || contains_char f s

-- The loop of `is_safe_relative_path`.
safe_components : List Component → Bool → Bool
safe_components [] has_component = has_component
safe_components (normal s ∷ cs) has_component =
    not (contains_char (λ c. code c == 0) s) && safe_components cs true
safe_components (_ ∷ cs) has_component = false

unfoldable pub is_safe_relative_path : String → Bool
unfolding safe_components
is_safe_relative_path p = safe_components (components p) false

abbrev pub is_forbidden : Char → Bool
is_forbidden c = code c == 0x2f || code c == 0 || code c == 0x2c || code c == 0x5c

abbrev pub is_single : List Component → Bool
is_single (normal s ∷ []) = true
is_single _ = false

unfoldable pub is_safe_path_segment : String → Bool
is_safe_path_segment name =
    if str_eq name "" || contains_char is_forbidden name then false else is_single (components name)
