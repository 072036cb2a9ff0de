-- ===== src/Volume/Projects.antt =====
-- `QuotaProjectIdManager`: which project id a data directory has. Id 0 is the root project's.
pub mod Separated
use ssam.Prelude.{
  ℕ, ◌+◌, Bool, true, false, Option, none, some, List, [], ◌∷◌, String, HashMap, get, insert,
  remove, ltb, if◌then◌else◌,
}

-- What `next_entry` gives: a directory with the id that the filesystem has for it, another file, or
-- an error.
pub data Entry : Type 0 where
  directory : String → Option ℕ → Entry
  other_file : Entry
  unreadable : Entry

abbrev pub size : HashMap ℕ → ℕ
size [] = 0
size (_ ∷ m) = size m + 1

-- With a quota the id is the filesystem's; without one the directories are counted.
abbrev pub project_id : Bool → Option ℕ → HashMap ℕ → Option ℕ
project_id true found m = found
project_id false found m = some (size m + 1)

abbrev pub add_directory : HashMap ℕ → String → Option ℕ → HashMap ℕ
add_directory m path none = m
add_directory m path (some id) = insert m path id

-- The loop of `initialize_directory_map`; an error loses what was read before.
unfoldable pub scan : Bool → List Entry → HashMap ℕ → Option (HashMap ℕ)
scan has_quota [] m = some m
scan has_quota (unreadable ∷ es) m = none
scan has_quota (other_file ∷ es) m = scan has_quota es m
scan has_quota (directory path found ∷ es) m =
    scan has_quota es (add_directory m path (project_id has_quota found m))

abbrev or_default : Option (HashMap ℕ) → HashMap ℕ
or_default none = []
or_default (some m) = m

-- `none` stands for a root that cannot be read.
unfoldable pub new : Bool → Option (List Entry) → HashMap ℕ
unfolding scan
new has_quota none = []
new has_quota (some es) = or_default (scan has_quota es [])

-- `values().max()`, 0 where there is none
unfoldable pub max_id : HashMap ℕ → ℕ
max_id [] = 0
max_id ((_, id) ∷ m) = let rest = max_id m in if ltb rest id then id else rest

abbrev pub next_id : HashMap ℕ → ℕ
next_id m = max_id m + 1

id_or_next : Option ℕ → HashMap ℕ → String → ℕ × HashMap ℕ
id_or_next (some id) m path = (id, m)
id_or_next none m path = (next_id m, insert m path (next_id m))

unfoldable pub get_project_id : HashMap ℕ → String → ℕ × HashMap ℕ
unfolding id_or_next
get_project_id m path = id_or_next (get m path) m path

abbrev pub remove_id : HashMap ℕ → String → HashMap ℕ
remove_id m path = remove m path
