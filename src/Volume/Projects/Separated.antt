-- ===== src/Volume/Projects/Separated.antt =====
-- No two data directories share a project, and none is the root project.
use ssam.Prelude.{
  ℕ, ◌+◌, ◌≤◌, ◌<◌, ◌≡◌, ◌≢◌, refl, sym, ap, ◌∙◌, Bool, true, false, inl, inr, Option, none, some,
  List, [], ◌∷◌, String, HashMap, get, insert, remove, get-insert_inv, get-remove_inv,
  get-insert_self, get-insert_ne, str_eq_refl, ◌||◌, arith, Option-cases, str_eq, str_eq-cases,
}
use ssam.Volume.Projects.{
  Entry, directory, other_file, unreadable, size, scan, new, max_id, next_id, get_project_id,
  remove_id,
}

-- The ids of two directories differ, and none is 0.
pub record IsSeparated (m : HashMap ℕ) : Type 0 where
  pub apart : (i j : String) (x : ℕ) → get m i ≡ some x → get m j ≡ some x → i ≡ j
  pub pos : (i : String) (x : ℕ) → get m i ≡ some x → 0 < x

pub max_id-ge : (m : HashMap ℕ) (i : String) (x : ℕ) → get m i ≡ some x → x ≤ max_id m
unfolding max_id get
max_id-ge [] i x e = cc
max_id-ge ((j, y) ∷ m) i x e = ground (arith, max_id-ge m i x)

insert-IsSeparated :
    (m : HashMap ℕ) (k : String) (x : ℕ)
    → IsSeparated m
    → 0 < x
    → ((i : String) → get m i ≢ some x)
    → IsSeparated (insert m k x)
insert-IsSeparated m k x v p fresh = record {
  apart = λ i j y ei ej. elim (get-insert_inv m k i x ei) [
    | inl (ki, xy) ↦ elim (get-insert_inv m k j x ej) [
      | inl (kj, _) ↦ sym ki ∙ kj
      | inr (_, old) ↦ absurd (fresh j (old ∙ ap some (sym xy)))
    ]
    | inr (_, old_i) ↦ elim (get-insert_inv m k j x ej) [
      | inl (_, xy) ↦ absurd (fresh i (old_i ∙ ap some (sym xy)))
      | inr (_, old_j) ↦ v.apart i j y old_i old_j
    ]
  ];
  pos = λ i y e. elim (get-insert_inv m k i x e) [
    | inl (_, xy) ↦ omega (arith, xy)
    | inr (_, old) ↦ v.pos i y old
  ];
}

-- The id of a directory is stable, and a new one is used by no other directory.
pub get_project_id-IsSeparated :
    (m : HashMap ℕ) (path : String)
    → IsSeparated m
    → IsSeparated (get_project_id m path).1
      × (get (get_project_id m path).1 path ≡ some (get_project_id m path).0)
unfolding get_project_id
get_project_id-IsSeparated m path v = elim (Option-cases (get m path)) [
  | inr (id, held) ↦ rw held (v, held)
  | inl new_path ↦ rw new_path (
    insert-IsSeparated m path (next_id m) v (omega arith)
        (λ i e. let le : next_id m ≤ max_id m = max_id-ge m i (next_id m) e in omega (arith, le)),
    get-insert_self m path (next_id m),
  )
]

pub remove_id-IsSeparated :
    (m : HashMap ℕ) (path : String) → IsSeparated m → IsSeparated (remove_id m path)
remove_id-IsSeparated m path v = record {
  apart =
      λ i j x ei ej. v.apart i j x (get-remove_inv m path i ei).1 (get-remove_inv m path j ej).1;
  pos = λ i x e. v.pos i x (get-remove_inv m path i e).1;
}

-- A directory lists a name once.
abbrev mentions : String → List Entry → Bool
mentions path [] = false
mentions path (directory p found ∷ es) = str_eq p path || mentions path es
mentions path (other_file ∷ es) = mentions path es
mentions path (unreadable ∷ es) = mentions path es

abbrev pub ListsOnce : List Entry → Type 0
ListsOnce [] = Unit {0}
ListsOnce (directory p found ∷ es) = (mentions p es ≡ false) × ListsOnce es
ListsOnce (other_file ∷ es) = ListsOnce es
ListsOnce (unreadable ∷ es) = ListsOnce es

-- What a scan without a quota keeps: the ids are those up to the number of directories.
record Counted (m : HashMap ℕ) (es : List Entry) : Type 0 where
  separated : IsSeparated m
  bounded : (i : String) (x : ℕ) → get m i ≡ some x → x ≤ size m
  fresh : (path : String) → mentions path es ≡ true → get m path ≡ none

remove_absent : (m : HashMap ℕ) (k : String) → get m k ≡ none → remove m k ≡ m
unfolding remove get
remove_absent [] k e = refl
remove_absent ((j, x) ∷ m) k e = ground (arith, remove_absent m k)

size-insert :
    (m : HashMap ℕ) (k : String) (x : ℕ) → get m k ≡ none → size (insert m k x) ≡ size m + 1
unfolding insert
size-insert m k x e = rw (remove_absent m k e) refl

directory-Counted :
    (m : HashMap ℕ) (path : String) (found : Option ℕ) (es : List Entry)
    → ListsOnce (directory path found ∷ es)
    → Counted m (directory path found ∷ es)
    → Counted (insert m path (size m + 1)) es
directory-Counted m path found es once c =
    let absent = c.fresh path (ground (arith, str_eq_refl path)) in
    record {
      separated =
          insert-IsSeparated m path (size m + 1) c.separated (omega arith)
            (λ i e. let le : size m + 1 ≤ size m = c.bounded i (size m + 1) e in omega (arith, le));
      bounded = λ i x e. elim (get-insert_inv m path i (size m + 1) e) [
        | inl (_, same) ↦ omega (arith, size-insert m path (size m + 1) absent, same)
        | inr (_, old) ↦ omega (arith, size-insert m path (size m + 1) absent, c.bounded i x old)
      ];
      fresh = λ p named. elim (str_eq-cases path p) [
        | inl (same, _) ↦ absurd (cc (once.0, named, ap (λ q. mentions q es) same))
        | inr (other, _) ↦ get-insert_ne m path p (size m + 1) other ∙ c.fresh p (ground arith)
      ];
    }

scan-Counted :
    (es : List Entry) (m : HashMap ℕ) {m' : HashMap ℕ}
    → ListsOnce es
    → Counted m es
    → scan false es m ≡ some m'
    → IsSeparated m'
unfolding scan
scan-Counted [] m {m'} once c e = let same : m ≡ m' = ground arith in rw (← same) c.separated
scan-Counted (unreadable ∷ es) m once c e = cc
scan-Counted (other_file ∷ es) m once c e =
    scan-Counted es m once
      (record { separated = c.separated; bounded = c.bounded; fresh = c.fresh }) e
scan-Counted (directory path found ∷ es) m once c e =
    scan-Counted es (insert m path (size m + 1)) once.1 (directory-Counted m path found es once c) e

nil-IsSeparated : IsSeparated []
unfolding get
nil-IsSeparated = record { apart = λ i j x ei ej. cc; pos = λ i x e. cc }

new-IsSeparated : (es : List Entry) → ListsOnce es → IsSeparated (new false (some es))
unfolding new get
new-IsSeparated es once = elim (Option-cases (scan false es [])) [
  | inl failed ↦ rw failed nil-IsSeparated
  | inr (m, e) ↦ rw e (
      scan-Counted es [] once
        (record { separated = nil-IsSeparated; bounded = λ i x h. cc; fresh = λ p h. refl }) e)
]

-- The calls of the data directory manager.
pub data Call : Type 0 where
  get_id : String → Call
  remove_call : String → Call

unfoldable pub run : List Call → HashMap ℕ → HashMap ℕ
run [] m = m
run (get_id path ∷ cs) m = run cs (get_project_id m path).1
run (remove_call path ∷ cs) m = run cs (remove_id m path)

pub run-IsSeparated : (cs : List Call) (m : HashMap ℕ) → IsSeparated m → IsSeparated (run cs m)
unfolding run
run-IsSeparated [] m v = v
run-IsSeparated (get_id path ∷ cs) m v =
    run-IsSeparated cs (get_project_id m path).1 (get_project_id-IsSeparated m path v).0
run-IsSeparated (remove_call path ∷ cs) m v =
    run-IsSeparated cs (remove_id m path) (remove_id-IsSeparated m path v)

-- On a system without quota, after any requests and removals, no two data directories have one
-- project id and none has the root project's, if the data root listed each directory once.
pub run-new-IsSeparated :
    (es : List Entry) (cs : List Call) → ListsOnce es → IsSeparated (run cs (new false (some es)))
run-new-IsSeparated es cs once = run-IsSeparated cs (new false (some es)) (new-IsSeparated es once)
