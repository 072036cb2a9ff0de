-- ===== src/Packages/Transaction/Disks.antt =====
-- Moving a file away and back.
use Prim.Native.String.{◌++◌}
use text.Mathlib.TextLemmas.{append-nil, append_cancel_left, cons≢nil}
use ssam.Prelude.{
  ◌≡◌, ◌≢◌, refl, sym, subst, ◌∙◌, Bool, true, false, inl, inr, Option, none, some, String, HashMap,
  get, insert, remove, get-insert_self, get-insert_ne, get-remove_self, get-remove_ne, ok, arith,
  Bool-cases, Option-cases, str_eq-cases,
}
use ssam.Packages.Transaction.{
  rename, remove_file, remove_file_if_exists, copy, backup_path_of, has_extension, old_dir_of,
}

append-ne : (p s : String) → s ≢ "" → p ≢ p ++ s
append-ne p s ne e = ne (append_cancel_left p s "" (sym e ∙ sym (append-nil p)))

pub backup_path_of-ne : (p : String) → p ≢ backup_path_of p
unfolding backup_path_of
backup_path_of-ne p = elim (Bool-cases (has_extension p)) [
  | inl e ↦ rw e (append-ne p ".old" (λ h. cons≢nil h))
  | inr e ↦ rw e (append-ne p "..old" (λ h. cons≢nil h))
]

pub old_dir_of-ne : (p : String) → p ≢ old_dir_of p
old_dir_of-ne p = append-ne p ".old" (λ h. cons≢nil h)

module _ {C : Type 0} where
  -- `files` is `before` with the file at `a` moved to `b`, and perhaps another one put at `a`.
  pub record IsAside (before files : HashMap C) (a b : String) : Type 0 where
    pub held : C
    pub was : get before a ≡ some held
    pub aside : get files b ≡ some held
    pub others : (p : String) → p ≢ a → p ≢ b → get files p ≡ get before p

  pub rename-IsAside :
      (fault : Bool) (a b : String) (m : HashMap C)
      → a ≢ b
      → (rename fault a b m).0 ≡ ok tt
      → IsAside m (rename fault a b m).1 a b
  unfolding rename
  rename-IsAside true a b m ne e = cc
  rename-IsAside false a b m ne e = elim (Option-cases (get m a)) [
    | inl absent ↦ absurd (ground arith)
    | inr (c, found) ↦ rw found (record {
      held = c;
      was = found;
      aside = get-insert_self (remove m a) b c;
      others = λ p pa pb.
          get-insert_ne (remove m a) b p c (λ h. pb (sym h))
          ∙ get-remove_ne m a p (λ h. pa (sym h));
    })
  ]

  pub copy-IsAside :
      (fault : Bool) (source : Option C) (before m : HashMap C) (a b : String)
      → a ≢ b
      → IsAside before m a b
      → IsAside before (copy fault source a m).1 a b
  unfolding copy
  copy-IsAside true source before m a b ne s = s
  copy-IsAside false none before m a b ne s = s
  copy-IsAside false (some c) before m a b ne s = record {
    held = s.held;
    was = s.was;
    aside = get-insert_ne m a b c ne ∙ s.aside;
    others = λ p pa pb. get-insert_ne m a p c (λ h. pa (sym h)) ∙ s.others p pa pb;
  }

  -- Moving the file back restores every lookup, if nothing stood at `b` before.
  pub IsAside-back :
      (before m : HashMap C) (a b : String)
      → a ≢ b
      → get before b ≡ none
      → IsAside before m a b
      → (p : String) → get (rename false b a m).1 p ≡ get before p
  unfolding rename
  IsAside-back before m a b ne free s p = rw s.aside (elim (str_eq-cases a p) [
    | inl (same, _) ↦
        subst (λ q. get (insert (remove m b) a s.held) q ≡ get before q) same
          (get-insert_self (remove m b) a s.held ∙ sym s.was)
    | inr (pa, _) ↦ get-insert_ne (remove m b) a p s.held pa ∙ elim (str_eq-cases b p) [
      | inl (same, _) ↦
          subst (λ q. get (remove m b) q ≡ get before q) same (get-remove_self m b ∙ sym free)
      | inr (pb, _) ↦ get-remove_ne m b p pb ∙ s.others p (λ h. pa (sym h)) (λ h. pb (sym h))
    ]
  ])

  -- A file that was put where there was none is taken away again.
  pub copy-undone :
      (fault : Bool) (source : Option C) (m : HashMap C) (dest p : String)
      → get m dest ≡ none
      → get (remove_file_if_exists false dest (copy fault source dest m).1).1 p ≡ get m p
  unfolding copy remove_file_if_exists remove_file
  copy-undone true source m dest p free = rw free refl
  copy-undone false none m dest p free = rw free refl
  copy-undone false (some c) m dest p free = rw get-insert_self (elim (str_eq-cases dest p) [
    | inl (same, _) ↦
        subst (λ q. get (remove (insert m dest c) dest) q ≡ get m q) same
          (get-remove_self (insert m dest c) dest ∙ sym free)
    | inr (apart, _) ↦ get-remove_ne (insert m dest c) dest p apart ∙ get-insert_ne m dest p c apart
  ])
