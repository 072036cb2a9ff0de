-- ===== src/Prelude/Maps.antt =====
-- `std::collections::HashMap<String, V>` as an association list. No part of the program depends on
-- the order of iteration, and the theorems speak of `get` only.
use Prim.Native.String.{String}
use mathlib.Core.Path.{◌≡◌, sym, ap, ◌∙◌}
use mathlib.Core.Logic.{◌≢◌, ◌⊎◌, inl, inr}
use mathlib.Core.Bool.{Bool, true, false}
use mathlib.Core.Option.{Option, none, some}
use mathlib.Core.List.{List, [], ◌∷◌}
use native.Mathlib.Omega.{arith}
use text.Mathlib.TextEquality.{eq_iff}
use ssam.Prelude.Tests.{if◌then◌else◌, str_eq, str_eq-cases, str_eq_refl, str_eq_ne}

abbrev pub HashMap {ℓ} : Type ℓ → Type ℓ
HashMap V = List (String × V)

module _ {ℓ} {V : Type ℓ} where
  unfoldable pub get : HashMap V → String → Option V
  get [] k = none
  get ((j, v) ∷ m) k = if str_eq j k then some v else get m k

  unfoldable pub remove : HashMap V → String → HashMap V
  remove [] k = []
  remove ((j, v) ∷ m) k = let rest = remove m k in if str_eq j k then rest else (j, v) ∷ rest

  unfoldable pub insert : HashMap V → String → V → HashMap V
  unfolding remove
  insert m k v = (k, v) ∷ remove m k

  abbrev pub is_empty : HashMap V → Bool
  is_empty [] = true
  is_empty (_ ∷ _) = false

  -- No key has two entries.
  abbrev pub Distinct : HashMap V → Type ℓ
  Distinct [] = Unit
  Distinct ((k, v) ∷ m) = (get m k ≡ none) × Distinct m

  pub get-remove :
      (m : HashMap V) (k j : String) → get (remove m k) j ≡ (if str_eq k j then none else get m j)
  unfolding get remove
  get-remove [] k j = ground arith
  get-remove ((i, v) ∷ m) k j = ground (arith, eq_iff k j, eq_iff i k, eq_iff i j, get-remove m k j)

  pub get-insert :
      (m : HashMap V) (k j : String) (v : V)
      → get (insert m k v) j ≡ (if str_eq k j then some v else get m j)
  unfolding get insert
  get-insert m k j v = ground (arith, get-remove m k j)

  pub get-remove_self : (m : HashMap V) (k : String) → get (remove m k) k ≡ none
  get-remove_self m k = get-remove m k k ∙ ground (arith, str_eq_refl k)

  pub get-insert_self : (m : HashMap V) (k : String) (v : V) → get (insert m k v) k ≡ some v
  get-insert_self m k v = get-insert m k k v ∙ ground (arith, str_eq_refl k)

  pub get-remove_ne : (m : HashMap V) (k j : String) → k ≢ j → get (remove m k) j ≡ get m j
  get-remove_ne m k j h = get-remove m k j ∙ ground (arith, str_eq_ne k j h)

  pub get-insert_ne :
      (m : HashMap V) (k j : String) (v : V) → k ≢ j → get (insert m k v) j ≡ get m j
  get-insert_ne m k j v h = get-insert m k j v ∙ ground (arith, str_eq_ne k j h)

  pub Distinct-remove : (m : HashMap V) (k : String) → Distinct m → Distinct (remove m k)
  unfolding remove
  Distinct-remove [] k d = tt
  Distinct-remove ((j, v) ∷ m) k (fresh, d) = elim (str_eq-cases j k) [
    | inl (_, e) ↦ rw e (Distinct-remove m k d)
    | inr (n, e) ↦ rw e (get-remove_ne m k j (λ p. n (sym p)) ∙ fresh, Distinct-remove m k d)
  ]

  pub Distinct-insert : (m : HashMap V) (k : String) (v : V) → Distinct m → Distinct (insert m k v)
  unfolding insert
  Distinct-insert m k v d = (get-remove_self m k, Distinct-remove m k d)

  pub get_head : (m : HashMap V) (k : String) (v : V) → get ((k, v) ∷ m) k ≡ some v
  unfolding get
  get_head m k v = ground (arith, str_eq_refl k)

  -- An entry for a fresh key hides no other.
  pub get_cons :
      (m : HashMap V) (k j : String) (v : V) {w : V}
      → get m k ≡ none
      → get m j ≡ some w
      → get ((k, v) ∷ m) j ≡ some w
  unfolding get
  get_cons m k j v {w} fresh e = elim (str_eq-cases k j) [
    | inl (p, t) ↦ absurd (cc)
    | inr (p, t) ↦ ground arith
  ]

  -- What a lookup after an insertion or a removal found.
  pub get-insert_inv :
      (m : HashMap V) (k j : String) (v : V) {w : V}
      → get (insert m k v) j ≡ some w
      → ((k ≡ j) × (v ≡ w)) ⊎ ((k ≢ j) × (get m j ≡ some w))
  get-insert_inv m k j v e = elim (str_eq-cases k j) [
    | inl (p, t) ↦ inl (p, ground (arith, get-insert m k j v))
    | inr (p, t) ↦ inr (p, sym (get-insert_ne m k j v p) ∙ e)
  ]

  pub get-remove_inv :
      (m : HashMap V) (k j : String) {w : V}
      → get (remove m k) j ≡ some w
      → (k ≢ j) × (get m j ≡ some w)
  get-remove_inv m k j e = elim (str_eq-cases k j) [
    | inl (p, t) ↦ absurd (cc (get-remove_self m k, ap (get (remove m k)) p))
    | inr (p, t) ↦ (p, sym (get-remove_ne m k j p) ∙ e)
  ]

  -- Putting back what is there changes no lookup.
  pub get-insert_held :
      (m : HashMap V) (k j : String) (v : V) → get m k ≡ some v → get (insert m k v) j ≡ get m j
  get-insert_held m k j v held = elim (str_eq-cases k j) [
    | inl (p, t) ↦ get-insert m k j v ∙ ground (arith, ap (get m) p)
    | inr (p, t) ↦ get-insert_ne m k j v p
  ]
