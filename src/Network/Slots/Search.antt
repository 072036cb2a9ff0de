-- ===== src/Network/Slots/Search.antt =====
-- The search for a free key: what it finds, and that it misses nothing.
use ssam.Prelude.{
  ℕ, zero, suc, ◌+◌, ◌*◌, ◌≤◌, ◌<◌, ◌≡◌, Bool, true, false, inl, inr, none, some, HashMap, arith,
  ltb, ltb→lt, Bool-cases,
}
use ssam.Network.Slots.{u32_mod, holds, find_free}

grid-zero : (slot step : ℕ) → slot + 0 * step ≡ slot
grid-zero slot step = omega arith

grid-suc : (slot step j : ℕ) → slot + suc j * step ≡ slot + step + j * step
grid-suc slot step j = omega arith

-- `c` is the first free key of the progression from `slot`, and lies in the range.
pub record IsFirstFree (m : HashMap ℕ) (step : ℕ) (in_range : ℕ → Bool) (slot c : ℕ) : Type 0 where
  pub index : ℕ
  pub on_grid : c ≡ slot + index * step
  pub ranged : in_range c ≡ true
  pub free : holds m c ≡ false
  pub small : slot < u32_mod → c < u32_mod
  pub taken_below : (j : ℕ) → j < index → holds m (slot + j * step) ≡ true

IsFirstFree-here :
    (m : HashMap ℕ) (step : ℕ) (in_range : ℕ → Bool) (slot c : ℕ)
    → slot ≡ c
    → in_range slot ≡ true
    → holds m slot ≡ false
    → IsFirstFree m step in_range slot c
IsFirstFree-here m step in_range slot c e r h = record {
  index = 0;
  on_grid = omega arith;
  ranged = cc;
  free = cc;
  small = λ l. omega arith;
  taken_below = λ j l. elim l [ ];
}

IsFirstFree-next :
    {m : HashMap ℕ} {step : ℕ} {in_range : ℕ → Bool} {slot c : ℕ}
    → slot + step < u32_mod
    → holds m slot ≡ true
    → IsFirstFree m step in_range (slot + step) c
    → IsFirstFree m step in_range slot c
IsFirstFree-next {m} {step} {in_range} {slot} {c} fits h later = record {
  index = suc later.index;
  on_grid = omega (arith, later.on_grid);
  ranged = later.ranged;
  free = later.free;
  small = λ l. later.small fits;
  taken_below = below;
}
  where
    below : (j : ℕ) → j < suc later.index → holds m (slot + j * step) ≡ true
    below zero l = rw grid-zero h
    below (suc j) l = rw grid-suc (later.taken_below j (omega arith))

pub find_free-IsFirstFree :
    (fuel : ℕ) (m : HashMap ℕ) (step : ℕ) (in_range : ℕ → Bool) (slot : ℕ) {c : ℕ}
    → find_free fuel m step in_range slot ≡ some c
    → IsFirstFree m step in_range slot c
unfolding find_free
find_free-IsFirstFree zero m step in_range slot e = cc
find_free-IsFirstFree (suc fuel) m step in_range slot {c} e = elim (Bool-cases (in_range slot)) [
  | inr out ↦ absurd (ground arith)
  | inl inside ↦ elim (Bool-cases (holds m slot)) [
    | inr free ↦ IsFirstFree-here m step in_range slot c (ground arith) inside free
    | inl taken ↦ elim (Bool-cases (ltb (slot + step) u32_mod)) [
      | inl fits ↦
          IsFirstFree-next (ltb→lt _ _ fits) taken
            (find_free-IsFirstFree fuel m step in_range (slot + step) (ground arith))
      | inr over ↦ absurd (ground arith)
    ]
  ]
]

find_free-next :
    (fuel : ℕ) (m : HashMap ℕ) (step : ℕ) (in_range : ℕ → Bool) (slot : ℕ)
    → in_range slot ≡ true
    → slot + step < u32_mod
    → find_free (suc fuel) m step in_range slot ≡ none
    → find_free fuel m step in_range (slot + step) ≡ none
unfolding find_free
find_free-next fuel m step in_range slot inside fits e = elim (Bool-cases (holds m slot)) [
  | inl taken ↦ ground arith
  | inr free ↦ absurd (ground arith)
]

-- With a step and fuel for the keys that are left, a search that finds nothing has seen every key
-- of the progression that the range admits, and each is held.
pub find_free-none :
    (fuel : ℕ) (m : HashMap ℕ) (step : ℕ) (in_range : ℕ → Bool) (slot i : ℕ)
    → 0 < step
    → u32_mod ≤ slot + fuel
    → find_free fuel m step in_range slot ≡ none
    → slot + i * step < u32_mod
    → ((j : ℕ) → j ≤ i → in_range (slot + j * step) ≡ true)
    → holds m (slot + i * step) ≡ true
unfolding find_free
find_free-none zero m step in_range slot i pos enough e small ok = absurd (omega arith)
find_free-none (suc fuel) m step in_range slot zero pos enough e small ok =
    let inside : in_range slot ≡ true = rw grid-zero at (ok 0 (omega arith)) in
    rw grid-zero
      (elim (Bool-cases (holds m slot)) [ inl taken ↦ taken | inr free ↦ absurd (ground arith) ])
find_free-none (suc fuel) m step in_range slot (suc i) pos enough e small ok =
    let inside : in_range slot ≡ true = rw grid-zero at (ok 0 (omega arith)) in
    rw grid-suc (
      find_free-none fuel m step in_range (slot + step) i pos (omega arith)
        (find_free-next fuel m step in_range slot inside (omega arith) e) (omega arith)
        (λ j l. rw grid-suc at (ok (suc j) (omega arith))))
