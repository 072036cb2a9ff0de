-- ===== src/Network/Slots/Keys.antt =====
-- What the operations of `SlotAllocator` do to the keys that are held.
use ssam.Prelude.{
  ℕ, ◌+◌, ◌*◌, ◌<◌, ◌≡◌, ◌≢◌, sym, ap, subst, ◌∙◌, Bool, true, ◌⊎◌, inl, inr, some, String, get,
  insert, get-insert_inv, get-insert_ne, get-remove_inv, arith, Option-cases,
}
use ssam.Network.Slots.{u32_mod, SlotAllocator, allocate, find_owner, claim, release}
use ssam.Network.Slots.Search.{IsFirstFree}
use ssam.Network.Slots.Owners.{
  IsSound, insert-IsSound, get-holds, allocate_existing, allocate_fresh, allocate-none,
}

-- Each key that is held has the property.
abbrev pub Within : (ℕ → Type 0) → SlotAllocator → Type 0
Within P s = (i : String) (k : ℕ) → get s.attached i ≡ some k → P k

insert-Within :
    (P : ℕ → Type 0) (s : SlotAllocator) (id : String) (c : ℕ)
    → Within P s
    → P c
    → Within P (record { attached = insert s.attached id c })
insert-Within P s id c w p i k e = elim (get-insert_inv s.attached id i c e) [
  | inl (_, same) ↦ subst P same p
  | inr (_, old) ↦ w i k old
]

pub release-Within :
    (P : ℕ → Type 0) (s : SlotAllocator) (id : String) → Within P s → Within P (release s id)
unfolding release
release-Within P s id w i k e = w i k (get-remove_inv s.attached id i e).1

pub claim-Within :
    (P : ℕ → Type 0) (s : SlotAllocator) (id : String) (key : ℕ)
    → Within P s
    → P key
    → Within P (claim s id key).1
unfolding claim
claim-Within P s id key w p = elim (Option-cases (find_owner s.attached id key)) [
  | inl e ↦ rw (e, claim) (insert-Within P s id key w p)
  | inr (owner, e) ↦ rw (e, claim) w
]

module _ (s : SlotAllocator) (id : String) (start step : ℕ) (in_range : ℕ → Bool) where
  -- An allocation leaves the state alone, or gives `id` the first free key.
  allocate_state :
      ((allocate s id start step in_range).1 ≡ s)
      ⊎ ((c : ℕ) × IsFirstFree s.attached step in_range start c
          × ((allocate s id start step in_range).1 ≡ record { attached = insert s.attached id c }))
  allocate_state = elim (Option-cases (get s.attached id)) [
    | inr (k, held) ↦ inl (ap (λ r. r.1) (allocate_existing s id start step in_range k held))
    | inl new_id ↦ elim (Option-cases (allocate s id start step in_range).0) [
      | inl full ↦ inl (allocate-none s id start step in_range full).1
      | inr (c, found) ↦
          let (first, attached) = allocate_fresh s id start step in_range new_id found in
          inr (c, first, attached)
    ]
  ]

  pub allocate-IsSound : IsSound s → IsSound (allocate s id start step in_range).1
  allocate-IsSound v = elim allocate_state [
    | inl same ↦ rw same v
    | inr (c, first, attached) ↦ rw attached (
        insert-IsSound s id c v (λ i held. absurd (cc (get-holds s.attached i c held, first.free))))
  ]

  pub allocate-Within :
      (P : ℕ → Type 0)
      → Within P s
      → start < u32_mod
      → ((j : ℕ)
          → start + j * step < u32_mod
          → in_range (start + j * step) ≡ true
          → P (start + j * step))
      → Within P (allocate s id start step in_range).1
  allocate-Within P w low new_ok = elim allocate_state [
    | inl same ↦ rw same w
    | inr (c, first, attached) ↦
        let p : P c = subst P (sym first.on_grid) (
          new_ok first.index (omega (arith, first.small low, first.on_grid))
            (ap in_range (sym first.on_grid) ∙ first.ranged)) in
        rw attached (insert-Within P s id c w p)
  ]

  -- Another id keeps what it has.
  pub allocate_others :
      (j : String)
      → id ≢ j
      → get (allocate s id start step in_range).1.attached j ≡ get s.attached j
  allocate_others j ne = elim allocate_state [
    | inl same ↦ rw same
    | inr (c, first, attached) ↦ rw attached (get-insert_ne s.attached id j c ne)
  ]
