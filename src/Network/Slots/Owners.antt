-- ===== src/Network/Slots/Owners.antt =====
-- Who holds which key: every operation of `SlotAllocator` keeps the keys exclusive.
use ssam.Prelude.{
  ℕ, ◌≡◌, ◌≢◌, sym, ap, ◌∙◌, Bool, true, inl, inr, none, some, [], ◌∷◌, String, HashMap, get,
  insert, Distinct, Distinct-insert, Distinct-remove, get_head, get_cons, get-insert_inv,
  get-remove_inv, arith, ◌==◌, ==→eq, Bool-cases, Option-cases, str_eq-cases,
}
use ssam.Network.Slots.{
  SlotAllocator, u32_mod, new, holds, find_free, allocate, find_owner, claim, release,
}
use ssam.Network.Slots.Search.{IsFirstFree, find_free-IsFirstFree}

-- One entry for an id, and one id for a key.
pub record IsSound (s : SlotAllocator) : Type 0 where
  pub distinct : Distinct s.attached
  pub exclusive :
      (i j : String) (k : ℕ) → get s.attached i ≡ some k → get s.attached j ≡ some k → i ≡ j

pub get-holds : (m : HashMap ℕ) (i : String) (k : ℕ) → get m i ≡ some k → holds m k ≡ true
unfolding get holds
get-holds [] i k e = cc
get-holds ((j, v) ∷ m) i k e = elim (str_eq-cases j i) [
  | inl (_, t) ↦ ground arith
  | inr (_, t) ↦ ground (arith, get-holds m i k)
]

pub holds-get :
    (m : HashMap ℕ) (k : ℕ) → Distinct m → holds m k ≡ true → (i : String) × (get m i ≡ some k)
unfolding holds
holds-get [] k d h = cc
holds-get ((j, v) ∷ m) k (fresh, d) h = elim (Bool-cases (v == k)) [
  | inl e ↦ (j, get_head m j v ∙ ap some (==→eq v k e))
  | inr e ↦ let (i, found) = holds-get m k d (ground arith) in (i, get_cons m j i v fresh found)
]

pub find_owner-none :
    (m : HashMap ℕ) (id i : String) (k : ℕ) → find_owner m id k ≡ none → get m i ≡ some k → i ≡ id
unfolding find_owner get
find_owner-none [] id i k n e = cc
find_owner-none ((j, v) ∷ m) id i k n e = elim (str_eq-cases j i) [
  | inl (p, t) ↦ elim (str_eq-cases j id) [
    | inl (q, u) ↦ sym p ∙ q
    | inr (q, u) ↦ absurd (ground arith)
  ]
  | inr (p, t) ↦ find_owner-none m id i k (ground arith) (ground arith)
]

pub find_owner-some :
    (m : HashMap ℕ) (id : String) (k : ℕ) {owner : String}
    → Distinct m
    → find_owner m id k ≡ some owner
    → (get m owner ≡ some k) × (owner ≢ id)
unfolding find_owner
find_owner-some [] id k d e = cc
find_owner-some ((j, v) ∷ m) id k {owner} (fresh, d) e = elim (Bool-cases (v == k)) [
  | inr t ↦
      let (held, other) = find_owner-some m id k d (ground arith) in
      (get_cons m j owner v fresh held, other)
  | inl t ↦ elim (str_eq-cases j id) [
    | inl (q, u) ↦
        let (held, other) = find_owner-some m id k d (ground arith) in
        (get_cons m j owner v fresh held, other)
    | inr (q, u) ↦
        let here : j ≡ owner = ground arith in
        (rw (← here) (get_head m j v ∙ ap some (==→eq v k t)), rw (← here) q)
  ]
]

-- A key that nobody else holds may be given to `id`, whatever `id` held before.
pub insert-IsSound :
    (s : SlotAllocator) (id : String) (key : ℕ)
    → IsSound s
    → ((i : String) → get s.attached i ≡ some key → i ≡ id)
    → IsSound (record { attached = insert s.attached id key })
insert-IsSound s id key v alone = record {
  distinct = Distinct-insert s.attached id key v.distinct;
  exclusive = λ i j k p q. elim (get-insert_inv s.attached id i key p) [
    | inl (ei, ek) ↦ elim (get-insert_inv s.attached id j key q) [
      | inl (ej, _) ↦ sym ei ∙ ej
      | inr (_, q') ↦ sym ei ∙ sym (alone j (q' ∙ ap some (sym ek)))
    ]
    | inr (_, p') ↦ elim (get-insert_inv s.attached id j key q) [
      | inl (ej, ek) ↦ alone i (p' ∙ ap some (sym ek)) ∙ ej
      | inr (_, q') ↦ v.exclusive i j k p' q'
    ]
  ];
}

pub new-IsSound : IsSound new
unfolding new get
new-IsSound = record { distinct = tt; exclusive = λ i j k p q. cc }

pub release-IsSound : (s : SlotAllocator) (id : String) → IsSound s → IsSound (release s id)
unfolding release
release-IsSound s id v = record {
  distinct = Distinct-remove s.attached id v.distinct;
  exclusive = λ i j k p q.
      v.exclusive i j k (get-remove_inv s.attached id i p).1 (get-remove_inv s.attached id j q).1;
}

pub claim-IsSound :
    (s : SlotAllocator) (id : String) (key : ℕ) → IsSound s → IsSound (claim s id key).1
unfolding claim
claim-IsSound s id key v = elim (Option-cases (find_owner s.attached id key)) [
  | inl e ↦
      rw (e, claim)
        (insert-IsSound s id key v (λ i held. find_owner-none s.attached id i key e held))
  | inr (owner, e) ↦ rw (e, claim) v
]

module _ (s : SlotAllocator) (id : String) (start step : ℕ) (in_range : ℕ → Bool) where
  -- `allocate` by cases, for its clients.
  pub allocate_existing :
      (k : ℕ) → get s.attached id ≡ some k → allocate s id start step in_range ≡ (some k, s)
  unfolding allocate
  allocate_existing k e = rw (e, allocate)

  pub allocate_fresh :
      {c : ℕ}
      → get s.attached id ≡ none
      → (allocate s id start step in_range).0 ≡ some c
      → IsFirstFree s.attached step in_range start c
        × ((allocate s id start step in_range).1 ≡ record { attached = insert s.attached id c })
  unfolding allocate
  allocate_fresh {c} n e = elim (Option-cases (find_free u32_mod s.attached step in_range start)) [
    | inl f ↦ absurd (ground arith)
    | inr (d, f) ↦
        let found = find_free-IsFirstFree u32_mod s.attached step in_range start in
        (found (ground arith), ground arith)
  ]

  pub allocate-none :
      (allocate s id start step in_range).0 ≡ none
      → (get s.attached id ≡ none)
        × ((allocate s id start step in_range).1 ≡ s)
        × (find_free u32_mod s.attached step in_range start ≡ none)
  unfolding allocate
  allocate-none e = ground arith
