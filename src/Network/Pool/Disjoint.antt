-- ===== src/Network/Pool/Disjoint.antt =====
-- What a bridge gets from the pool.
use native.Mathlib.Decide.{dec_lt}
use ssam.Prelude.{
  ℕ, ◌+◌, ◌≤◌, ◌<◌, ◌≡◌, ◌≢◌, refl, sym, ap, subst, ◌∙◌, true, ◌⊎◌, inl, inr, Option, some, String,
  get, get-insert_self, ok, arith, Option-cases,
}
use ssam.Network.Ipnet.{Ipnet, block, block-pos, new-network}
use ssam.Network.Slots
use ssam.Network.Slots.{SlotAllocator, u32_mod}
use ssam.Network.Slots.Owners.{allocate_existing, allocate_fresh}
use ssam.Network.Pool.{SubnetAllocator, validate, new, in_pool, allocate}
use ssam.Network.Pool.Slices.{IsSlice, IsSafe, aligned-fits, allocate-IsSafe, slots-allocate}

module _ (ip : Ipnet) where
  open ip use {Net, prefix_len, network, broadcast, broadcast-lt, new_some, new_fields}

  -- The subnets that two bridges hold have no address in common: one ends before the other begins.
  pub subnets_disjoint :
      (s : SubnetAllocator ip) (i j : String) (a b : ℕ)
      → IsSafe ip s
      → get s.slots.attached i ≡ some a
      → get s.slots.attached j ≡ some b
      → i ≢ j
      → (a + block s.subnet_prefix ≤ b) ⊎ (b + block s.subnet_prefix ≤ a)
  subnets_disjoint s i j a b v ea eb ne =
      let sa = v.slices i a ea in
      let sb = v.slices j b eb in
      elim (dec_lt a b) [
        | yes less ↦ inl (aligned-fits a _ b sa.aligned sb.aligned less)
        | no more ↦ elim (dec_lt b a) [
          | yes less ↦ inr (aligned-fits b _ a sb.aligned sa.aligned less)
          | no same ↦
              let e : a ≡ b = omega arith in
              absurd (ne (v.sound.exclusive i j a ea (eb ∙ ap some (sym e))))
        ]
      ]

  module _ (s : SubnetAllocator ip) (name : String) where
    abbrev slot_result : Option ℕ × SlotAllocator
    slot_result = Slots.allocate s.slots name (network s.pool) s.step (in_pool ip s)

    allocate_ok :
        {n : Net}
        → (allocate ip s name).0 ≡ ok n
        → (a : ℕ) × (slot_result.0 ≡ some a)
          × (ip.new a s.subnet_prefix ≡ some n)
          × ((allocate ip s name).1.slots ≡ slot_result.1)
    unfolding allocate
    allocate_ok {n} e = elim (Option-cases slot_result.0) [
      | inl missed ↦ absurd (ground arith)
      | inr (a, found) ↦ (a, found, ground arith, ground arith)
    ]

    slots-holds : (a : ℕ) → slot_result.0 ≡ some a → get slot_result.1.attached name ≡ some a
    slots-holds a found = elim (Option-cases (get s.slots.attached name)) [
      | inl new_name ↦
          let (_, attached) = allocate_fresh s.slots name _ _ _ new_name found in
          rw attached (get-insert_self s.slots.attached name a)
      | inr (k, held) ↦
          let same = allocate_existing s.slots name (network s.pool) s.step (in_pool ip s) k held in
          rw same held ∙ sym (ap (λ r. r.0) same) ∙ found
    ]

    -- A subnet that a bridge is given has the configured prefix, is a slice of the pool, and is
    -- recorded as the bridge's.
    pub allocate-IsSlice :
        {n : Net}
        → IsSafe ip s
        → (allocate ip s name).0 ≡ ok n
        → (prefix_len n ≡ s.subnet_prefix)
          × IsSlice ip s.pool s.subnet_prefix (network n)
          × (get (allocate ip s name).1.slots.attached name ≡ some (network n))
    allocate-IsSlice {n} v e =
        let (a, found, made, state) = allocate_ok e in
        let held : get (allocate ip s name).1.slots.attached name ≡ some a =
          rw state (slots-holds a found) in
        let slice : IsSlice ip s.pool s.subnet_prefix a =
          subst (λ t. IsSlice ip t.pool t.subnet_prefix a) (slots-allocate ip s name)
            ((allocate-IsSafe ip s name v).slices name a held) in
        let low : a < u32_mod =
          omega (arith, slice.in_pool, broadcast-lt s.pool, block-pos s.subnet_prefix) in
        let same : network n ≡ a = new-network ip a s.subnet_prefix low made slice.aligned in
        ((new_fields a s.subnet_prefix low made).1, rw same slice, rw same held)

  -- A configuration that passes `validate` makes an allocator with its prefix, which is at most 30.
  pub validate-new :
      (pool : Net) (size : ℕ)
      → validate ip pool size ≡ true
      → (s : SubnetAllocator ip) × (new ip pool size ≡ ok s)
        × (s.subnet_prefix ≡ size)
        × (size ≤ 30)
  unfolding validate new
  validate-new pool size h = (
    record { pool = pool; subnet_prefix = size; step = block size; slots = Slots.new },
    ground arith,
    refl,
    ground arith,
  )
