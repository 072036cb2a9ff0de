-- ===== src/Network/Pool/Slices.antt =====
-- The subnets that a pool hands out are aligned slices of the pool, and no two of them overlap.
use native.Mathlib.Nat.{add-mul-mod_self_right, div-add-mod, mul-le-mul_left}
use native.Mathlib.Decide.{dec_lt}
use ssam.Prelude.{
  ℕ, suc, ◌+◌, ◌*◌, ◌/◌, ◌%◌, ◌≤◌, ◌<◌, ◌≡◌, refl, ◌∙◌, true, ◌&&◌, ◌⊎◌, inl, inr, String, get, ok,
  arith, leb, ==→eq, ◌==◌, Bool-cases,
}
use ssam.Network.Ipnet.{Ipnet, block, block-pos, block-aligned, network-aligned}
use ssam.Network.Slots
use ssam.Network.Slots.{SlotAllocator, u32_mod}
use ssam.Network.Slots.Owners.{IsSound, new-IsSound, claim-IsSound, release-IsSound}
use ssam.Network.Slots.Keys.{
  Within, allocate-IsSound, allocate-Within, claim-Within, release-Within,
}
use ssam.Network.Pool.{SubnetAllocator, new, in_pool, allocate, claim, release}

-- An aligned block of the pool: `a` is the network address of a slot that lies in the pool.
pub record IsSlice (ip : Ipnet) (pool : ip.Net) (prefix a : ℕ) : Type 0 where
  pub aligned : a % block prefix ≡ 0
  pub from_pool : ip.network pool ≤ a
  pub in_pool : a + block prefix ≤ ip.broadcast pool + 1

-- An aligned block that starts below an aligned bound ends at the bound or below it.
pub aligned-fits : (a b m : ℕ) → a % b ≡ 0 → m % b ≡ 0 → a < m → a + b ≤ m
aligned-fits a b m p q h =
    let whole_a : a ≡ b * (a / b) = omega (arith, div-add-mod a b) in
    let whole_m : m ≡ b * (m / b) = omega (arith, div-add-mod m b) in
    elim (dec_lt (a / b) (m / b)) [
      | yes less ↦
          let next : b * suc (a / b) ≤ b * (m / b) = mul-le-mul_left b less in
          omega (arith, whole_a, whole_m, next)
      | no more ↦
          let back : b * (m / b) ≤ b * (a / b) = mul-le-mul_left b (omega arith) in
          absurd (omega (arith, whole_a, whole_m, back))
    ]

module _ (ip : Ipnet) where
  open ip use {
    Net, prefix_len, network, broadcast, prefix_len-le, broadcast_lem, broadcast-lt, new_some,
    new_fields,
  }

  pub record IsSafe (s : SubnetAllocator ip) : Type 0 where
    pub prefix-ge : prefix_len s.pool ≤ s.subnet_prefix
    pub prefix-le : s.subnet_prefix ≤ 32
    pub step_lem : s.step ≡ block s.subnet_prefix
    pub sound : IsSound s.slots
    pub slices : Within (IsSlice ip s.pool s.subnet_prefix) s.slots

  -- The sum of the bounds check does not wrap: an aligned slot at a `u32` address ends below 2^32.
  in_pool-IsSlice :
      (s : SubnetAllocator ip) (a : ℕ)
      → s.subnet_prefix ≤ 32
      → s.step ≡ block s.subnet_prefix
      → network s.pool ≤ a
      → a % block s.subnet_prefix ≡ 0
      → a < u32_mod
      → in_pool ip s a ≡ true
      → IsSlice ip s.pool s.subnet_prefix a
  in_pool-IsSlice s a top st from al small inside =
      let fits =
        aligned-fits a (block s.subnet_prefix) u32_mod al
          (block-aligned u32_mod 0 s.subnet_prefix (omega arith) top refl) small in
      record {
        aligned = al;
        from_pool = from;
        in_pool = ground (arith, st, fits, block-pos s.subnet_prefix);
      }

  network-lt : (n : Net) → network n < u32_mod
  network-lt n = omega (arith, broadcast_lem n, broadcast-lt n, block-pos (prefix_len n))

  new_fields_lem :
      (pool : Net) (p : ℕ) {s : SubnetAllocator ip}
      → new ip pool p ≡ ok s
      → (prefix_len pool ≤ p)
        × (p ≤ 32)
        × (s ≡ record { pool = pool; subnet_prefix = p; step = block p; slots = Slots.new })
  unfolding new
  new_fields_lem pool p e = ground arith

  pub new-IsSafe : (pool : Net) (p : ℕ) {s : SubnetAllocator ip} → new ip pool p ≡ ok s → IsSafe s
  unfolding new Slots.new get
  new-IsSafe pool p {s} e =
      let (least, most, made) = new_fields_lem pool p e in
      rw made (record {
        prefix-ge = least;
        prefix-le = most;
        step_lem = refl;
        sound = new-IsSound;
        slices = λ i k held. cc;
      })

  pub slots-allocate :
      (s : SubnetAllocator ip) (name : String)
      → (allocate ip s name).1 ≡ record s {
        slots = (Slots.allocate s.slots name (network s.pool) s.step (in_pool ip s)).1;
      }
  unfolding allocate
  slots-allocate s name = ground arith

  base-aligned : (s : SubnetAllocator ip) → IsSafe s → network s.pool % block s.subnet_prefix ≡ 0
  base-aligned s v =
      block-aligned (network s.pool) (prefix_len s.pool) s.subnet_prefix v.prefix-ge v.prefix-le
        (network-aligned ip s.pool)

  pub allocate-IsSafe :
      (s : SubnetAllocator ip) (name : String) → IsSafe s → IsSafe (allocate ip s name).1
  allocate-IsSafe s name v = rw (slots-allocate s name) (record {
    prefix-ge = v.prefix-ge;
    prefix-le = v.prefix-le;
    step_lem = v.step_lem;
    sound = allocate-IsSound s.slots name _ _ _ v.sound;
    slices =
        allocate-Within s.slots name _ _ _ (IsSlice ip s.pool s.subnet_prefix) v.slices
          (network-lt s.pool)
          (λ j small inside.
            in_pool-IsSlice s _ v.prefix-le v.step_lem (omega arith)
              (rw v.step_lem (add-mul-mod_self_right _ j _ ∙ base-aligned s v)) small inside);
  })

  pub slots-claim :
      (s : SubnetAllocator ip) (name : String) (subnet : Net)
      → ((claim ip s name subnet).1 ≡ s)
        ⊎ ((prefix_len subnet ≡ s.subnet_prefix)
            × (network s.pool ≤ network subnet)
            × (in_pool ip s (network subnet) ≡ true)
            × ((claim ip s name subnet).1
                ≡ record s { slots = (Slots.claim s.slots name (network subnet)).1 }))
  unfolding claim
  slots-claim s name subnet = elim (Bool-cases (prefix_len subnet == s.subnet_prefix)) [
    | inr other ↦ inl (ground arith)
    | inl same ↦
        elim (Bool-cases (leb (network s.pool) (network subnet) && in_pool ip s (network subnet))) [
          | inr out ↦ inl (ground arith)
          | inl inside ↦ inr (
            ==→eq (prefix_len subnet) s.subnet_prefix same,
            ground arith,
            ground arith,
            ground arith,
          )
        ]
  ]

  pub claim-IsSafe :
      (s : SubnetAllocator ip) (name : String) (subnet : Net)
      → IsSafe s
      → IsSafe (claim ip s name subnet).1
  claim-IsSafe s name subnet v = elim (slots-claim s name subnet) [
    | inl same ↦ rw same v
    | inr (prefix, from, inside, claimed) ↦ rw claimed (record {
      prefix-ge = v.prefix-ge;
      prefix-le = v.prefix-le;
      step_lem = v.step_lem;
      sound = claim-IsSound s.slots name (network subnet) v.sound;
      slices =
          claim-Within (IsSlice ip s.pool s.subnet_prefix) s.slots name (network subnet) v.slices (
            in_pool-IsSlice s (network subnet) v.prefix-le v.step_lem from
              (rw (← prefix) (network-aligned ip subnet)) (network-lt subnet) inside);
    })
  ]

  pub release-IsSafe :
      (s : SubnetAllocator ip) (name : String) → IsSafe s → IsSafe (release ip s name)
  unfolding release
  release-IsSafe s name v = record {
    prefix-ge = v.prefix-ge;
    prefix-le = v.prefix-le;
    step_lem = v.step_lem;
    sound = release-IsSound s.slots name v.sound;
    slices = release-Within (IsSlice ip s.pool s.subnet_prefix) s.slots name v.slices;
  }
