-- ===== src/Network/Bridge/Hosts.antt =====
-- Which host addresses a bridge hands out.
use ssam.Prelude.{
  ℕ, ◌+◌, ◌*◌, ◌-◌, ◌≤◌, ◌<◌, ◌≡◌, ◌≢◌, sym, ap, ◌∙◌, Bool, inl, inr, Option, none, some, String,
  get-insert_self, ok, err, arith, ltb, ltb→lt, lt→ltb, Option-cases,
}
use ssam.Network.Ipnet.{Ipnet, block-ge_four}
use ssam.Network.Slots
use ssam.Network.Slots.{SlotAllocator, u32_mod, holds}
use ssam.Network.Slots.Search.{IsFirstFree, find_free-none}
use ssam.Network.Slots.Owners.{
  IsSound, get-holds, holds-get, allocate_existing, allocate_fresh, allocate-none,
}
use ssam.Network.Bridge.{BridgeIpAllocator, AllocError, first_host, allocate, ip_for}

-- A subnet that the configuration admits: it has host addresses.
abbrev pub HasHosts : (ip : Ipnet) → ip.Net → Type 0
HasHosts ip subnet = ip.prefix_len subnet ≤ 30

module _ (ip : Ipnet) where
  open ip use {Net, network, broadcast, prefix_len, broadcast_lem, broadcast-lt}

  pub first_host_lem :
      (subnet : Net) → HasHosts ip subnet → first_host ip subnet ≡ network subnet + 1
  first_host_lem subnet h =
      omega (arith, broadcast_lem subnet, broadcast-lt subnet, block-ge_four (prefix_len subnet) h)

  -- The host addresses: those between the network and the broadcast address.
  pub record IsHost (subnet : Net) (a : ℕ) : Type 0 where
    pub above : network subnet < a
    pub below : a < broadcast subnet

  -- `a` is the lowest host address that nobody holds.
  pub record IsLowestFree (b : BridgeIpAllocator ip) (a : ℕ) : Type 0 where
    pub host : IsHost b.subnet a
    pub free : (i : String) → ip_for ip b i ≢ some a
    pub taken_below : (x : ℕ) → IsHost b.subnet x → x < a → (i : String) × (ip_for ip b i ≡ some x)

  range : Net → ℕ → Bool
  range subnet c = ltb c (broadcast subnet)

  IsFirstFree-IsLowestFree :
      (b : BridgeIpAllocator ip) (a : ℕ)
      → HasHosts ip b.subnet
      → IsSound b.slots
      → IsFirstFree b.slots.attached 1 (λ c. ltb c (broadcast b.subnet)) (first_host ip b.subnet) a
      → IsLowestFree b a
  IsFirstFree-IsLowestFree b a h v first =
      let start = first_host_lem b.subnet h in
      record {
        host = record {
          above = omega (arith, start, first.on_grid);
          below = ltb→lt a (broadcast b.subnet) first.ranged;
        };
        free = λ i e. cc (get-holds b.slots.attached i a e, first.free);
        taken_below = λ x host below.
            let k : ℕ = x - (network b.subnet + 1) in
            let at : first_host ip b.subnet + k * 1 ≡ x = omega (arith, start, host.above) in
            holds-get b.slots.attached x v.distinct
              (rw at at (first.taken_below k (omega (arith, start, first.on_grid, host.above))));
      }

  module _ (b : BridgeIpAllocator ip) (netid : String) where
    abbrev slot_result : Option ℕ × SlotAllocator
    slot_result =
        Slots.allocate b.slots netid (first_host ip b.subnet) 1 (λ c. ltb c (broadcast b.subnet))

    allocate_ok :
        {a : ℕ}
        → (allocate ip b netid).0 ≡ ok a
        → (slot_result.0 ≡ some a) × ((allocate ip b netid).1.slots ≡ slot_result.1)
    unfolding allocate
    allocate_ok e = ground arith

    allocate_err :
        {e : AllocError}
        → (allocate ip b netid).0 ≡ err e
        → (slot_result.0 ≡ none) × ((allocate ip b netid).1 ≡ record b { slots = slot_result.1 })
    unfolding allocate
    allocate_err e = ground arith

    -- A new id gets the lowest host address that nobody holds, and holds it afterwards.
    pub allocate_lowest :
        {a : ℕ}
        → HasHosts ip b.subnet
        → IsSound b.slots
        → ip_for ip b netid ≡ none
        → (allocate ip b netid).0 ≡ ok a
        → IsLowestFree b a × (ip_for ip (allocate ip b netid).1 netid ≡ some a)
    allocate_lowest {a} h v new_id e =
        let (found, state) = allocate_ok e in
        let (first, attached) = allocate_fresh b.slots netid _ _ _ new_id found in
        (
          IsFirstFree-IsLowestFree b a h v first,
          rw (state ∙ attached) (get-insert_self b.slots.attached netid a),
        )

    -- An allocation fails only for a new id and when each host address has an owner, and then
    -- changes nothing.
    pub allocate_exhausted :
        {e : AllocError}
        → HasHosts ip b.subnet
        → IsSound b.slots
        → (allocate ip b netid).0 ≡ err e
        → (ip_for ip b netid ≡ none)
          × ((a : ℕ) → IsHost b.subnet a → (i : String) × (ip_for ip b i ≡ some a))
          × ((allocate ip b netid).1 ≡ b)
    allocate_exhausted h v e =
        let (found, state) = allocate_err e in
        let (new_id, same, missed) = allocate-none b.slots netid _ _ _ found in
        let start = first_host_lem b.subnet h in
        (
          new_id,
          λ a host.
              let k : ℕ = a - (network b.subnet + 1) in
              let at : first_host ip b.subnet + k * 1 ≡ a = omega (arith, start, host.above) in
              holds-get b.slots.attached a v.distinct (
                rw at at (
                  find_free-none u32_mod b.slots.attached 1 _ (first_host ip b.subnet) k
                    (omega arith) (omega arith) missed
                    (omega (arith, start, host.above, host.below, broadcast-lt b.subnet))
                    (λ j l. lt→ltb _ _ (omega (arith, start, host.above, host.below))))),
          state ∙ (λ i. record { subnet = b.subnet; slots = same i }),
        )

    pub allocate_holds :
        {a : ℕ} → (allocate ip b netid).0 ≡ ok a → ip_for ip (allocate ip b netid).1 netid ≡ some a
    allocate_holds {a} e =
        let (found, state) = allocate_ok e in
        elim (Option-cases (ip_for ip b netid)) [
          | inl new_id ↦
              let (_, attached) = allocate_fresh b.slots netid _ _ _ new_id found in
              rw (state ∙ attached) (get-insert_self b.slots.attached netid a)
          | inr (k, held) ↦
              let same = allocate_existing b.slots netid (first_host ip b.subnet) 1 _ k held in
              rw state (rw same held ∙ sym (ap (λ r. r.0) same) ∙ found)
        ]

  allocate_held :
      (b : BridgeIpAllocator ip) (netid : String) {a : ℕ}
      → ip_for ip b netid ≡ some a
      → allocate ip b netid ≡ (ok a, b)
  unfolding allocate
  allocate_held b netid {a} held =
      let same =
        allocate_existing b.slots netid (first_host ip b.subnet) 1 (λ c. ltb c (broadcast b.subnet))
          a held in
      rw (same, allocate)

  -- An id that got an address gets the same one again, and nothing changes.
  pub allocate_idempotent :
      (b : BridgeIpAllocator ip) (netid : String) {a : ℕ}
      → (allocate ip b netid).0 ≡ ok a
      → let later = (allocate ip b netid).1 in allocate ip later netid ≡ (ok a, later)
  allocate_idempotent b netid e =
      allocate_held (allocate ip b netid).1 netid (allocate_holds b netid e)
