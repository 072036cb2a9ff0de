-- ===== src/Network/Pool/Runs.antt =====
-- Sequences of calls on a pool of subnets.
use ssam.Prelude.{
  ℕ, ◌+◌, ◌≤◌, ◌≡◌, ◌≢◌, ◌∙◌, ap, ◌⊎◌, inl, inr, Option, none, some, List, [], ◌∷◌, String, get, ok,
  arith,
}
use ssam.Network.Ipnet.{Ipnet, block}
use ssam.Network.Pool.{
  SubnetAllocator, new, allocate, claim, release, reserve_slot, reserve_containing,
}
use ssam.Network.Pool.Slices.{
  IsSafe, new-IsSafe, allocate-IsSafe, claim-IsSafe, release-IsSafe, slots-allocate, slots-claim,
}
use ssam.Network.Pool.Disjoint.{subnets_disjoint}

module _ (ip : Ipnet) where
  open ip use {Net, network, broadcast}

  pub data Call : Type 0 where
    allocate_call release_call : String → Call
    claim_call : String → Net → Call
    reserve_call : ℕ → Call

  unfoldable pub apply : Call → SubnetAllocator ip → SubnetAllocator ip
  apply (allocate_call name) s = (allocate ip s name).1
  apply (claim_call name subnet) s = (claim ip s name subnet).1
  apply (release_call name) s = release ip s name
  apply (reserve_call addr) s = reserve_containing ip s addr

  -- The replies are not looked at.
  unfoldable pub run : List Call → SubnetAllocator ip → SubnetAllocator ip
  run [] s = s
  run (c ∷ cs) s = run cs (apply c s)

  module _ (pool : Net) (size : ℕ) where
    record IsPoolOf (s : SubnetAllocator ip) : Type 0 where
      safe : IsSafe ip s
      same_pool : s.pool ≡ pool
      same_size : s.subnet_prefix ≡ size

    new-IsPoolOf : {s : SubnetAllocator ip} → new ip pool size ≡ ok s → IsPoolOf s
    unfolding new
    new-IsPoolOf e = record {
      safe = new-IsSafe ip pool size e;
      same_pool = ground arith;
      same_size = ground arith;
    }

    claim-IsPoolOf :
        (name : String) (subnet : Net) (s : SubnetAllocator ip)
        → IsPoolOf s
        → IsPoolOf (claim ip s name subnet).1
    claim-IsPoolOf name subnet s v = record {
      safe = claim-IsSafe ip s name subnet v.safe;
      same_pool = elim (slots-claim ip s name subnet) [
        | inl same ↦ ap (λ t. t.pool) same ∙ v.same_pool
        | inr (_, _, _, claimed) ↦ ap (λ t. t.pool) claimed ∙ v.same_pool
      ];
      same_size = elim (slots-claim ip s name subnet) [
        | inl same ↦ ap (λ t. t.subnet_prefix) same ∙ v.same_size
        | inr (_, _, _, claimed) ↦ ap (λ t. t.subnet_prefix) claimed ∙ v.same_size
      ];
    }

    reserve_slot-IsPoolOf :
        (slice : Option Net) (s : SubnetAllocator ip)
        → IsPoolOf s
        → IsPoolOf (reserve_slot ip slice s)
    unfolding reserve_slot
    reserve_slot-IsPoolOf none s v = v
    reserve_slot-IsPoolOf (some net) s v = claim-IsPoolOf _ _ s v

    apply-IsPoolOf : (c : Call) (s : SubnetAllocator ip) → IsPoolOf s → IsPoolOf (apply c s)
    unfolding apply release reserve_containing
    apply-IsPoolOf (allocate_call name) s v = record {
      safe = allocate-IsSafe ip s name v.safe;
      same_pool = ap (λ t. t.pool) (slots-allocate ip s name) ∙ v.same_pool;
      same_size = ap (λ t. t.subnet_prefix) (slots-allocate ip s name) ∙ v.same_size;
    }
    apply-IsPoolOf (claim_call name subnet) s v = claim-IsPoolOf name subnet s v
    apply-IsPoolOf (release_call name) s v = record {
      safe = release-IsSafe ip s name v.safe;
      same_pool = v.same_pool;
      same_size = v.same_size;
    }
    apply-IsPoolOf (reserve_call addr) s v = reserve_slot-IsPoolOf _ s v

    run-IsPoolOf : (cs : List Call) (s : SubnetAllocator ip) → IsPoolOf s → IsPoolOf (run cs s)
    unfolding run
    run-IsPoolOf [] s v = v
    run-IsPoolOf (c ∷ cs) s v = run-IsPoolOf cs (apply c s) (apply-IsPoolOf c s v)

  -- After any calls on a new allocator, whatever subnets are claimed and whatever addresses are
  -- reserved, the subnets that two names hold have no address in common: one ends before the other
  -- begins; and each lies in the pool.
  pub run_disjoint :
      (pool : Net) (size : ℕ) (s : SubnetAllocator ip) (cs : List Call) (i j : String) (a b : ℕ)
      → new ip pool size ≡ ok s
      → get (run cs s).slots.attached i ≡ some a
      → get (run cs s).slots.attached j ≡ some b
      → i ≢ j
      → ((a + block size ≤ b) ⊎ (b + block size ≤ a))
        × (network pool ≤ a)
        × (a + block size ≤ broadcast pool + 1)
  run_disjoint pool size s cs i j a b made ea eb ne =
      let v = run-IsPoolOf pool size cs s (new-IsPoolOf pool size made) in
      let apart = subnets_disjoint ip (run cs s) i j a b v.safe ea eb ne in
      let slice = v.safe.slices i a ea in
      (
        rw (← v.same_size) apart,
        rw (← v.same_pool) slice.from_pool,
        rw (← v.same_pool, ← v.same_size) slice.in_pool,
      )
