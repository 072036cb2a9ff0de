-- ===== src/Network/Bridge/Safety.antt =====
-- What holds of a bridge's allocator between two calls.
use ssam.Prelude.{
  ℕ, ◌+◌, ◌≡◌, refl, ap, ◌∙◌, true, ◌⊎◌, inl, inr, some, List, [], ◌∷◌, String, get, arith, ltb,
  ltb→lt, Bool-cases,
}
use ssam.Network.Ipnet.{Ipnet}
use ssam.Network.Slots
use ssam.Network.Slots.{SlotAllocator}
use ssam.Network.Slots.Owners.{IsSound, new-IsSound, claim-IsSound, release-IsSound}
use ssam.Network.Slots.Keys.{allocate-IsSound, allocate-Within, claim-Within, release-Within}
use ssam.Network.Bridge.{
  BridgeIpAllocator, first_host, usable_host, new, allocate, claim, release, ip_for,
}
use ssam.Network.Bridge.Hosts.{HasHosts, IsHost, first_host_lem}

-- A call on the allocator, as the network actor makes them.
pub data Call : Type 0 where
  allocate_call release_call : String → Call
  claim_call : String → ℕ → Call

module _ (ip : Ipnet) where
  open ip use {Net, broadcast}

  unfoldable pub apply : Call → BridgeIpAllocator ip → BridgeIpAllocator ip
  apply (allocate_call id) b = (allocate ip b id).1
  apply (release_call id) b = release ip b id
  apply (claim_call id a) b = (claim ip b id a).1

  unfoldable pub run : List Call → BridgeIpAllocator ip → BridgeIpAllocator ip
  run [] b = b
  run (c ∷ cs) b = run cs (apply c b)

  -- The subnet is the one it was built with, no two ids hold one address, and each address that is
  -- held is a host address.
  pub record IsSafe (subnet : Net) (b : BridgeIpAllocator ip) : Type 0 where
    pub same_subnet : b.subnet ≡ subnet
    pub sound : IsSound b.slots
    pub hosts : (i : String) (a : ℕ) → ip_for ip b i ≡ some a → IsHost ip subnet a

  pub slots-allocate :
      (b : BridgeIpAllocator ip) (id : String)
      → (allocate ip b id).1 ≡ record b {
        slots =
            (Slots.allocate b.slots id
              (first_host ip b.subnet)
              1
              (λ c. ltb c (broadcast b.subnet))).1;
      }
  unfolding allocate
  slots-allocate b id = ground arith

  slots-claim :
      (b : BridgeIpAllocator ip) (id : String) (a : ℕ)
      → ((claim ip b id a).1 ≡ b)
        ⊎ ((usable_host ip b.subnet a ≡ true)
            × ((claim ip b id a).1 ≡ record b { slots = (Slots.claim b.slots id a).1 }))
  unfolding claim
  slots-claim b id a = elim (Bool-cases (usable_host ip b.subnet a)) [
    | inl usable ↦ inr (usable, ground arith)
    | inr out ↦ inl (ground arith)
  ]

  module _ (subnet : Net) (admitted : HasHosts ip subnet) where
    pub new-IsSafe : IsSafe subnet (new ip subnet)
    unfolding new Slots.new get
    new-IsSafe = record { same_subnet = refl; sound = new-IsSound; hosts = λ i a e. cc }

    pub allocate-IsSafe :
        (b : BridgeIpAllocator ip) (id : String)
        → IsSafe subnet b
        → IsSafe subnet (allocate ip b id).1
    allocate-IsSafe b id v =
        let start : first_host ip b.subnet ≡ ip.network subnet + 1 =
          ap (first_host ip) v.same_subnet ∙ first_host_lem ip subnet admitted in
        rw (slots-allocate b id) (record {
          same_subnet = v.same_subnet;
          sound = allocate-IsSound b.slots id _ _ _ v.sound;
          hosts =
              allocate-Within b.slots id _ _ _ (IsHost ip subnet) v.hosts (omega arith) (λ j l ok.
                record {
                  above = omega (arith, start);
                  below = rw (← v.same_subnet) (ltb→lt _ _ ok);
                });
        })

    pub claim-IsSafe :
        (b : BridgeIpAllocator ip) (id : String) (a : ℕ)
        → IsSafe subnet b
        → IsSafe subnet (claim ip b id a).1
    claim-IsSafe b id a v = elim (slots-claim b id a) [
      | inl same ↦ rw same v
      | inr (usable, claimed) ↦
          let start : first_host ip b.subnet ≡ ip.network subnet + 1 =
            ap (first_host ip) v.same_subnet ∙ first_host_lem ip subnet admitted in
          rw claimed (record {
            same_subnet = v.same_subnet;
            sound = claim-IsSound b.slots id a v.sound;
            hosts = claim-Within (IsHost ip subnet) b.slots id a v.hosts (record {
              above = ground (arith, start);
              below = rw (← v.same_subnet) (ground arith);
            });
          })
    ]

    pub release-IsSafe :
        (b : BridgeIpAllocator ip) (id : String) → IsSafe subnet b → IsSafe subnet (release ip b id)
    unfolding release
    release-IsSafe b id v = record {
      same_subnet = v.same_subnet;
      sound = release-IsSound b.slots id v.sound;
      hosts = release-Within (IsHost ip subnet) b.slots id v.hosts;
    }

    apply-IsSafe :
        (c : Call) (b : BridgeIpAllocator ip) → IsSafe subnet b → IsSafe subnet (apply c b)
    unfolding apply
    apply-IsSafe (allocate_call id) b v = allocate-IsSafe b id v
    apply-IsSafe (release_call id) b v = release-IsSafe b id v
    apply-IsSafe (claim_call id a) b v = claim-IsSafe b id a v

    run_from-IsSafe :
        (cs : List Call) (b : BridgeIpAllocator ip) → IsSafe subnet b → IsSafe subnet (run cs b)
    unfolding run
    run_from-IsSafe [] b v = v
    run_from-IsSafe (c ∷ cs) b v = run_from-IsSafe cs (apply c b) (apply-IsSafe c b v)

    -- After any calls on a new allocator over a subnet with a prefix of at most 30, the subnet is
    -- unchanged, no two ids hold one address and each address held is a host address.
    pub run-IsSafe : (cs : List Call) → IsSafe subnet (run cs (new ip subnet))
    run-IsSafe cs = run_from-IsSafe cs (new ip subnet) new-IsSafe
