-- ===== src/Network/Bridge.antt =====
-- `BridgeIpAllocator` of ssamd/src/network/allocator.rs: which network id holds which host address
-- of one bridge's subnet. The ids are the `ssam-<hash>` names.
pub mod Hosts
pub mod Safety
use ssam.Prelude.{
  ℕ, ◌+◌, ◌%◌, Bool, true, false, ◌&&◌, Option, none, some, String, get, Result, ok, err, ltb, leb,
  if◌then◌else◌,
}
use ssam.Network.Ipnet.{Ipnet}
use ssam.Network.Slots
use ssam.Network.Slots.{SlotAllocator, u32_mod}

pub data AllocError : Type 0 where
  no_free_host : AllocError
  not_usable_host : ℕ → AllocError
  already_claimed : ℕ → String → AllocError

module _ (ip : Ipnet) where
  open ip use {Net, network, broadcast}

  pub record BridgeIpAllocator : Type 0 where
    pub subnet : Net
    pub slots : SlotAllocator

  unfoldable pub new : Net → BridgeIpAllocator
  new subnet = record { subnet = subnet; slots = Slots.new }

  -- `u32::from(network) + 1`; the sum wraps at 255.255.255.255.
  abbrev pub first_host : Net → ℕ
  first_host subnet = (network subnet + 1) % u32_mod

  allocated : Option ℕ × SlotAllocator → BridgeIpAllocator → Result AllocError ℕ × BridgeIpAllocator
  allocated (none, slots) b = (err no_free_host, record b { slots = slots })
  allocated (some key, slots) b = (ok key, record b { slots = slots })

  unfoldable pub allocate : BridgeIpAllocator → String → Result AllocError ℕ × BridgeIpAllocator
  unfolding allocated
  allocate b netid =
      let range = λ (c : ℕ). ltb c (broadcast b.subnet) in
      allocated (Slots.allocate b.slots netid (first_host b.subnet) 1 range) b

  claimed :
      Option String × SlotAllocator
      → ℕ
      → BridgeIpAllocator
      → Result AllocError (Unit {0}) × BridgeIpAllocator
  claimed (some owner, slots) key b = (err (already_claimed key owner), record b { slots = slots })
  claimed (none, slots) key b = (ok tt, record b { slots = slots })

  -- `(first_host..broadcast).contains(&ip_key)`
  abbrev pub usable_host : Net → ℕ → Bool
  usable_host subnet key = leb (first_host subnet) key && ltb key (broadcast subnet)

  unfoldable pub claim :
      BridgeIpAllocator → String → ℕ → Result AllocError (Unit {0}) × BridgeIpAllocator
  unfolding claimed
  claim b netid key =
      if usable_host b.subnet key
      then claimed (Slots.claim b.slots netid key) key b
      else (err (not_usable_host key), b)

  unfoldable pub release : BridgeIpAllocator → String → BridgeIpAllocator
  release b netid = record b { slots = Slots.release b.slots netid }

  abbrev pub ip_for : BridgeIpAllocator → String → Option ℕ
  ip_for b netid = get b.slots.attached netid

  abbrev pub is_empty : BridgeIpAllocator → Bool
  is_empty b = Slots.has_none b.slots
