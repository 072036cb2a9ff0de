-- ===== src/Network/Pool.antt =====
-- `SubnetAllocator` of ssamd/src/network/allocator.rs: a pool of addresses cut into subnets of one
-- size, a subnet for each bridge, and `BridgeConfig::validate` of ssamd/src/configuration.rs, which
-- admits the pool.
pub mod Slices
pub mod Disjoint
pub mod Runs
use ssam.Prelude.{
  ℕ, ◌+◌, ◌-◌, Bool, true, false, ◌&&◌, Option, none, some, String, Result, ok, err, ◌>>=◌, ◌>>◌,
  ensure, ok_or, leb, ltb, ◌==◌, if◌then◌else◌,
}
use Prim.Native.String.{◌++◌}
use Prim.Native.Nat.{max}
use ssam.Network.Ipnet.{Ipnet, block}
use ssam.Network.Slots
use ssam.Network.Slots.{SlotAllocator, u32_mod}

pub data PoolError : Type 0 where
  prefix_out_of_range exhausted invalid_subnet wrong_prefix outside_pool : PoolError
  already_claimed : String → PoolError

-- `u32::saturating_add`
abbrev pub saturating_add : ℕ → ℕ → ℕ
saturating_add a b = if ltb (a + b) u32_mod then a + b else u32_mod - 1

module _ (ip : Ipnet) where
  open ip use {Net, prefix_len, network, broadcast, trunc, display}

  -- `validate`, after the base is parsed.
  unfoldable pub validate : Net → ℕ → Bool
  validate pool size = leb (max (prefix_len pool) 1) size && leb size 30

  pub record SubnetAllocator : Type 0 where
    pub pool : Net
    pub subnet_prefix : ℕ
    pub step : ℕ
    pub slots : SlotAllocator

  unfoldable pub new : Net → ℕ → Result PoolError SubnetAllocator
  new pool subnet_prefix = do
    let least = max (prefix_len pool) 1
    ensure (leb least subnet_prefix && leb subnet_prefix 32) prefix_out_of_range
    ok (record {
      pool = pool;
      subnet_prefix = subnet_prefix;
      step = block subnet_prefix;
      slots = Slots.new;
    })

  abbrev pub slot : SubnetAllocator → ℕ → Result PoolError Net
  slot s addr = ok_or (ip.new addr s.subnet_prefix) invalid_subnet

  -- Whether the slot at this address ends inside the pool.
  abbrev pub in_pool : SubnetAllocator → ℕ → Bool
  in_pool s addr = leb (saturating_add addr (s.step - 1)) (broadcast s.pool)

  allocated : Option ℕ × SlotAllocator → SubnetAllocator → Result PoolError Net × SubnetAllocator
  allocated (none, slots) s = (err exhausted, record s { slots = slots })
  allocated (some addr, slots) s = (slot s addr, record s { slots = slots })

  unfoldable pub allocate : SubnetAllocator → String → Result PoolError Net × SubnetAllocator
  unfolding allocated
  allocate s bridge_name =
      allocated (Slots.allocate s.slots bridge_name (network s.pool) s.step (in_pool s)) s

  claimed :
      Option String × SlotAllocator
      → SubnetAllocator
      → Result PoolError (Unit {0}) × SubnetAllocator
  claimed (some owner, slots) s = (err (already_claimed owner), record s { slots = slots })
  claimed (none, slots) s = (ok tt, record s { slots = slots })

  unfoldable pub claim :
      SubnetAllocator → String → Net → Result PoolError (Unit {0}) × SubnetAllocator
  unfolding claimed
  claim s bridge_name subnet =
      let addr = network subnet in
      if prefix_len subnet == s.subnet_prefix
      then if leb (network s.pool) addr && in_pool s addr
        then claimed (Slots.claim s.slots bridge_name addr) s
        else (err outside_pool, s)
      else (err wrong_prefix, s)

  unfoldable pub release : SubnetAllocator → String → SubnetAllocator
  release s bridge_name = record s { slots = Slots.release s.slots bridge_name }

  reserve_slot : Option Net → SubnetAllocator → SubnetAllocator
  reserve_slot none s = s
  reserve_slot (some net) s =
      let slice = trunc net in (claim s ("reserved:" ++ display (network slice)) slice).1

  unfoldable pub reserve_containing : SubnetAllocator → ℕ → SubnetAllocator
  unfolding reserve_slot
  reserve_containing s addr = reserve_slot (ip.new addr s.subnet_prefix) s
