-- ===== src/Network/Restore.antt =====
-- The rebuilding of the actor's state from the host when the daemon starts (`apply_restore_plan`,
-- `claim_restored_attach` and `reserve_ip` of ssamd/src/network/actor.rs; the entries are those of
-- ssamd/src/network/actor/restore.rs).
pub mod Plan
pub mod Divergence
pub mod Scan
use ssam.Prelude.{ℕ, Option, none, some, List, [], ◌∷◌, String, get, insert, Result, ok, err}
use ssam.Network.Ipnet.{Ipnet}
use ssam.Network.Bridge
use ssam.Network.Bridge.{BridgeIpAllocator}
use ssam.Network.Pool
use ssam.Network.Pool.{SubnetAllocator, PoolError}
use ssam.Network.Actor.{Host, NetworkActor}

pub record RestoredAttach (ip : Ipnet) : Type 0 where
  pub br : String
  pub subnet : ip.Net
  pub veth : String
  pub addr : ℕ

pub record ReservedIp : Type 0 where
  pub addr : ℕ
  pub veth : String
  pub master : Option String

pub data RestoreEntry (ip : Ipnet) : Type 0 where
  attach : RestoredAttach ip → RestoreEntry ip
  reserve_ip_entry : ReservedIp → RestoreEntry ip

module _ (ip : Ipnet) {H : Type 0} (host : Host ip H) where
  open ip use {Net}

  -- `entry(br).or_insert_with(...)`
  abbrev pub or_new : Option (BridgeIpAllocator ip) → Net → BridgeIpAllocator ip
  or_new none subnet = Bridge.new ip subnet
  or_new (some state) subnet = state

  -- A claim that fails is only logged.
  claim_on :
      Result PoolError (Unit {0}) × SubnetAllocator ip
      → NetworkActor ip host
      → RestoredAttach ip
      → NetworkActor ip host
  claim_on (err e, subnets) a att = record a { subnets = subnets }
  claim_on (ok _, subnets) a att =
      let state = or_new (get a.bridges att.br) att.subnet in
      record {
        subnets = subnets;
        bridges = insert a.bridges att.br (Bridge.claim ip state att.veth att.addr).1;
      }

  unfoldable pub claim_restored_attach :
      NetworkActor ip host → RestoredAttach ip → NetworkActor ip host
  unfolding claim_on
  claim_restored_attach a att = claim_on (Pool.claim ip a.subnets att.br att.subnet) a att

  reserve_pool : NetworkActor ip host → ℕ → NetworkActor ip host
  reserve_pool a addr = record a { subnets = Pool.reserve_containing ip a.subnets addr }

  reserve_on :
      Option (BridgeIpAllocator ip)
      → NetworkActor ip host
      → String
      → ReservedIp
      → NetworkActor ip host
  unfolding reserve_pool
  reserve_on none a br r = reserve_pool a r.addr
  reserve_on (some state) a br r = record a {
    bridges = insert a.bridges br (Bridge.claim ip state r.veth r.addr).1;
  }

  reserve_master : Option String → NetworkActor ip host → ReservedIp → NetworkActor ip host
  unfolding reserve_on reserve_pool
  reserve_master none a r = reserve_pool a r.addr
  reserve_master (some br) a r = reserve_on (get a.bridges br) a br r

  unfoldable pub reserve_ip : NetworkActor ip host → ReservedIp → NetworkActor ip host
  unfolding reserve_master
  reserve_ip a r = reserve_master r.master a r

  -- The attachments first, in order, then the reservations.
  unfoldable pub claim_attaches :
      List (RestoreEntry ip) → NetworkActor ip host → NetworkActor ip host
  claim_attaches [] a = a
  claim_attaches (attach att ∷ plan) a = claim_attaches plan (claim_restored_attach a att)
  claim_attaches (reserve_ip_entry r ∷ plan) a = claim_attaches plan a

  unfoldable pub reserve_all : List (RestoreEntry ip) → NetworkActor ip host → NetworkActor ip host
  reserve_all [] a = a
  reserve_all (attach att ∷ plan) a = reserve_all plan a
  reserve_all (reserve_ip_entry r ∷ plan) a = reserve_all plan (reserve_ip a r)

  unfoldable pub apply_restore_plan :
      NetworkActor ip host → List (RestoreEntry ip) → NetworkActor ip host
  unfolding claim_attaches reserve_all
  apply_restore_plan a plan = reserve_all plan (claim_attaches plan a)
