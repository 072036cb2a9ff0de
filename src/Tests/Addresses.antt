-- ===== src/Tests/Addresses.antt =====
-- The network theorems at a pool 10.0.0.0/16 with subnets of /29, over a host where every call
-- succeeds.
use ssam.Prelude.{
  ℕ, ◌+◌, ◌≤◌, ◌<◌, ◌≡◌, ◌≢◌, refl, Bool, true, false, ◌⊎◌, inl, inr, Option, none, some, List, [],
  ◌∷◌, String, HashMap, get, Result, ok, err, arith,
}
use ssam.Network.Slots
use ssam.Network.Slots.{holds, find_free}
use ssam.Network.Bridge
use ssam.Network.Bridge.{BridgeIpAllocator, no_free_host, ip_for}
use ssam.Network.Pool
use ssam.Network.Pool.{SubnetAllocator}
use ssam.Network.Actor
use ssam.Network.Actor.{Host, NetworkActor}
use ssam.Network.Actor.Requests
use ssam.Network.Actor.Requests.{attach, detach}
use ssam.Tests.Ipv4.{cidr, ten}

abbrev pub quiet : Host cidr (Unit {0})
quiet = record {
  veth_and_netns = λ h v. false;
  delete = λ v h. (none, h);
  run_setup = λ br v n a h. (none, h);
  has_managed_slaves = λ h br. false;
  valid_interface = λ i. true;
  netns_path_utf8 = λ v. true;
}

abbrev pub pool : SubnetAllocator cidr
pool = record { pool = ten 16; subnet_prefix = 29; step = 8; slots = record { attached = [] } }

pub pool_new : Pool.new cidr (ten 16) 29 ≡ ok pool
unfolding Pool.new Slots.new
pool_new = refl

abbrev pub messages : List (Requests.Message cidr quiet)
messages =
    attach "ssb-a" "ssam-1" "eth0"
    ∷ attach "ssb-b" "ssam-2" "eth0"
    ∷ attach "ssb-a" "ssam-3" "eth0"
    ∷ detach "ssb-a" "ssam-1"
    ∷ []

abbrev on_a : BridgeIpAllocator cidr
on_a = record { subnet = ten 29; slots = record { attached = ("ssam-3", 0x0a000002) ∷ [] } }

handled-addresses_unique_example :
    ◌≡◌ {A = String} "ssb-a" "ssb-a" × ◌≡◌ {A = String} "ssam-3" "ssam-3"
unfolding Requests.handle_all Requests.handle Actor.handle_attach Actor.adopt_existing
    Actor.allocate_container_ip Actor.handle_detach Actor.rollback_attach Actor.destroy_bridge
    Pool.allocate Pool.release Bridge.allocate Bridge.new Bridge.release Slots.allocate
    Slots.release Slots.find_free Slots.holds Slots.new ssam.Prelude.get ssam.Prelude.insert
    ssam.Prelude.remove
handled-addresses_unique_example =
    Requests.handled-addresses_unique cidr quiet (ten 16) 29 pool tt messages "ssb-a" "ssb-a"
      "ssam-3" "ssam-3" on_a on_a 0x0a000002 pool_new (omega arith) refl refl refl refl
