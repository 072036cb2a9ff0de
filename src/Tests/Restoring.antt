-- ===== src/Tests/Restoring.antt =====
-- The theorems on the actor and on the restoring of its state, over the host of the address tests.
use ssam.Prelude.{◌≡◌, ◌≢◌, refl, some, [], ◌∷◌, String, get, insert, ok, arith}
use ssam.Network.Slots
use ssam.Network.Bridge
use ssam.Network.Bridge.{BridgeIpAllocator}
use ssam.Network.Pool
use ssam.Network.Actor
use ssam.Network.Actor.{NetworkActor}
use ssam.Network.Actor.Consistent.{IsConsistent}
use ssam.Network.Actor.Messages.{IsAttached, handle_attach-Attaches}
use ssam.Network.Actor.Requests
use ssam.Network.Actor.Requests.{attach, handled, handle_all-IsConsistent, new-IsConsistent}
use ssam.Network.Restore.{RestoredAttach, ReservedIp, claim_restored_attach, reserve_ip}
use ssam.Network.Restore.Plan.{claim_restored_attach-IsConsistent}
use ssam.Network.Restore.Divergence.{claim_restored_attach_diverges, reserve_ip_lost}
use ssam.Network.Restore.Scan.{ScanHost, collect_restore_plan}
use ssam.Network.Restore.Scan.Meant.{AllMeant, collect_restore_plan-AllMeant}
use ssam.Tests.Ipv4.{cidr, ten}
use ssam.Tests.Addresses.{quiet, pool, pool_new}

abbrev empty : NetworkActor cidr quiet
empty = record { subnets = pool; bridges = [] }

empty-IsConsistent : IsConsistent cidr quiet empty
empty-IsConsistent = new-IsConsistent cidr quiet (ten 16) 29 pool_new (omega arith)

handle_attach-Attaches_example :
    IsConsistent cidr quiet (Actor.handle_attach cidr quiet empty "ssb-a" "ssam-1" "eth0" tt).1
    × ((Actor.handle_attach cidr quiet empty "ssb-a" "ssam-1" "eth0" tt).0 ≡ ok tt
        → IsAttached cidr quiet
            (Actor.handle_attach cidr quiet empty "ssb-a" "ssam-1" "eth0" tt).1
            "ssb-a"
            "ssam-1")
handle_attach-Attaches_example =
    handle_attach-Attaches cidr quiet empty "ssb-a" "ssam-1" "eth0" tt empty-IsConsistent

-- One attachment: `ssam-1` holds 10.0.0.1 on `ssb-a`, whose subnet is 10.0.0.0/29.
abbrev live : NetworkActor cidr quiet
live = handled cidr quiet pool tt (attach "ssb-a" "ssam-1" "eth0" ∷ [])

live-IsConsistent : IsConsistent cidr quiet live
live-IsConsistent =
    handle_all-IsConsistent cidr quiet (attach "ssb-a" "ssam-1" "eth0" ∷ []) (empty, tt)
      empty-IsConsistent

abbrev on_bridge : BridgeIpAllocator cidr
on_bridge = record { subnet = ten 29; slots = record { attached = ("ssam-1", 0x0a000001) ∷ [] } }

live_bridge : get live.bridges "ssb-a" ≡ some on_bridge
unfolding Requests.handle_all Requests.handle Actor.handle_attach Actor.adopt_existing
    Actor.allocate_container_ip Pool.allocate Bridge.allocate Bridge.new Slots.allocate
    Slots.find_free Slots.holds Slots.new get insert
live_bridge = refl

abbrev same_subnet : RestoredAttach cidr
same_subnet = record { br = "ssb-a"; subnet = ten 29; veth = "ssam-2"; addr = 0x0a000002 }

claim_restored_attach-IsConsistent_example :
    IsConsistent cidr quiet (claim_restored_attach cidr quiet live same_subnet)
unfolding Requests.handle_all Requests.handle Actor.handle_attach Actor.adopt_existing
    Actor.allocate_container_ip Pool.allocate Bridge.allocate Bridge.new Slots.allocate
    Slots.find_free Slots.holds Slots.new get insert
claim_restored_attach-IsConsistent_example =
    claim_restored_attach-IsConsistent cidr quiet live same_subnet live-IsConsistent
      (λ state e. ground arith)

-- The bridge was given another address between two runs of the daemon.
abbrev other_subnet : RestoredAttach cidr
other_subnet = record {
  br = "ssb-a";
  subnet = record { base = 0x0a000008; bits = 29 };
  veth = "ssam-2";
  addr = 0x0a000009;
}

claim_restored_attach_diverges_example :
    ((i : String)
      → get (claim_restored_attach cidr quiet live other_subnet).subnets.slots.attached i
        ≢ some 0x0a000000)
    × ((st : BridgeIpAllocator cidr) × (get
            (claim_restored_attach cidr quiet live other_subnet).bridges
            "ssb-a"
          ≡ some st)
        × (st.subnet ≡ ten 29))
    × ¬ IsConsistent cidr quiet (claim_restored_attach cidr quiet live other_subnet)
unfolding Requests.handle_all Requests.handle Actor.handle_attach Actor.adopt_existing
    Actor.allocate_container_ip Pool.allocate Pool.claim Bridge.allocate Bridge.new Slots.allocate
    Slots.claim Slots.find_owner Slots.find_free Slots.holds Slots.new get insert
claim_restored_attach_diverges_example =
    claim_restored_attach_diverges cidr quiet live other_subnet on_bridge live-IsConsistent
      live_bridge (λ e. omega (arith, e)) refl

abbrev reserved : ReservedIp
reserved = record { addr = 0x0a000011; veth = "ssam-7"; master = some "ssb-a" }

reserve_ip_lost_example :
    ((reserve_ip cidr quiet live reserved).subnets ≡ live.subnets)
    × ((j : String) → get (reserve_ip cidr quiet live reserved).bridges j ≡ get live.bridges j)
reserve_ip_lost_example =
    reserve_ip_lost cidr quiet live reserved "ssb-a" on_bridge refl live_bridge refl

-- Each namespace has 10.0.0.5/29 on `ssb-a`.
abbrev scan_host : ScanHost
scan_host = record {
  read_netns_dir = some ("ssam-1" ∷ "other" ∷ []);
  dump_addresses = λ name. ok ((29, some 0x0a000005 ∷ []) ∷ []);
  enslaving_bridge = λ name. ok (some "ssb-a");
}

collect_restore_plan-AllMeant_example :
    AllMeant cidr scan_host (ten 16) 29 (collect_restore_plan cidr scan_host (ten 16) 29)
collect_restore_plan-AllMeant_example =
    collect_restore_plan-AllMeant cidr scan_host (ten 16) 29 (λ name. ((omega arith, tt), tt))
