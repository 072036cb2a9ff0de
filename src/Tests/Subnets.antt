-- ===== src/Tests/Subnets.antt =====
-- The theorems on one bridge's addresses at 10.0.0.0/30, which has two hosts, and those on the pool
-- at 10.0.0.0/16 with subnets of /29.
use ssam.Prelude.{
  ℕ, ◌+◌, ◌≤◌, ◌≡◌, refl, ap, true, false, ◌⊎◌, some, List, [], ◌∷◌, HashMap, get, insert, remove,
  ok, arith, str_eq,
}
use ssam.Network.Ipnet.{block}
use ssam.Network.Slots
use ssam.Network.Slots.{holds, find_free}
use ssam.Network.Slots.Search.{find_free-none}
use ssam.Network.Bridge
use ssam.Network.Bridge.{BridgeIpAllocator, no_free_host, ip_for}
use ssam.Network.Bridge.Hosts.{IsLowestFree, allocate_lowest}
use ssam.Network.Bridge.Safety
use ssam.Network.Bridge.Safety.{Call, allocate_call, claim_call, release_call}
use ssam.Network.Pool
use ssam.Network.Pool.{SubnetAllocator}
use ssam.Network.Pool.Slices
use ssam.Network.Pool.Slices.{IsSlice}
use ssam.Network.Pool.Disjoint.{allocate-IsSlice, validate-new}
use ssam.Network.Pool.Runs
use ssam.Network.Pool.Runs.{run_disjoint}
use ssam.Tests.Ipv4.{Cidr, cidr, ten}
use ssam.Tests.Addresses.{pool, pool_new}

abbrev calls : List Call
calls =
    allocate_call "ssam-1"
    ∷ allocate_call "ssam-2"
    ∷ release_call "ssam-1"
    ∷ claim_call "ssam-9" 0x0a000003
    ∷ []

run-IsSafe_example : Safety.IsSafe cidr (ten 30) (Safety.run cidr calls (Bridge.new cidr (ten 30)))
run-IsSafe_example = Safety.run-IsSafe cidr (ten 30) (omega arith) calls

abbrev one_held : BridgeIpAllocator cidr
one_held = Safety.run cidr (allocate_call "ssam-2" ∷ []) (Bridge.new cidr (ten 30))

allocate_lowest_example :
    IsLowestFree cidr one_held 0x0a000002
    × (ip_for cidr (Bridge.allocate cidr one_held "ssam-1").1 "ssam-1" ≡ some 0x0a000002)
unfolding Safety.run Safety.apply Bridge.allocate Bridge.new Slots.allocate Slots.find_free
    Slots.holds Slots.new get insert
allocate_lowest_example =
    allocate_lowest cidr one_held "ssam-1" {a = 0x0a000002} (omega arith)
      (Safety.run-IsSafe cidr (ten 30) (omega arith) (allocate_call "ssam-2" ∷ [])).sound refl refl

abbrev two_bridges : SubnetAllocator cidr
two_bridges = (Pool.allocate cidr (Pool.allocate cidr pool "ssb-a").1 "ssb-b").1

two_bridges-IsSafe : Slices.IsSafe cidr two_bridges
two_bridges-IsSafe =
    Slices.allocate-IsSafe cidr (Pool.allocate cidr pool "ssb-a").1 "ssb-b"
      (Slices.allocate-IsSafe cidr pool "ssb-a" (Slices.new-IsSafe cidr (ten 16) 29 pool_new))

-- One subnet is reserved, one is allocated before it is released, and one is claimed.
abbrev pool_calls : List (Runs.Call cidr)
pool_calls =
    Runs.reserve_call 0x0a000001
    ∷ Runs.allocate_call "ssb-a"
    ∷ Runs.claim_call "ssb-b" (record { base = 0x0a000010; bits = 29 })
    ∷ Runs.release_call "ssb-a"
    ∷ Runs.allocate_call "ssb-c"
    ∷ []

run_disjoint_example :
    ((0x0a000008 + block 29 ≤ 0x0a000010) ⊎ (0x0a000010 + block 29 ≤ 0x0a000008))
    × (0x0a000000 ≤ 0x0a000008)
    × (0x0a000008 + block 29 ≤ 0x0a00ffff + 1)
unfolding Runs.run Runs.apply Pool.allocate Pool.claim Pool.release Pool.reserve_containing
    Slots.allocate Slots.claim Slots.find_owner Slots.release Slots.find_free Slots.holds get insert
    remove
run_disjoint_example =
    run_disjoint cidr (ten 16) 29 pool pool_calls "ssb-c" "ssb-b" 0x0a000008 0x0a000010 pool_new
      refl refl (λ e. let same : true ≡ false = ap (λ k. str_eq k "ssb-c") e in cc)

abbrev third : Cidr
third = record { base = 0x0a000010; bits = 29 }

allocate-IsSlice_example :
    (two_bridges.subnet_prefix ≡ 29)
    × IsSlice cidr (ten 16) 29 0x0a000010
    × (get (Pool.allocate cidr two_bridges "ssb-c").1.slots.attached "ssb-c" ≡ some 0x0a000010)
unfolding Pool.allocate Slots.allocate Slots.find_free Slots.holds get insert
allocate-IsSlice_example =
    allocate-IsSlice cidr two_bridges "ssb-c" {n = third} two_bridges-IsSafe refl

validate-new_example :
    (s : SubnetAllocator cidr) × (Pool.new cidr (ten 16) 29 ≡ ok s)
    × (s.subnet_prefix ≡ 29)
    × (29 ≤ 30)
unfolding Pool.validate
validate-new_example = validate-new cidr (ten 16) 29 refl

abbrev held : HashMap ℕ
held = ("ssam-1", 4294967294) ∷ ("ssam-2", 4294967295) ∷ []

find_free-none_example : holds held 4294967295 ≡ true
unfolding find_free holds
find_free-none_example =
    find_free-none 3 held 1 (λ c. true) 4294967294 1 (omega arith) (omega arith) refl (omega arith)
      (λ j l. refl)
