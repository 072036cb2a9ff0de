-- ===== src/Network/Actor/Consistent.antt =====
-- The invariant of the actor: each live bridge hands out addresses of the subnet that the pool
-- records for it.
use ssam.Prelude.{
  ℕ, ◌+◌, ◌≤◌, ◌≡◌, sym, ap, subst, inl, inr, some, String, get, arith, str_eq-cases,
}
use ssam.Network.Ipnet.{Ipnet, block}
use ssam.Network.Bridge.{BridgeIpAllocator, ip_for}
use ssam.Network.Bridge.Safety
use ssam.Network.Pool.{SubnetAllocator}
use ssam.Network.Pool.Slices
use ssam.Network.Pool.Disjoint.{subnets_disjoint}
use ssam.Network.Actor.{Host, NetworkActor}

-- What the pool and the bridge agree on.
pub record IsTracked (ip : Ipnet) (subnets : SubnetAllocator ip) (br : String)
    (state : BridgeIpAllocator ip) : Type 0 where
  pub safe : Safety.IsSafe ip state.subnet state
  pub prefix : ip.prefix_len state.subnet ≡ subnets.subnet_prefix
  pub recorded : get subnets.slots.attached br ≡ some (ip.network state.subnet)

module _ (ip : Ipnet) {H : Type 0} (host : Host ip H) where
  open ip use {Net, prefix_len, network, broadcast, broadcast_lem}

  pub record IsConsistent (a : NetworkActor ip host) : Type 0 where
    pub pool : Slices.IsSafe ip a.subnets
    pub prefix-le : a.subnets.subnet_prefix ≤ 30
    pub tracked :
        (br : String) (state : BridgeIpAllocator ip)
        → get a.bridges br ≡ some state
        → IsTracked ip a.subnets br state

  -- No address is attached twice: two attachments of one address are the same bridge and the same
  -- veth.
  pub addresses_unique :
      (a : NetworkActor ip host) (br br' veth veth' : String) (s s' : BridgeIpAllocator ip) (x : ℕ)
      → IsConsistent a
      → get a.bridges br ≡ some s
      → get a.bridges br' ≡ some s'
      → ip_for ip s veth ≡ some x
      → ip_for ip s' veth' ≡ some x
      → (br ≡ br') × (veth ≡ veth')
  addresses_unique a br br' veth veth' s s' x c es es' ex ex' =
      let t = c.tracked br s es in
      let t' = c.tracked br' s' es' in
      elim (str_eq-cases br br') [
        | inl (same, _) ↦
            let e : s ≡ s' = cc (ap (get a.bridges) same) in
            let ex_s : ip_for ip s veth' ≡ some x =
              subst (λ (t : BridgeIpAllocator ip). ip_for ip t veth' ≡ some x) (sym e) ex' in
            (same, t.safe.sound.exclusive veth veth' x ex ex_s)
        | inr (other, _) ↦
            let h = t.safe.hosts veth x ex in
            let h' = t'.safe.hosts veth' x ex' in
            let apart =
              subnets_disjoint ip a.subnets br br' _ _ c.pool t.recorded t'.recorded other in
            let ends : broadcast s.subnet + 1 ≡ network s.subnet + block a.subnets.subnet_prefix =
              rw t.prefix at (broadcast_lem s.subnet) in
            let ends' : broadcast s'.subnet + 1
                ≡ network s'.subnet + block a.subnets.subnet_prefix =
              rw t'.prefix at (broadcast_lem s'.subnet) in
            absurd (omega (arith, apart, ends, ends', h.above, h.below, h'.above, h'.below))
      ]
