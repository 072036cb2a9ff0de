-- ===== src/Network/Restore/Divergence.antt =====
-- An entry for a live bridge with another subnet: the pool forgets the subnet that the bridge uses.
-- A reservation on a live bridge outside of its subnet: nothing is reserved.
use ssam.Prelude.{
  ℕ, ◌≡◌, ◌≢◌, refl, sym, ap, ◌∙◌, false, inl, inr, some, String, HashMap, get, insert,
  get-insert_self, get-insert_inv, get-insert_held, ok, arith,
}
use ssam.Network.Ipnet.{Ipnet}
use ssam.Network.Bridge
use ssam.Network.Bridge.{BridgeIpAllocator, usable_host, not_usable_host}
use ssam.Network.Bridge.Safety
use ssam.Network.Pool
use ssam.Network.Actor.{Host, NetworkActor}
use ssam.Network.Actor.Consistent.{IsConsistent}
use ssam.Network.Actor.Keeps.{has_hosts}
use ssam.Network.Restore.{
  RestoredAttach, ReservedIp, claim_on, claim_restored_attach, reserve_on, reserve_master,
  reserve_ip,
}
use ssam.Network.Restore.Plan.{claim_ok}

-- A key that only `k` held is held by nobody once `k` holds another.
replaced :
    (m : HashMap ℕ) (k i : String) (x y : ℕ)
    → ((j : String) → get m j ≡ some y → k ≡ j)
    → y ≢ x
    → get (insert m k x) i ≡ some y
    → ⊥
replaced m k i x y only other held = elim (get-insert_inv m k i x held) [
  | inl (_, same) ↦ other (sym same)
  | inr (apart, old) ↦ apart (only i old)
]

module _ (ip : Ipnet) {H : Type 0} (host : Host ip H) where
  open ip use {Net, prefix_len, network}

  restored :
      (a : NetworkActor ip host) (att : RestoredAttach ip) (state : BridgeIpAllocator ip)
      → get a.bridges att.br ≡ some state
      → (Pool.claim ip a.subnets att.br att.subnet).0 ≡ ok tt
      → claim_restored_attach ip host a att ≡ record {
        subnets = (Pool.claim ip a.subnets att.br att.subnet).1;
        bridges = insert a.bridges att.br (Bridge.claim ip state att.veth att.addr).1;
      }
  unfolding claim_restored_attach
  restored a att state e done = rw (done, claim_on, e)

  -- If the pool grants a live bridge a subnet other than its own, then no bridge of the pool holds the
  -- subnet that the bridge goes on handing out, and the actor is no longer consistent.
  pub claim_restored_attach_diverges :
      (a : NetworkActor ip host) (att : RestoredAttach ip) (state : BridgeIpAllocator ip)
      → IsConsistent ip host a
      → get a.bridges att.br ≡ some state
      → network state.subnet ≢ network att.subnet
      → (Pool.claim ip a.subnets att.br att.subnet).0 ≡ ok tt
      → let a' = claim_restored_attach ip host a att in
        ((i : String) → get a'.subnets.slots.attached i ≢ some (network state.subnet))
        × ((st : BridgeIpAllocator ip) × (get a'.bridges att.br ≡ some st)
            × (st.subnet ≡ state.subnet))
        × ¬ IsConsistent ip host a'
  claim_restored_attach_diverges a att state c e other done =
      let t = c.tracked att.br state e in
      let safe =
        Safety.claim-IsSafe ip state.subnet (has_hosts ip host a att.br state c t) state att.veth
          att.addr t.safe in
      let forgotten : (i : String)
          → get (Pool.claim ip a.subnets att.br att.subnet).1.slots.attached i
            ≢ some (network state.subnet) =
        λ i held.
          let was =
            sym (
              ap (λ s. get s.slots.attached i)
                (claim_ok ip host a.subnets att.br att.subnet done).1)
            ∙ held in
          replaced a.subnets.slots.attached att.br i _ _
            (λ j. c.pool.sound.exclusive att.br j (network state.subnet) t.recorded) other was in
      let live = get-insert_self a.bridges att.br (Bridge.claim ip state att.veth att.addr).1 in
      rw (restored a att state e done) (
        forgotten,
        ((Bridge.claim ip state att.veth att.addr).1, live, safe.same_subnet),
        λ c'. forgotten att.br (
            (c'.tracked att.br (Bridge.claim ip state att.veth att.addr).1 live).recorded
            ∙ ap (λ n. some (network n)) safe.same_subnet),
      )

  refused :
      (state : BridgeIpAllocator ip) (veth : String) (addr : ℕ)
      → usable_host ip state.subnet addr ≡ false
      → (Bridge.claim ip state veth addr).1 ≡ state
  unfolding Bridge.claim
  refused state veth addr out = ground arith

  -- An address outside of the host addresses of the live bridge that is named as its master is not
  -- reserved: every lookup in the pool and on the bridges is as before.
  pub reserve_ip_lost :
      (a : NetworkActor ip host) (r : ReservedIp) (br : String) (state : BridgeIpAllocator ip)
      → r.master ≡ some br
      → get a.bridges br ≡ some state
      → usable_host ip state.subnet r.addr ≡ false
      → let a' = reserve_ip ip host a r in
        (a'.subnets ≡ a.subnets) × ((j : String) → get a'.bridges j ≡ get a.bridges j)
  unfolding reserve_ip
  reserve_ip_lost a r br state m e out =
      let kept = refused state r.veth r.addr out in
      rw (m, reserve_master)
        (rw (e, reserve_on) (rw kept (refl, λ j. get-insert_held a.bridges br j state e)))
