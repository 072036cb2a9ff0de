-- ===== src/Network/Actor/Keeps.antt =====
-- Each step on the actor's state keeps it consistent.
use ssam.Prelude.{
  ◌≡◌, ◌≢◌, refl, sym, ap, subst, ◌∙◌, Bool, true, false, inl, inr, Option, none, some, String, get,
  insert, remove, get-insert_inv, get-insert_self, get-remove_inv, get-remove_ne, Result, ok, err,
  arith, Bool-cases,
}
use ssam.Network.Ipnet.{Ipnet}
use ssam.Network.Slots
use ssam.Network.Slots.Keys
use ssam.Network.Bridge
use ssam.Network.Bridge.{BridgeIpAllocator, AllocError}
use ssam.Network.Bridge.Hosts.{HasHosts}
use ssam.Network.Bridge.Safety
use ssam.Network.Pool
use ssam.Network.Pool.{SubnetAllocator, PoolError}
use ssam.Network.Pool.Slices
use ssam.Network.Pool.Disjoint
use ssam.Network.Actor.{
  Host, NetworkActor, destroy_bridge, destroy_if, release_on, rollback_attach, add_bridge,
  bridge_entry,
}
use ssam.Network.Actor.Consistent.{IsTracked, IsConsistent}

module _ (ip : Ipnet) {H : Type 0} (host : Host ip H) where
  open ip use {Net, prefix_len, network}

  abbrev pub Actor : Type 0
  Actor = NetworkActor ip host

  pub has_hosts :
      (a : Actor) (br : String) (state : BridgeIpAllocator ip)
      → IsConsistent ip host a
      → IsTracked ip a.subnets br state
      → HasHosts ip state.subnet
  has_hosts a br state c t = rw t.prefix c.prefix-le

  -- The pool may change as long as it keeps what it records for the live bridges.
  pub keep-IsTracked :
      (s s' : SubnetAllocator ip) (br : String) (state : BridgeIpAllocator ip)
      → s'.subnet_prefix ≡ s.subnet_prefix
      → get s'.slots.attached br ≡ get s.slots.attached br
      → IsTracked ip s br state
      → IsTracked ip s' br state
  keep-IsTracked s s' br state p k t = record {
    safe = t.safe;
    prefix = t.prefix ∙ sym p;
    recorded = k ∙ t.recorded;
  }

  pub set_bridge-IsConsistent :
      (a : Actor) (br : String) (state state' : BridgeIpAllocator ip)
      → IsConsistent ip host a
      → IsTracked ip a.subnets br state
      → state'.subnet ≡ state.subnet
      → Safety.IsSafe ip state.subnet state'
      → IsConsistent ip host (record a { bridges = insert a.bridges br state' })
  set_bridge-IsConsistent a br state state' c t same safe = record {
    pool = c.pool;
    prefix-le = c.prefix-le;
    tracked = λ j st e. elim (get-insert_inv a.bridges br j state' e) [
      | inr (_, old) ↦ c.tracked j st old
      | inl (name, now) ↦
          subst (λ j. IsTracked ip a.subnets j st) name
            (subst (λ st. IsTracked ip a.subnets br st) now
              (record {
                safe = subst (λ n. Safety.IsSafe ip n state') (sym same) safe;
                prefix = ap prefix_len same ∙ t.prefix;
                recorded = t.recorded ∙ ap (λ n. some (network n)) (sym same);
              }))
    ];
  }

  drop_bridge-IsConsistent :
      (a : Actor) (br : String)
      → IsConsistent ip host a
      → IsConsistent ip host
          (record { subnets = Pool.release ip a.subnets br; bridges = remove a.bridges br })
  unfolding Pool.release Slots.release
  drop_bridge-IsConsistent a br c = record {
    pool = Slices.release-IsSafe ip a.subnets br c.pool;
    prefix-le = c.prefix-le;
    tracked = λ j st e.
        let (other, old) = get-remove_inv a.bridges br j e in
        keep-IsTracked a.subnets (Pool.release ip a.subnets br) j st refl
          (get-remove_ne a.subnets.slots.attached br j other) (c.tracked j st old);
  }

  pub destroy_bridge-IsConsistent :
      (a : Actor) (br : String) (h : H)
      → IsConsistent ip host a
      → IsConsistent ip host (destroy_bridge ip host a br h).0
  unfolding destroy_bridge
  destroy_bridge-IsConsistent a br h c = elim (Bool-cases (host.has_managed_slaves h br)) [
    | inl slaves ↦ rw slaves c
    | inr unused ↦ rw unused (drop_bridge-IsConsistent a br c)
  ]

  pub destroy_if-IsConsistent :
      (d : Bool) (a : Actor) (br : String) (h : H)
      → IsConsistent ip host a
      → IsConsistent ip host (destroy_if ip host d a br h).0
  unfolding destroy_if
  destroy_if-IsConsistent true a br h c = destroy_bridge-IsConsistent a br h c
  destroy_if-IsConsistent false a br h c = c

  release_on-IsConsistent :
      (o : Option (BridgeIpAllocator ip)) (a : Actor) (br veth : String) (h : H)
      → get a.bridges br ≡ o
      → IsConsistent ip host a
      → IsConsistent ip host (release_on ip host o a br veth h).0
  unfolding release_on Bridge.release
  release_on-IsConsistent none a br veth h e c = c
  release_on-IsConsistent (some state) a br veth h e c =
      let t = c.tracked br state e in
      destroy_if-IsConsistent _ _ br h (
        set_bridge-IsConsistent a br state (Bridge.release ip state veth) c t refl
          (Safety.release-IsSafe ip state.subnet (has_hosts a br state c t) state veth t.safe))

  pub rollback_attach-IsConsistent :
      (a : Actor) (br veth : String) (h : H)
      → IsConsistent ip host a
      → IsConsistent ip host (rollback_attach ip host a br veth h).0
  unfolding rollback_attach
  rollback_attach-IsConsistent a br veth h c =
      release_on-IsConsistent (get a.bridges br) a br veth h refl c

  -- A subnet taken for a bridge that is not live changes nothing for those that are.
  pool_only-IsConsistent :
      (a : Actor) (br : String)
      → get a.bridges br ≡ none
      → IsConsistent ip host a
      → IsConsistent ip host (record a { subnets = (Pool.allocate ip a.subnets br).1 })
  pool_only-IsConsistent a br free c =
      let taken = Slices.slots-allocate ip a.subnets br in
      record {
        pool = Slices.allocate-IsSafe ip a.subnets br c.pool;
        prefix-le = rw taken c.prefix-le;
        tracked = λ j st e.
            let other : br ≢ j = λ same. cc (ap (get a.bridges) same) in
            keep-IsTracked a.subnets (Pool.allocate ip a.subnets br).1 j st
              (ap (λ s. s.subnet_prefix) taken)
              (ap (λ s. get s.slots.attached j) taken
                ∙ Keys.allocate_others a.subnets.slots br _ _ _ j other)
              (c.tracked j st e);
      }

  new_bridge-IsConsistent :
      (a : Actor) (br : String) (n : Net)
      → get a.bridges br ≡ none
      → (Pool.allocate ip a.subnets br).0 ≡ ok n
      → IsConsistent ip host a
      → IsConsistent ip host (record {
        subnets = (Pool.allocate ip a.subnets br).1;
        bridges = insert a.bridges br (Bridge.new ip n);
      })
  unfolding Bridge.new
  new_bridge-IsConsistent a br n free e c =
      let base = pool_only-IsConsistent a br free c in
      let (prefix, slice, held) = Disjoint.allocate-IsSlice ip a.subnets br c.pool e in
      let same_prefix = ap (λ s. s.subnet_prefix) (Slices.slots-allocate ip a.subnets br) in
      let t : IsTracked ip (Pool.allocate ip a.subnets br).1 br (Bridge.new ip n) = record {
        safe = Safety.new-IsSafe ip n (rw prefix c.prefix-le);
        prefix = prefix ∙ sym same_prefix;
        recorded = held;
      } in
      set_bridge-IsConsistent (record a { subnets = (Pool.allocate ip a.subnets br).1 }) br
        (Bridge.new ip n) (Bridge.new ip n) base t refl t.safe

  add_bridge-IsConsistent :
      (r : Result PoolError Net) (a : Actor) (br : String)
      → get a.bridges br ≡ none
      → (Pool.allocate ip a.subnets br).0 ≡ r
      → IsConsistent ip host a
      → let added = add_bridge ip host (r, (Pool.allocate ip a.subnets br).1) a br in
        IsConsistent ip host added.1
        × ((state : BridgeIpAllocator ip)
            → added.0 ≡ ok state
            → get added.1.bridges br ≡ some state)
  unfolding add_bridge
  add_bridge-IsConsistent (err x) a br free e c =
      (pool_only-IsConsistent a br free c, λ state same. cc)
  add_bridge-IsConsistent (ok n) a br free e c = (
    new_bridge-IsConsistent a br n free e c,
    λ state same. ground (arith, get-insert_self a.bridges br (Bridge.new ip n)),
  )

  pub bridge_entry-IsConsistent :
      (o : Option (BridgeIpAllocator ip)) (a : Actor) (br : String)
      → get a.bridges br ≡ o
      → IsConsistent ip host a
      → IsConsistent ip host (bridge_entry ip host o a br).1
        × ((state : BridgeIpAllocator ip)
            → (bridge_entry ip host o a br).0 ≡ ok state
            → get (bridge_entry ip host o a br).1.bridges br ≡ some state)
  unfolding bridge_entry
  bridge_entry-IsConsistent (some s) a br e c = (c, λ state same. ground arith)
  bridge_entry-IsConsistent none a br e c =
      add_bridge-IsConsistent (Pool.allocate ip a.subnets br).0 a br e refl c
