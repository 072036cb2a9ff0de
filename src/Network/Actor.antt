-- ===== src/Network/Actor.antt =====
-- `NetworkActor` of ssamd/src/network/actor.rs: the bridges that are live, the subnet of each and the
-- addresses on it. The host's links and namespaces are the parameter `Host`.
pub mod Consistent
pub mod Keeps
pub mod Messages
pub mod Requests
use ssam.Prelude.{
  ℕ, Bool, true, false, not, ◌&&◌, ◌||◌, Option, none, some, List, [], ◌∷◌, ◌++◌, String, HashMap,
  get, insert, remove, Result, ok, err, if◌then◌else◌,
}
use ssam.Network.Ipnet.{Ipnet}
use ssam.Network.Bridge
use ssam.Network.Bridge.{BridgeIpAllocator, AllocError}
use ssam.Network.Pool
use ssam.Network.Pool.{SubnetAllocator, PoolError}

-- What the handlers ask of the host, in a state `H` that links, namespaces and netavark change.
pub record Host (ip : Ipnet) (H : Type 0) : Type 0 where
  -- `link::exists(veth) && ns_path.exists()`
  pub veth_and_netns : H → String → Bool
  -- `link::delete`: the error, if there is one.
  pub delete : String → H → Option String × H
  -- netavark's setup for a veth on a bridge: an error or a panic.
  pub run_setup : String → String → ip.Net → ℕ → H → Option String × H
  -- `bridge_has_managed_slaves`
  pub has_managed_slaves : H → String → Bool
  -- `validate_interface_name` of the container's interface, and whether the netns path is UTF-8.
  pub valid_interface : String → Bool
  pub netns_path_utf8 : String → Bool

pub data AttachError : Type 0 where
  invalid_interface bridge_untracked address_untracked path_not_utf8 : AttachError
  no_subnet : PoolError → AttachError
  no_address : AllocError → AttachError
  setup_failed : String → AttachError

module _ (ip : Ipnet) {H : Type 0} (host : Host ip H) where
  open ip use {Net}
  open host use {
    veth_and_netns, delete, run_setup, has_managed_slaves, valid_interface, netns_path_utf8,
  }

  pub record NetworkActor : Type 0 where
    pub subnets : SubnetAllocator ip
    pub bridges : HashMap (BridgeIpAllocator ip)

  -- A link that cannot be removed is only logged.
  unfoldable pub destroy_bridge : NetworkActor → String → H → NetworkActor × H
  destroy_bridge a br h = if has_managed_slaves h br then (a, h) else (
    record { subnets = Pool.release ip a.subnets br; bridges = remove a.bridges br },
    (delete br h).1,
  )

  pub destroy_if : Bool → NetworkActor → String → H → NetworkActor × H
  destroy_if true a br h = destroy_bridge a br h
  destroy_if false a br h = (a, h)

  release_on : Option (BridgeIpAllocator ip) → NetworkActor → String → String → H → NetworkActor × H
  unfolding destroy_if
  release_on none a br veth h = (a, h)
  release_on (some state) a br veth h =
      let state' = Bridge.release ip state veth in
      destroy_if (Bridge.is_empty ip state') (record a { bridges = insert a.bridges br state' }) br
        h

  -- Both `rollback_attach` and the success branch of `handle_detach`.
  unfoldable pub rollback_attach : NetworkActor → String → String → H → NetworkActor × H
  unfolding release_on
  rollback_attach a br veth h = release_on (get a.bridges br) a br veth h

  -- `Entry::Vacant`: a subnet of the pool for a new bridge.
  add_bridge :
      Result PoolError Net × SubnetAllocator ip
      → NetworkActor
      → String
      → Result PoolError (BridgeIpAllocator ip) × NetworkActor
  add_bridge (err e, subnets) a br = (err e, record a { subnets = subnets })
  add_bridge (ok subnet, subnets) a br =
      let state = Bridge.new ip subnet in
      (ok state, record { subnets = subnets; bridges = insert a.bridges br state })

  pub bridge_entry :
      Option (BridgeIpAllocator ip)
      → NetworkActor
      → String
      → Result PoolError (BridgeIpAllocator ip) × NetworkActor
  unfolding add_bridge
  bridge_entry (some state) a br = (ok state, a)
  bridge_entry none a br = add_bridge (Pool.allocate ip a.subnets br) a br

  -- The address on the bridge, and the undoing of a bridge that was made for it.
  address_on :
      Result AllocError ℕ × BridgeIpAllocator ip
      → Bool
      → NetworkActor
      → String
      → H
      → Result AttachError (Net × ℕ) × NetworkActor × H
  unfolding destroy_if
  address_on (ok addr, state) created a br h =
      (ok (state.subnet, addr), record a { bridges = insert a.bridges br state }, h)
  address_on (err e, state) created a br h =
      let (a', h') = destroy_if created (record a { bridges = insert a.bridges br state }) br h in
      (err (no_address e), a', h')

  allocate_on :
      Result PoolError (BridgeIpAllocator ip) × NetworkActor
      → Bool
      → String
      → String
      → H
      → Result AttachError (Net × ℕ) × NetworkActor × H
  unfolding address_on
  allocate_on (err e, a) created br veth h = (err (no_subnet e), a, h)
  allocate_on (ok state, a) created br veth h =
      address_on (Bridge.allocate ip state veth) created a br h

  abbrev contains_key : Option (BridgeIpAllocator ip) → Bool
  contains_key none = false
  contains_key (some _) = true

  unfoldable pub allocate_container_ip :
      NetworkActor → String → String → H → Result AttachError (Net × ℕ) × NetworkActor × H
  unfolding allocate_on bridge_entry
  allocate_container_ip a br veth h =
      let created = not (contains_key (get a.bridges br)) in
      allocate_on (bridge_entry (get a.bridges br) a br) created br veth h

  adopt_on : Option (BridgeIpAllocator ip) → String → Result AttachError Bool
  adopt_on none veth = err bridge_untracked
  adopt_on (some state) veth = elim (Bridge.ip_for ip state veth) [
    | none ↦ err address_untracked
    | some _ ↦ ok true
  ]

  unfoldable pub adopt_existing : NetworkActor → String → String → H → Result AttachError Bool
  unfolding adopt_on
  adopt_existing a br veth h =
      if veth_and_netns h veth then adopt_on (get a.bridges br) veth else ok false

  setup_done :
      Option String × H
      → NetworkActor
      → String
      → String
      → Result AttachError (Unit {0}) × NetworkActor × H
  setup_done (none, h) a br veth = (ok tt, a, h)
  setup_done (some e, h) a br veth =
      let (a', h') = rollback_attach a br veth (delete veth h).1 in (err (setup_failed e), a', h')

  wire :
      Result AttachError (Net × ℕ) × NetworkActor × H
      → String
      → String
      → Result AttachError (Unit {0}) × NetworkActor × H
  unfolding setup_done
  wire (err e, a, h) br veth = (err e, a, h)
  wire (ok (subnet, addr), a, h) br veth = setup_done (run_setup br veth subnet addr h) a br veth

  fresh_attach :
      Bool → NetworkActor → String → String → H → Result AttachError (Unit {0}) × NetworkActor × H
  unfolding wire
  fresh_attach false a br veth h = (err path_not_utf8, a, h)
  fresh_attach true a br veth h = wire (allocate_container_ip a br veth h) br veth

  attach_adopted :
      Result AttachError Bool
      → NetworkActor
      → String
      → String
      → H
      → Result AttachError (Unit {0}) × NetworkActor × H
  unfolding fresh_attach
  attach_adopted (err e) a br veth h = (err e, a, h)
  attach_adopted (ok true) a br veth h = (ok tt, a, h)
  attach_adopted (ok false) a br veth h =
      fresh_attach (netns_path_utf8 veth) a br veth (delete veth h).1

  -- The names: `br` is `bridge_name(&bridge_id)`, `veth` is `veth_host_name(&pkg)`.
  unfoldable pub handle_attach :
      NetworkActor → String → String → String → H → Result AttachError (Unit {0}) × NetworkActor × H
  unfolding attach_adopted
  handle_attach a br veth container_interface h =
      if valid_interface container_interface
      then attach_adopted (adopt_existing a br veth h) a br veth h
      else (err invalid_interface, a, h)

  detach_deleted : Option String × H → NetworkActor → String → String → NetworkActor × H
  detach_deleted (some e, h) a br veth = (a, h)
  detach_deleted (none, h) a br veth = rollback_attach a br veth h

  unfoldable pub handle_detach : NetworkActor → String → String → H → NetworkActor × H
  unfolding detach_deleted
  handle_detach a br veth h = detach_deleted (delete veth h) a br veth
