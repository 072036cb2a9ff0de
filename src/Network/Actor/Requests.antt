-- ===== src/Network/Actor/Requests.antt =====
-- The actor handles its messages one after the other. A run is any list of requests, with whatever
-- the host answers in between.
use ssam.Prelude.{ℕ, ◌≤◌, ◌≡◌, some, List, [], ◌∷◌, String, get, ok}
use ssam.Network.Ipnet.{Ipnet}
use ssam.Network.Bridge.{BridgeIpAllocator, ip_for}
use ssam.Network.Pool
use ssam.Network.Pool.{SubnetAllocator}
use ssam.Network.Pool.Slices
use ssam.Network.Actor.{Host, NetworkActor, handle_attach, handle_detach}
use ssam.Network.Actor.Consistent.{IsConsistent, addresses_unique}
use ssam.Network.Actor.Messages.{handle_attach-Attaches, handle_detach-IsConsistent}

module _ (ip : Ipnet) {H : Type 0} (host : Host ip H) where
  open ip use {Net}

  -- The requests that reach the actor. The other two messages, for namespaces, leave its state alone.
  pub data Message : Type 0 where
    attach : String → String → String → Message
    detach : String → String → Message

  unfoldable pub handle : Message → NetworkActor ip host × H → NetworkActor ip host × H
  handle (attach br veth interface) (a, h) =
      let done = handle_attach ip host a br veth interface h in (done.1, done.2)
  handle (detach br veth) (a, h) = handle_detach ip host a br veth h

  unfoldable pub handle_all : List Message → NetworkActor ip host × H → NetworkActor ip host × H
  handle_all [] s = s
  handle_all (m ∷ ms) s = handle_all ms (handle m s)

  handle-IsConsistent :
      (m : Message) (s : NetworkActor ip host × H)
      → IsConsistent ip host s.0
      → IsConsistent ip host (handle m s).0
  unfolding handle
  handle-IsConsistent (attach br veth interface) (a, h) c =
      (handle_attach-Attaches ip host a br veth interface h c).0
  handle-IsConsistent (detach br veth) (a, h) c = handle_detach-IsConsistent ip host a br veth h c

  pub handle_all-IsConsistent :
      (ms : List Message) (s : NetworkActor ip host × H)
      → IsConsistent ip host s.0
      → IsConsistent ip host (handle_all ms s).0
  unfolding handle_all
  handle_all-IsConsistent [] s c = c
  handle_all-IsConsistent (m ∷ ms) s c =
      handle_all-IsConsistent ms (handle m s) (handle-IsConsistent m s c)

  pub new-IsConsistent :
      (pool : Net) (size : ℕ) {s : SubnetAllocator ip}
      → Pool.new ip pool size ≡ ok s
      → s.subnet_prefix ≤ 30
      → IsConsistent ip host (record { subnets = s; bridges = [] })
  unfolding get
  new-IsConsistent pool size e le = record {
    pool = Slices.new-IsSafe ip pool size e;
    prefix-le = le;
    tracked = λ br st wrong. cc;
  }

  -- The actor after some messages, from a start with no bridges.
  abbrev pub handled : SubnetAllocator ip → H → List Message → NetworkActor ip host
  handled s h ms = (handle_all ms (record { subnets = s; bridges = [] }, h)).0

  -- An actor that starts with no bridges on an admitted pool never gives one address to two veths,
  -- whatever messages it handles and whatever the host answers: two attachments that hold the same
  -- address are on the same bridge and of the same veth.
  pub handled-addresses_unique :
      (pool : Net) (size : ℕ) (s : SubnetAllocator ip) (h : H) (ms : List Message)
      (br br' veth veth' : String) (b b' : BridgeIpAllocator ip) (x : ℕ)
      → Pool.new ip pool size ≡ ok s
      → s.subnet_prefix ≤ 30
      → get (handled s h ms).bridges br ≡ some b
      → get (handled s h ms).bridges br' ≡ some b'
      → ip_for ip b veth ≡ some x
      → ip_for ip b' veth' ≡ some x
      → (br ≡ br') × (veth ≡ veth')
  handled-addresses_unique pool size s h ms br br' veth veth' b b' x e le =
      addresses_unique ip host _ br br' veth veth' b b' x
        (handle_all-IsConsistent ms _ (new-IsConsistent pool size e le))
