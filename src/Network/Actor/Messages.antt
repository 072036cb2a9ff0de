-- ===== src/Network/Actor/Messages.antt =====
-- `Attach` and `Detach`, whatever the host answers.
use ssam.Prelude.{
  ℕ, ◌≡◌, refl, ap, Bool, true, false, inl, inr, Option, none, some, String, get, get-insert_self,
  Result, ok, err, arith, Bool-cases, Option-cases,
}
use ssam.Network.Ipnet.{Ipnet}
use ssam.Network.Bridge
use ssam.Network.Bridge.{BridgeIpAllocator, AllocError, ip_for}
use ssam.Network.Bridge.Hosts.{allocate_holds}
use ssam.Network.Bridge.Safety
use ssam.Network.Pool.{PoolError}
use ssam.Network.Actor.{
  Host, NetworkActor, AttachError, address_on, allocate_on, allocate_container_ip, setup_done, wire,
  fresh_attach, adopt_on, adopt_existing, attach_adopted, handle_attach, detach_deleted,
  handle_detach, bridge_entry,
}
use ssam.Network.Actor.Consistent.{IsConsistent}
use ssam.Network.Actor.Keeps.{
  Actor, has_hosts, set_bridge-IsConsistent, destroy_if-IsConsistent, bridge_entry-IsConsistent,
  rollback_attach-IsConsistent,
}

module _ (ip : Ipnet) {H : Type 0} (host : Host ip H) where
  open ip use {Net}

  -- The veth holds an address on the bridge.
  pub record IsAttached (a : NetworkActor ip host) (br veth : String) : Type 0 where
    pub state : BridgeIpAllocator ip
    pub addr : ℕ
    pub live : get a.bridges br ≡ some state
    pub holds : ip_for ip state veth ≡ some addr

  address_on-IsConsistent :
      (r : Result AllocError ℕ) (a : Actor ip host) (br veth : String) (h : H) (created : Bool)
      (state : BridgeIpAllocator ip)
      → IsConsistent ip host a
      → get a.bridges br ≡ some state
      → (Bridge.allocate ip state veth).0 ≡ r
      → let done = address_on ip host (r, (Bridge.allocate ip state veth).1) created a br h in
        IsConsistent ip host done.1
        × ((out : Net × ℕ) → done.0 ≡ ok out → IsAttached done.1 br veth)
  unfolding address_on
  address_on-IsConsistent (ok x) a br veth h created state c e r =
      let t = c.tracked br state e in
      let same = Safety.slots-allocate ip state veth in
      (
        set_bridge-IsConsistent ip host a br state _ c t (ap (λ s. s.subnet) same) (
            Safety.allocate-IsSafe ip state.subnet (has_hosts ip host a br state c t) state veth
              t.safe),
        λ out _. record {
          state = (Bridge.allocate ip state veth).1;
          addr = x;
          live = get-insert_self a.bridges br _;
          holds = allocate_holds ip state veth r;
        },
      )
  address_on-IsConsistent (err x) a br veth h created state c e r =
      let t = c.tracked br state e in
      let same = Safety.slots-allocate ip state veth in
      (
        destroy_if-IsConsistent ip host created _ br h (
            set_bridge-IsConsistent ip host a br state _ c t (ap (λ s. s.subnet) same) (
              Safety.allocate-IsSafe ip state.subnet (has_hosts ip host a br state c t) state veth
                t.safe)),
        λ out wrong. cc,
      )

  allocate_on-IsConsistent :
      (r : Result PoolError (BridgeIpAllocator ip)) (a : Actor ip host) (created : Bool)
      (br veth : String) (h : H)
      → IsConsistent ip host a
      → ((state : BridgeIpAllocator ip) → r ≡ ok state → get a.bridges br ≡ some state)
      → let done = allocate_on ip host (r, a) created br veth h in
        IsConsistent ip host done.1
        × ((out : Net × ℕ) → done.0 ≡ ok out → IsAttached done.1 br veth)
  unfolding allocate_on
  allocate_on-IsConsistent (err x) a created br veth h c live = (c, λ out wrong. cc)
  allocate_on-IsConsistent (ok state) a created br veth h c live =
      address_on-IsConsistent (Bridge.allocate ip state veth).0 a br veth h created state c
        (live state refl) refl

  allocate_container_ip-IsConsistent :
      (a : Actor ip host) (br veth : String) (h : H)
      → IsConsistent ip host a
      → let done = allocate_container_ip ip host a br veth h in
        IsConsistent ip host done.1
        × ((out : Net × ℕ) → done.0 ≡ ok out → IsAttached done.1 br veth)
  unfolding allocate_container_ip
  allocate_container_ip-IsConsistent a br veth h c =
      let (kept, live) = bridge_entry-IsConsistent ip host (get a.bridges br) a br refl c in
      allocate_on-IsConsistent (bridge_entry ip host (get a.bridges br) a br).0 _ _ br veth h kept
        live

  -- What an attachment leaves behind: a consistent state, and after a success an address.
  abbrev Attaches :
      Result AttachError (Unit {0}) × NetworkActor ip host × H → String → String → Type 0
  Attaches done br veth = IsConsistent ip host done.1 × (done.0 ≡ ok tt → IsAttached done.1 br veth)

  setup_done-Attaches :
      (r : Option String) (a : Actor ip host) (br veth : String) (h : H)
      → IsConsistent ip host a
      → IsAttached a br veth
      → Attaches (setup_done ip host (r, h) a br veth) br veth
  unfolding setup_done
  setup_done-Attaches none a br veth h c at = (c, λ _. at)
  setup_done-Attaches (some e) a br veth h c at =
      (rollback_attach-IsConsistent ip host a br veth (host.delete veth h).1 c, λ wrong. cc)

  wire-Attaches :
      (r : Result AttachError (Net × ℕ)) (a : Actor ip host) (br veth : String) (h : H)
      → IsConsistent ip host a
      → ((out : Net × ℕ) → r ≡ ok out → IsAttached a br veth)
      → Attaches (wire ip host (r, a, h) br veth) br veth
  unfolding wire
  wire-Attaches (err e) a br veth h c at = (c, λ wrong. cc)
  wire-Attaches (ok (n, x)) a br veth h c at =
      setup_done-Attaches (host.run_setup br veth n x h).0 a br veth _ c (at (n, x) refl)

  fresh_attach-Attaches :
      (utf8 : Bool) (a : Actor ip host) (br veth : String) (h : H)
      → IsConsistent ip host a
      → Attaches (fresh_attach ip host utf8 a br veth h) br veth
  unfolding fresh_attach
  fresh_attach-Attaches false a br veth h c = (c, λ wrong. cc)
  fresh_attach-Attaches true a br veth h c =
      let (kept, at) = allocate_container_ip-IsConsistent a br veth h c in
      wire-Attaches (allocate_container_ip ip host a br veth h).0 _ br veth _ kept at

  adopt_on-IsAttached :
      (o : Option (BridgeIpAllocator ip)) (a : Actor ip host) (br veth : String)
      → get a.bridges br ≡ o
      → adopt_on ip host o veth ≡ ok true
      → IsAttached a br veth
  unfolding adopt_on
  adopt_on-IsAttached none a br veth e done = cc
  adopt_on-IsAttached (some s) a br veth e done = elim (Option-cases (ip_for ip s veth)) [
    | inl missing ↦ absurd (ground arith)
    | inr (x, held) ↦ record { state = s; addr = x; live = e; holds = held }
  ]

  adopt_existing-IsAttached :
      (a : Actor ip host) (br veth : String) (h : H)
      → adopt_existing ip host a br veth h ≡ ok true
      → IsAttached a br veth
  unfolding adopt_existing
  adopt_existing-IsAttached a br veth h e =
      adopt_on-IsAttached (get a.bridges br) a br veth refl (ground arith)

  attach_adopted-Attaches :
      (r : Result AttachError Bool) (a : Actor ip host) (br veth : String) (h : H)
      → adopt_existing ip host a br veth h ≡ r
      → IsConsistent ip host a
      → Attaches (attach_adopted ip host r a br veth h) br veth
  unfolding attach_adopted
  attach_adopted-Attaches (err e) a br veth h r c = (c, λ wrong. cc)
  attach_adopted-Attaches (ok true) a br veth h r c =
      (c, λ _. adopt_existing-IsAttached a br veth h r)
  attach_adopted-Attaches (ok false) a br veth h r c =
      fresh_attach-Attaches (host.netns_path_utf8 veth) a br veth _ c

  -- Whatever the host answers, `Attach` keeps the state consistent, and when it reports success the
  -- veth holds an address on the bridge.
  pub handle_attach-Attaches :
      (a : NetworkActor ip host) (br veth container_interface : String) (h : H)
      → IsConsistent ip host a
      → Attaches (handle_attach ip host a br veth container_interface h) br veth
  unfolding handle_attach
  handle_attach-Attaches a br veth container_interface h c =
      elim (Bool-cases (host.valid_interface container_interface)) [
        | inl valid ↦
            rw valid
              (attach_adopted-Attaches (adopt_existing ip host a br veth h) a br veth h refl c)
        | inr invalid ↦ rw invalid (c, λ wrong. cc)
      ]

  detach_deleted-IsConsistent :
      (r : Option String) (a : Actor ip host) (br veth : String) (h : H)
      → IsConsistent ip host a
      → IsConsistent ip host (detach_deleted ip host (r, h) a br veth).0
  unfolding detach_deleted
  detach_deleted-IsConsistent none a br veth h c =
      rollback_attach-IsConsistent ip host a br veth h c
  detach_deleted-IsConsistent (some e) a br veth h c = c

  pub handle_detach-IsConsistent :
      (a : NetworkActor ip host) (br veth : String) (h : H)
      → IsConsistent ip host a
      → IsConsistent ip host (handle_detach ip host a br veth h).0
  unfolding handle_detach
  handle_detach-IsConsistent a br veth h c =
      detach_deleted-IsConsistent (host.delete veth h).0 a br veth _ c
