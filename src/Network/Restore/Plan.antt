-- ===== src/Network/Restore/Plan.antt =====
-- Which plans keep the actor consistent.
use ssam.Prelude.{
  ℕ, ◌≡◌, refl, sym, ap, subst, ◌∙◌, inl, inr, Option, none, some, String, HashMap, get, insert,
  get-insert, get-insert_self, get-insert_ne, Result, ok, err, arith, str_eq-cases,
}
use ssam.Network.Ipnet.{Ipnet}
use ssam.Network.Slots
use ssam.Network.Slots.{SlotAllocator, find_owner}
use ssam.Network.Bridge
use ssam.Network.Bridge.{BridgeIpAllocator}
use ssam.Network.Bridge.Safety
use ssam.Network.Pool
use ssam.Network.Pool.{SubnetAllocator, PoolError}
use ssam.Network.Pool.Slices
use ssam.Network.Actor.{Host, NetworkActor}
use ssam.Network.Actor.Consistent.{IsTracked, IsConsistent}
use ssam.Network.Actor.Keeps.{keep-IsTracked, set_bridge-IsConsistent, has_hosts}
use ssam.Network.Restore.{RestoredAttach, or_new, claim_on, claim_restored_attach}

-- Recording again what is recorded changes no lookup.
insert_same :
    (m : HashMap ℕ) (br j : String) (x y : ℕ)
    → get m j ≡ some y
    → (br ≡ j → x ≡ y)
    → get (insert m br x) j ≡ get m j
insert_same m br j x y held agree = elim (str_eq-cases br j) [
  | inl (same, t) ↦ get-insert m br j x ∙ ground (arith, agree same)
  | inr (other, t) ↦ get-insert_ne m br j x other
]

module _ (ip : Ipnet) {H : Type 0} (host : Host ip H) where
  open ip use {Net, prefix_len, network}

  claim_err :
      (s : SubnetAllocator ip) (br : String) (subnet : Net) {e : PoolError}
      → (Pool.claim ip s br subnet).0 ≡ err e
      → (Pool.claim ip s br subnet).1 ≡ s
  unfolding Pool.claim Slots.claim
  claim_err s br subnet h = ground arith

  pub claim_ok :
      (s : SubnetAllocator ip) (br : String) (subnet : Net)
      → (Pool.claim ip s br subnet).0 ≡ ok tt
      → (prefix_len subnet ≡ s.subnet_prefix)
        × ((Pool.claim ip s br subnet).1 ≡ record s {
          slots = record { attached = insert s.slots.attached br (network subnet) };
        })
  unfolding Pool.claim Slots.claim
  claim_ok s br subnet h = ground arith

  -- The entry is for the subnet that a live bridge of that name has.
  abbrev pub Agrees : NetworkActor ip host → RestoredAttach ip → Type 0
  Agrees a att =
      (state : BridgeIpAllocator ip)
      → get a.bridges att.br ≡ some state
      → network state.subnet ≡ network att.subnet

  -- The pool after a claim still records what it did for the live bridges, the claimed one included.
  claimed-tracked :
      (a : NetworkActor ip host) (att : RestoredAttach ip)
      → IsConsistent ip host a
      → Agrees a att
      → (Pool.claim ip a.subnets att.br att.subnet).0 ≡ ok tt
      → IsConsistent ip host (record a { subnets = (Pool.claim ip a.subnets att.br att.subnet).1 })
  claimed-tracked a att c agree done =
      let (prefix, state) = claim_ok a.subnets att.br att.subnet done in
      let recorded = ap (λ s. s.slots.attached) state in
      record {
        pool = Slices.claim-IsSafe ip a.subnets att.br att.subnet c.pool;
        prefix-le = rw state c.prefix-le;
        tracked = λ j st e.
            let t = c.tracked j st e in
            let same =
              insert_same a.subnets.slots.attached att.br j (network att.subnet) (network st.subnet)
                t.recorded (λ p. sym (agree st (ap (get a.bridges) p ∙ e))) in
            keep-IsTracked ip host a.subnets (Pool.claim ip a.subnets att.br att.subnet).1 j st
              (ap (λ s. s.subnet_prefix) state) (ap (λ m. get m j) recorded ∙ same) t;
      }

  new-IsTracked :
      (a : NetworkActor ip host) (att : RestoredAttach ip)
      → IsConsistent ip host a
      → (Pool.claim ip a.subnets att.br att.subnet).0 ≡ ok tt
      → IsTracked ip (Pool.claim ip a.subnets att.br att.subnet).1 att.br (Bridge.new ip att.subnet)
  unfolding Bridge.new
  new-IsTracked a att c done =
      let (prefix, state) = claim_ok a.subnets att.br att.subnet done in
      record {
        safe = Safety.new-IsSafe ip att.subnet (rw prefix c.prefix-le);
        prefix = prefix ∙ sym (ap (λ s. s.subnet_prefix) state);
        recorded =
            ap (λ s. get s.slots.attached att.br) state
            ∙ get-insert_self a.subnets.slots.attached att.br (network att.subnet);
      }

  entry-IsTracked :
      (o : Option (BridgeIpAllocator ip)) (a : NetworkActor ip host) (att : RestoredAttach ip)
      → get a.bridges att.br ≡ o
      → IsConsistent ip host a
      → Agrees a att
      → (Pool.claim ip a.subnets att.br att.subnet).0 ≡ ok tt
      → IsTracked ip
          (Pool.claim ip a.subnets att.br att.subnet).1
          att.br
          (or_new ip host o att.subnet)
  entry-IsTracked none a att e c agree done = new-IsTracked a att c done
  entry-IsTracked (some state) a att e c agree done =
      (claimed-tracked a att c agree done).tracked att.br state e

  claim_on-IsConsistent :
      (r : Result PoolError (Unit {0})) (a : NetworkActor ip host) (att : RestoredAttach ip)
      → (Pool.claim ip a.subnets att.br att.subnet).0 ≡ r
      → IsConsistent ip host a
      → Agrees a att
      → IsConsistent ip host
          (claim_on ip host (r, (Pool.claim ip a.subnets att.br att.subnet).1) a att)
  unfolding claim_on
  claim_on-IsConsistent (err e) a att r c agree =
      let same = claim_err a.subnets att.br att.subnet r in
      subst (λ s. IsConsistent ip host (record { subnets = s; bridges = a.bridges })) (sym same) c
  claim_on-IsConsistent (ok _) a att r c agree =
      let base = claimed-tracked a att c agree r in
      let state = or_new ip host (get a.bridges att.br) att.subnet in
      let t = entry-IsTracked (get a.bridges att.br) a att refl c agree r in
      let safe =
        Safety.claim-IsSafe ip state.subnet (has_hosts ip host _ att.br state base t) state att.veth
          att.addr t.safe in
      set_bridge-IsConsistent ip host _ att.br state _ base t safe.same_subnet safe

  -- Restoring an attachment keeps the actor consistent, if the bridge is not live yet or is live on
  -- the subnet of the entry.
  pub claim_restored_attach-IsConsistent :
      (a : NetworkActor ip host) (att : RestoredAttach ip)
      → IsConsistent ip host a
      → Agrees a att
      → IsConsistent ip host (claim_restored_attach ip host a att)
  unfolding claim_restored_attach
  claim_restored_attach-IsConsistent a att c agree =
      claim_on-IsConsistent (Pool.claim ip a.subnets att.br att.subnet).0 a att refl c agree
