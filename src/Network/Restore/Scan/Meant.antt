-- ===== src/Network/Restore/Scan/Meant.antt =====
-- What the entries of a restore plan are for.
use ssam.Prelude.{
  ℕ, ◌+◌, ◌%◌, ◌<◌, true, Option, none, some, List, [], ◌∷◌, String, Result, ok, err, ◌==◌, ==→eq,
  ◌≡◌, refl, ap, subst, ◌∙◌, arith, inl, inr, Bool-cases, ◌>>=◌,
}
use ssam.Network.Ipnet.{Ipnet, block, network-aligned}
use ssam.Network.Restore.{RestoreEntry, attach, reserve_ip_entry}
use ssam.Network.Restore.Scan.{
  starts_with, Address, ScanHost, ScanError, if_in_pool, container_ipv4_in_pool, or_next,
  find_attribute, find_address, read_container_ipv4, entry_on, entry_of_master, entry_of_container,
  build_restore_entry, push_entry, collect_entries, collect_from, collect_restore_plan,
}

module _ (ip : Ipnet) (host : ScanHost) (pool : ip.Net) (subnet_prefix : ℕ) where
  open ip use {
    Net, new, addr, prefix_len, network, broadcast, trunc, network_lem, trunc_fields, new_fields,
  }
  open host use {enslaving_bridge, dump_addresses, read_netns_dir}

  -- An attachment is of an address of the pool, in a subnet of the pool's size on a bridge of the
  -- daemon; a reservation is of an address of the pool.
  abbrev pub IsMeant : RestoreEntry ip → Type 0
  IsMeant (attach att) =
      (ip.contains pool att.addr ≡ true)
      × (prefix_len att.subnet ≡ subnet_prefix)
      × (network att.subnet + att.addr % block subnet_prefix ≡ att.addr)
      × (starts_with att.br "ssb-" ≡ true)
      × (starts_with att.veth "ssam-" ≡ true)
  IsMeant (reserve_ip_entry r) =
      (ip.contains pool r.addr ≡ true) × (starts_with r.veth "ssam-" ≡ true)

  abbrev pub AllMeant : List (RestoreEntry ip) → Type 0
  AllMeant [] = Unit {0}
  AllMeant (e ∷ es) = IsMeant e × AllMeant es

  abbrev InPool : Option Net → Type 0
  InPool none = Unit {0}
  InPool (some net) = ip.contains pool (addr net) ≡ true

  -- The IPv4 addresses that are read are 32 bits.
  abbrev pub AreWords : List (Option ℕ) → Type 0
  AreWords [] = Unit {0}
  AreWords (none ∷ attrs) = AreWords attrs
  AreWords (some v4 ∷ attrs) = (v4 < 4294967296) × AreWords attrs

  abbrev pub AllWords : List Address → Type 0
  AllWords [] = Unit {0}
  AllWords ((prefix, attrs) ∷ addresses) = AreWords attrs × AllWords addresses

  or_next-InPool :
      (a b : Option Net) → InPool a → InPool b → InPool (or_next ip host pool subnet_prefix a b)
  or_next-InPool none b p q = q
  or_next-InPool (some net) b p q = p

  container-InPool :
      (v4 prefix : ℕ)
      → v4 < 4294967296
      → InPool (container_ipv4_in_pool ip host pool subnet_prefix (some v4) prefix)
  unfolding container_ipv4_in_pool
  container-InPool v4 prefix low = checked (new v4 prefix) refl
    where
      checked :
          (o : Option Net) → new v4 prefix ≡ o → InPool (if_in_pool ip host pool subnet_prefix v4 o)
      checked none e = tt
      checked (some net) e = elim (Bool-cases (ip.contains pool v4)) [
        | inl inside ↦ rw inside (ap (ip.contains pool) (new_fields v4 prefix low e).0 ∙ inside)
        | inr outside ↦ rw outside tt
      ]

  find_attribute-InPool :
      (attrs : List (Option ℕ)) (prefix : ℕ)
      → AreWords attrs
      → InPool (find_attribute ip host pool subnet_prefix attrs prefix)
  unfolding find_attribute container_ipv4_in_pool
  find_attribute-InPool [] prefix w = tt
  find_attribute-InPool (none ∷ attrs) prefix w = find_attribute-InPool attrs prefix w
  find_attribute-InPool (some v4 ∷ attrs) prefix (low, w) =
      or_next-InPool _ _ (container-InPool v4 prefix low) (find_attribute-InPool attrs prefix w)

  find_address-InPool :
      (addresses : List Address)
      → AllWords addresses
      → InPool (find_address ip host pool subnet_prefix addresses)
  unfolding find_address
  find_address-InPool [] w = tt
  find_address-InPool ((prefix, attrs) ∷ addresses) (here, w) =
      or_next-InPool _ _ (find_attribute-InPool attrs prefix here) (find_address-InPool addresses w)

  trunc-network : (n : Net) → network (trunc n) ≡ network n
  trunc-network n =
      let (a, p) = trunc_fields n in
      let whole : network (trunc n) + network n % block (prefix_len n) ≡ network n =
        rw (a, p) at (network_lem (trunc n)) in
      omega (arith, whole, network-aligned ip n)

  entry_on-IsMeant :
      (name master : String) (net : Net)
      → InPool (some net)
      → starts_with name "ssam-" ≡ true
      → starts_with master "ssb-" ≡ true
      → IsMeant (entry_on ip host pool subnet_prefix name net master)
  unfolding entry_on
  entry_on-IsMeant name master net inside veth br =
      elim (Bool-cases (prefix_len net == subnet_prefix)) [
        | inr other ↦ rw other (inside, veth)
        | inl same ↦
            let e = ==→eq (prefix_len net) subnet_prefix same in
            rw same (
              inside,
              (trunc_fields net).1 ∙ e,
              ap (λ x. x + addr net % block subnet_prefix) (trunc-network net)
                  ∙ subst (λ p. network net + addr net % block p ≡ addr net) e (network_lem net),
              br,
              veth,
            )
      ]

  abbrev IsMeantIf : Option (RestoreEntry ip) → Type 0
  IsMeantIf none = Unit {0}
  IsMeantIf (some e) = IsMeant e

  entry_of_master-IsMeant :
      (name : String) (net : Net) (master : Result ScanError (Option String))
      → InPool (some net)
      → starts_with name "ssam-" ≡ true
      → IsMeantIf (entry_of_master ip host pool subnet_prefix name net master)
  unfolding entry_of_master
  entry_of_master-IsMeant name net (err e) inside veth = (inside, veth)
  entry_of_master-IsMeant name net (ok none) inside veth = tt
  entry_of_master-IsMeant name net (ok (some master)) inside veth =
      elim (Bool-cases (starts_with master "ssb-")) [
        | inl br ↦ rw br (entry_on-IsMeant name master net inside veth br)
        | inr foreign ↦ rw foreign tt
      ]

  entry_of_container-IsMeant :
      (name : String) (o : Option Net)
      → InPool o
      → starts_with name "ssam-" ≡ true
      → IsMeantIf (entry_of_container ip host pool subnet_prefix name o)
  unfolding entry_of_container
  entry_of_container-IsMeant name none inside veth = tt
  entry_of_container-IsMeant name (some net) inside veth =
      entry_of_master-IsMeant name net (enslaving_bridge name) inside veth

  abbrev IsMeantOk : Result ScanError (Option (RestoreEntry ip)) → Type 0
  IsMeantOk (ok o) = IsMeantIf o
  IsMeantOk (err e) = Unit {0}

  abbrev WordsOk : Result ScanError (List Address) → Type 0
  WordsOk (ok addresses) = AllWords addresses
  WordsOk (err e) = Unit {0}

  build-IsMeant :
      (name : String)
      → WordsOk (dump_addresses name)
      → starts_with name "ssam-" ≡ true
      → IsMeantOk (build_restore_entry ip host pool subnet_prefix name)
  unfolding build_restore_entry read_container_ipv4
  build-IsMeant name words veth = from (dump_addresses name) words
    where
      from :
          (r : Result ScanError (List Address))
          → WordsOk r
          → IsMeantOk (
              (r >>= λ a. ok (find_address ip host pool subnet_prefix a)) >>= λ c.
              ok (entry_of_container ip host pool subnet_prefix name c))
      from (err e) w = tt
      from (ok addresses) w =
          entry_of_container-IsMeant name (find_address ip host pool subnet_prefix addresses)
            (find_address-InPool addresses w) veth

  push-AllMeant :
      (r : Result ScanError (Option (RestoreEntry ip))) (es : List (RestoreEntry ip))
      → IsMeantOk r
      → AllMeant es
      → AllMeant (push_entry ip host pool subnet_prefix r es)
  push-AllMeant (err e) es m all = all
  push-AllMeant (ok none) es m all = all
  push-AllMeant (ok (some entry)) es m all = (m, all)

  collect_entries-AllMeant :
      (names : List String)
      → ((name : String) → WordsOk (dump_addresses name))
      → AllMeant (collect_entries ip host pool subnet_prefix names)
  unfolding collect_entries
  collect_entries-AllMeant [] w = tt
  collect_entries-AllMeant (name ∷ names) w = elim (Bool-cases (starts_with name "ssam-")) [
    | inr foreign ↦ rw foreign (collect_entries-AllMeant names w)
    | inl veth ↦ rw veth (
        push-AllMeant (build_restore_entry ip host pool subnet_prefix name) _
          (build-IsMeant name (w name) veth) (collect_entries-AllMeant names w))
  ]

  -- Whatever the scan reads of the namespaces and links, its plan holds only addresses of the pool, of
  -- veths of the daemon; and an address that is to be attached lies in the subnet of its entry, which
  -- has the size of the pool's subnets, on a bridge of the daemon. The addresses that the host reports
  -- must be of 32 bits.
  pub collect_restore_plan-AllMeant :
      ((name : String) → WordsOk (dump_addresses name))
      → AllMeant (collect_restore_plan ip host pool subnet_prefix)
  unfolding collect_restore_plan collect_from
  collect_restore_plan-AllMeant w = from read_netns_dir
    where
      from : (o : Option (List String)) → AllMeant (collect_from ip host pool subnet_prefix o)
      from none = tt
      from (some names) = collect_entries-AllMeant names w
