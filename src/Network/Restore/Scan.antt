-- ===== src/Network/Restore/Scan.antt =====
-- The scan that makes a restore plan (ssamd/src/network/actor/restore.rs). What is read of the
-- namespaces and the links is the record `ScanHost`.
pub mod Meant
use Prim.Native.Char.{Char, code}
use Prim.Native.String
use ssam.Prelude.{
  ℕ, Bool, true, false, ◌&&◌, Option, none, some, List, [], ◌∷◌, String, Result, ok, err, leb, ◌==◌,
  if◌then◌else◌, ◌>>=◌,
}
use ssam.Network.Ipnet.{Ipnet}
use ssam.Network.Restore.{RestoredAttach, ReservedIp, RestoreEntry, attach, reserve_ip_entry}

-- `str::starts_with`
unfoldable pub starts_with : String → String → Bool
starts_with name String.[] = true
starts_with String.[] (String.◌∷◌ d p) = false
starts_with (String.◌∷◌ c s) (String.◌∷◌ d p) = code c == code d && starts_with s p

-- An address of a link: its prefix length, and its attributes, which are `none` unless they are IPv4
-- addresses.
abbrev pub Address : Type 0
Address = ℕ × List (Option ℕ)

pub data ScanError : Type 0 where
  sockets_failed dump_failed lookup_failed : ScanError

-- The names in the namespace directory, or nothing if it cannot be read; the addresses that a
-- namespace has; the master of a link.
pub record ScanHost : Type 0 where
  pub read_netns_dir : Option (List String)
  pub dump_addresses : String → Result ScanError (List Address)
  pub enslaving_bridge : String → Result ScanError (Option String)

module _ (ip : Ipnet) (host : ScanHost) (pool : ip.Net) (subnet_prefix : ℕ) where
  open ip use {Net, new, addr, prefix_len, trunc, contains}
  open host use {read_netns_dir, dump_addresses, enslaving_bridge}

  -- `then_some`
  abbrev if_in_pool : ℕ → Option Net → Option Net
  if_in_pool v4 none = none
  if_in_pool v4 (some net) = if contains pool v4 then some net else none

  container_ipv4_in_pool : Option ℕ → ℕ → Option Net
  container_ipv4_in_pool none prefix = none
  container_ipv4_in_pool (some v4) prefix = if_in_pool v4 (new v4 prefix)

  abbrev or_next : Option Net → Option Net → Option Net
  or_next (some net) rest = some net
  or_next none rest = rest

  find_attribute : List (Option ℕ) → ℕ → Option Net
  unfolding container_ipv4_in_pool
  find_attribute [] prefix = none
  find_attribute (attr ∷ attrs) prefix =
      or_next (container_ipv4_in_pool attr prefix) (find_attribute attrs prefix)

  find_address : List Address → Option Net
  unfolding find_attribute
  find_address [] = none
  find_address ((prefix, attrs) ∷ addresses) =
      or_next (find_attribute attrs prefix) (find_address addresses)

  read_container_ipv4 : String → Result ScanError (Option Net)
  unfolding find_address
  read_container_ipv4 name = do addresses ← dump_addresses name; ok (find_address addresses)

  -- The entry of a veth with a container address on a bridge of the daemon.
  entry_on : String → Net → String → RestoreEntry ip
  entry_on name container master =
      if prefix_len container == subnet_prefix
      then attach
          (record { br = master; subnet = trunc container; veth = name; addr = addr container })
      else reserve_ip_entry (record { addr = addr container; veth = name; master = some master })

  entry_of_master : String → Net → Result ScanError (Option String) → Option (RestoreEntry ip)
  unfolding entry_on
  entry_of_master name container (err e) =
      some (reserve_ip_entry (record { addr = addr container; veth = name; master = none }))
  entry_of_master name container (ok none) = none
  entry_of_master name container (ok (some master)) =
      if starts_with master "ssb-" then some (entry_on name container master) else none

  entry_of_container : String → Option Net → Option (RestoreEntry ip)
  unfolding entry_of_master
  entry_of_container name none = none
  entry_of_container name (some container) = entry_of_master name container (enslaving_bridge name)

  unfoldable pub build_restore_entry : String → Result ScanError (Option (RestoreEntry ip))
  unfolding entry_of_container read_container_ipv4
  build_restore_entry name = do
    container ← read_container_ipv4 name
    ok (entry_of_container name container)

  -- An entry that cannot be built is only logged.
  abbrev push_entry :
      Result ScanError (Option (RestoreEntry ip)) → List (RestoreEntry ip) → List (RestoreEntry ip)
  push_entry (err e) rest = rest
  push_entry (ok none) rest = rest
  push_entry (ok (some entry)) rest = entry ∷ rest

  collect_entries : List String → List (RestoreEntry ip)
  collect_entries [] = []
  collect_entries (name ∷ names) =
      let rest = collect_entries names in
      if starts_with name "ssam-" then push_entry (build_restore_entry name) rest else rest

  collect_from : Option (List String) → List (RestoreEntry ip)
  unfolding collect_entries
  collect_from none = []
  collect_from (some names) = collect_entries names

  unfoldable pub collect_restore_plan : List (RestoreEntry ip)
  unfolding collect_from
  collect_restore_plan = collect_from read_netns_dir
