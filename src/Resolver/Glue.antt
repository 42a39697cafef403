-- ===== src/Resolver/Glue.antt =====
-- resolver.go, `Resolve`: the servers that a delegation names, and their addresses in the additional
-- section. The map of hosts and addresses is in the order of its iteration.
pub mod Closed
use sdns.Base.{
  ℕ, Bool, true, false, not, ◌&&◌, ◌||◌, List, [], ◌∷◌, ◌++◌, map, Bytes, bytes_eq, bytes_Eq,
  to_lower, Option, none, some, if◌then◌else◌,
}
use sdns.Base.Map
use sdns.Cache.Servers.{AuthServers, new_auth_server}
use sdns.Dns.{Rr, Rdata}
use sdns.Records.{is_empty, is_local_ip}

abbrev pub as_ns : Rr → Option Bytes
as_ns r = elim r.rdata [ Rdata.ns host ↦ some host | _ ↦ none ]

abbrev pub as_a : Rr → Option Bytes
as_a r = elim r.rdata [ Rdata.a addr ↦ some addr | _ ↦ none ]

-- the loop over the authority section: the last NS record, and the map of the hosts in lower case
unfoldable pub ns_hosts :
    Option Rr → List (Bytes × Bytes) → List Rr → Option Rr × List (Bytes × Bytes)
ns_hosts nsrr nsmap [] = (nsrr, nsmap)
ns_hosts nsrr nsmap (n ∷ ns) = elim (as_ns n) [
  | none ↦ ns_hosts nsrr nsmap ns
  | some host ↦ ns_hosts (some n) (Map.insert (to_lower host) [] nsmap) ns
]

-- What the loop over the additional section ends with: the address that was asked for, or the map.
pub data Glue : Type 0 where
  direct : Rr → Glue
  filled : List (Bytes × Bytes) → Glue

-- the loop over the additional section, for a question with the name `name`
unfoldable pub fill : Bool → Bytes → List (Bytes × Bytes) → List Rr → Glue
fill nsl name nsmap [] = filled nsmap
fill nsl name nsmap (r ∷ rs) =
    let host = to_lower r.name in
    elim (as_a r) [
      | none ↦ fill nsl name nsmap rs
      | some addr ↦
          let rest =
            fill nsl name (if Map.has host nsmap then Map.insert host addr nsmap else nsmap) rs in
          if nsl && bytes_eq host (to_lower name) && not (is_empty addr) then direct r else rest
    ]

module _ (local_ips : List Bytes) (join_host_port : Bytes → Bytes) where
  -- the addresses that are known and not local, with the port
  unfoldable pub known_servers : List (Bytes × Bytes) → List Bytes
  known_servers [] = []
  known_servers ((host, addr) ∷ nsmap) =
      let rest = known_servers nsmap in
      if is_empty addr || is_local_ip local_ips addr then rest else join_host_port addr ∷ rest

-- `authservers`
unfoldable pub auth_servers : List Bytes → AuthServers
auth_servers hosts = record { called = 0; list = map new_auth_server hosts }
