-- ===== src/Resolver/Zones.antt =====
-- resolver.go, `searchCache`: the servers of the closest zone above a name that are cached, or the
-- root servers. The recursion is on fuel, `none` when it runs out; all its steps read the clock at
-- one time.
pub mod Closest
pub mod Served
use sdns.Base.{ℕ, zero, suc, Bool, List, [], Option, none, some, if◌then◌else◌}
use sdns.Cache.Key.{hash}
use sdns.Cache.NsCache
use sdns.Cache.NsCache.{NsCache}
use sdns.Cache.Outcome.{ok, err}
use sdns.Cache.Servers.{AuthServers}
use sdns.Dns.{Question, Rr, type_ns}
use sdns.Records.{upper_name, is_empty}

-- the servers of a zone with the DS records of its parent
abbrev pub Zone : Type 0
Zone = AuthServers × List Rr

module _ (now : ℕ) (rootservers : AuthServers) where
  -- `searchCache`
  unfoldable pub search_cache : ℕ → Question → Bool → NsCache → Option (NsCache × Zone)
  search_cache zero q cd c = none
  search_cache (suc fuel) q cd c =
      let asked = record q { qtype = type_ns } in
      let (c', found) = NsCache.get now (hash asked cd) c in
      let up = upper_name q.name in
      let rest = search_cache fuel (record asked { name = up }) cd c' in
      elim found [
        | ok ns ↦ some (c', (ns.servers, ns.dsrr))
        | err e ↦ if is_empty up then some (c', (rootservers, [])) else rest
      ]
