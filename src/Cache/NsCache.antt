-- ===== src/Cache/NsCache.antt =====
-- cache/ns_cache.go: the servers of delegated zones by hash key, with the time they may be used.
pub mod Reads
pub mod Clearing
use sdns.Base.{
  ℕ, ◌-◌, Bool, false, List, [], ◌∷◌, Bytes, codes, Option, none, some, leb, if◌then◌else◌, length,
  nat_eq,
}
use sdns.Base.Map
use sdns.Cache.Clock.{truncate, elapsed}
use sdns.Cache.Outcome.{Result, ok, err, not_found, expired}
use sdns.Cache.Servers.{AuthServers}
use sdns.Dns.{Rr}

-- `NS`
pub record Ns : Type 0 where
  pub servers : AuthServers
  pub network : Bytes
  pub dsrr : List Rr
  pub ttl : ℕ  -- uint32
  pub update_time : ℕ

-- `NSCache`
pub record NsCache : Type 0 where
  pub m : List (ℕ × Ns)

-- `NewNSCache`
unfoldable pub new_ns_cache : NsCache
new_ns_cache = record { m = [] }

-- `Remove`
unfoldable pub remove : ℕ → NsCache → NsCache
remove key c = record c { m = Map.remove key c.m }

-- `Get`, at the time of its call. The entry that the map points to is aged in place before the
-- test, so an expired one carries the new time until it is removed.
unfoldable pub get : ℕ → ℕ → NsCache → NsCache × Result Ns
unfolding remove
get now key c = elim (Map.lookup key c.m) [
  | none ↦ (c, err not_found)
  | some ns ↦
      let e = elapsed (truncate now) ns.update_time in
      let ns' = record ns { ttl = ns.ttl - e; update_time = truncate now } in
      if leb ns.ttl e
      then (remove key c, err expired)
      else (record c { m = Map.insert key ns' c.m }, ok ns')
]

-- `Set`, at the time of its call
unfoldable pub set : ℕ → ℕ → List Rr → ℕ → AuthServers → NsCache → NsCache
set now key dsrr ttl servers c = record c {
  m =
      Map.insert key
        (record {
          servers = servers;
          network = codes "v4";
          dsrr = dsrr;
          ttl = ttl;
          update_time = truncate now;
        })
        c.m;
}

-- `Exists`
unfoldable pub exists : ℕ → NsCache → Bool
exists key c = Map.has key c.m

-- `Length`
unfoldable pub count : NsCache → ℕ
count c = length c.m

-- `Full`
unfoldable pub is_full : NsCache → Bool
is_full c = false

-- The loop of `clear` over the keys in the order of the iteration; it stops at the first deletion.
unfoldable pub clear_from : ℕ → List ℕ → NsCache → NsCache
unfolding remove
clear_from now [] c = c
clear_from now (key ∷ keys) c = elim (Map.lookup key c.m) [
  | none ↦ clear_from now keys c
  | some ns ↦
      let rest = clear_from now keys c in
      if leb ns.ttl (elapsed (truncate now) ns.update_time) then remove key c else rest
]
