-- ===== src/Resolver/Zones/Served.antt =====
-- The zones of the nameserver cache and their servers (cache/ns_cache.go, and resolver.go,
-- `searchCache`).
use mathlib.Core.Path.{subst}
use sdns.Base.{
  ℕ, zero, suc, ◌≡◌, Bool, false, List, [], ◌∷◌, some, leb, nat_eq, ==_iff, arith, Bool-cases,
  Option-cases, inl, inr,
}
use sdns.Base.Map
use sdns.Cache.Clock.{truncate, elapsed}
use sdns.Cache.Key.{hash}
use sdns.Cache.NsCache.{Ns, NsCache, get, set, remove, clear_from}
use sdns.Cache.Outcome.{ok, Result-cases}
use sdns.Cache.Servers.{AuthServers}
use sdns.Dns.{Question, Rr, type_ns}
use sdns.Records.{is_empty, upper_name}
use sdns.Resolver.Zones.{Zone, search_cache}

-- every zone of the cache has a server
pub record IsServed (c : NsCache) : Type 0 where
  pub distinct : Map.IsDistinct c.m
  pub some_server :
      (key : ℕ) (ns : Ns) → Map.lookup key c.m ≡ some ns → is_empty ns.servers.list ≡ false

insert-IsServed :
    (key : ℕ) (ns : Ns) {c : NsCache}
    → is_empty ns.servers.list ≡ false
    → IsServed c
    → IsServed (record c { m = Map.insert key ns c.m })
insert-IsServed key ns {c} h k = record {
  distinct = Map.insert-IsDistinct key ns c.m k.distinct;
  some_server = λ j ns' e. ground (arith, Map.lookup-insert key j ns c.m, k.some_server j ns');
}

pub set-IsServed :
    (now key : ℕ) (dsrr : List Rr) (ttl : ℕ) (servers : AuthServers) {c : NsCache}
    → is_empty servers.list ≡ false
    → IsServed c
    → IsServed (set now key dsrr ttl servers c)
unfolding set
set-IsServed now key dsrr ttl servers h k = insert-IsServed key _ h k

remove-IsServed : (key : ℕ) {c : NsCache} → IsServed c → IsServed (remove key c)
unfolding remove
remove-IsServed key {c} k = record {
  distinct = Map.remove-IsDistinct key c.m k.distinct;
  some_server = λ j ns e. ground (
    arith,
    ==_iff key j,
    Map.lookup-remove_self key c.m k.distinct,
    Map.lookup-remove_ne key j c.m,
    k.some_server j ns,
  );
}

pub get-IsServed : (now key : ℕ) {c : NsCache} → IsServed c → IsServed (get now key c).0
unfolding get
get-IsServed now key {c} k = elim (Option-cases (Map.lookup key c.m)) [
  | inl e ↦ rw (e, get) k
  | inr (ns, e) ↦ elim (Bool-cases (leb ns.ttl (elapsed (truncate now) ns.update_time))) [
    | inl old ↦ rw (e, get, old) (remove-IsServed key k)
    | inr new ↦ rw (e, get, new) (insert-IsServed key _ (k.some_server key ns e) k)
  ]
]

-- the hourly clearing
pub clear_from-IsServed :
    (now : ℕ) (order : List ℕ) {c : NsCache} → IsServed c → IsServed (clear_from now order c)
unfolding clear_from
clear_from-IsServed now [] k = k
clear_from-IsServed now (key ∷ order) {c} k = elim (Option-cases (Map.lookup key c.m)) [
  | inl e ↦ rw (e, clear_from) (clear_from-IsServed now order k)
  | inr (ns, e) ↦ elim (Bool-cases (leb ns.ttl (elapsed (truncate now) ns.update_time))) [
    | inl old ↦ rw (e, clear_from, old) (remove-IsServed key k)
    | inr new ↦ rw (e, clear_from, new) (clear_from-IsServed now order k)
  ]
]

-- what `Get` finds has a server
pub get_served :
    (now key : ℕ) {c : NsCache} (ns : Ns)
    → IsServed c
    → (get now key c).1 ≡ ok ns
    → is_empty ns.servers.list ≡ false
unfolding get
get_served now key {c} ns k h = elim (Option-cases (Map.lookup key c.m)) [
  | inl e ↦ absurd (ground arith)
  | inr (found, e) ↦ elim (Bool-cases (leb found.ttl (elapsed (truncate now) found.update_time))) [
    | inl old ↦ absurd (ground arith)
    | inr new ↦ ground (arith, k.some_server key found e)
  ]
]

-- the search leaves every zone a server, and finds a zone with one
pub search_cache-IsServed :
    (now : ℕ) (rootservers : AuthServers) (fuel : ℕ) (q : Question) (cd : Bool) (c : NsCache)
    {c' : NsCache} {zone : Zone}
    → is_empty rootservers.list ≡ false
    → IsServed c
    → search_cache now rootservers fuel q cd c ≡ some (c', zone)
    → IsServed c' × (is_empty zone.0.list ≡ false)
unfolding search_cache
search_cache-IsServed now roots zero q cd c r k h = absurd (ground arith)
search_cache-IsServed now roots (suc fuel) q cd c {c'} {zone} r k h =
    let asked = record q { qtype = type_ns } in
    let key = hash asked cd in
    let k' = get-IsServed now key k in
    elim (Result-cases (get now key c).1) [
      | inl (ns, e) ↦
          let f = rw (e, search_cache) at h in
          (subst IsServed (cc) k', ground (arith, get_served now key ns k e))
      | inr (x, e) ↦ elim (Bool-cases (is_empty (upper_name q.name))) [
        | inl top ↦ let f = rw (e, top, search_cache) at h in (subst IsServed (cc) k', ground arith)
        | inr on ↦
            search_cache-IsServed now roots fuel (record asked { name = upper_name q.name }) cd _ r
              k' (rw (e, on, search_cache) at h)
      ]
    ]
