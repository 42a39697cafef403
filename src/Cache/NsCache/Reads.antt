-- ===== src/Cache/NsCache/Reads.antt =====
-- How long the servers of a zone are used (cache/ns_cache.go).
use sdns.Base.{
  ℕ, ◌-◌, ◌^◌, ◌≤◌, ◌<◌, ◌≡◌, List, some, leb, ltb, if◌then◌else◌, nat_eq, Bool-cases, Option-cases,
  inl, inr, arith, codes, ◌∙◌, sym,
}
use sdns.Base.Map
use sdns.Cache.Clock.{truncate, elapsed, elapsed_exact, elapsed-add_elapsed}
use sdns.Cache.Outcome.{Result, ok, err, expired}
use sdns.Cache.Servers.{AuthServers}
use sdns.Cache.NsCache.{Ns, NsCache, get, set}
use sdns.Dns.{Rr}

abbrev pub IsValid : NsCache → Type 0
IsValid c = Map.IsDistinct c.m

pub set-IsValid :
    (now key : ℕ) (dsrr : List Rr) (ttl : ℕ) (servers : AuthServers) (c : NsCache)
    → IsValid c
    → IsValid (set now key dsrr ttl servers c)
unfolding set
set-IsValid now key dsrr ttl servers c h = Map.insert-IsDistinct key _ c.m h

pub get-IsValid : (now key : ℕ) (c : NsCache) → IsValid c → IsValid (get now key c).0
unfolding get
get-IsValid now key c h = elim (Option-cases (Map.lookup key c.m)) [
  | inl e ↦ rw (e, get) h
  | inr (ns, e) ↦ elim (Bool-cases (leb ns.ttl (elapsed (truncate now) ns.update_time))) [
    | inl old ↦ rw (e, get, old) (Map.remove-IsDistinct key c.m h)
    | inr new ↦ rw (e, get, new) (Map.insert-IsDistinct key _ c.m h)
  ]
]

-- The servers that `Set` stores are found for less than `ttl` seconds, with the rest of the time as
-- their TTL, and have expired from then on; this is for lookups less than 2 ^ 32 seconds later.
pub get-set_servers :
    (stored now key : ℕ) (dsrr : List Rr) (ttl : ℕ) (servers : AuthServers) (c : NsCache)
    → truncate stored ≤ truncate now
    → truncate now - truncate stored < 2 ^ 32
    → let e = truncate now - truncate stored in
      (get now key (set stored key dsrr ttl servers c)).1 ≡ (
        if ltb e ttl
        then ok (record {
          servers = servers;
          network = codes "v4";
          dsrr = dsrr;
          ttl = ttl - e;
          update_time = truncate now;
        })
        else err expired)
unfolding get set
get-set_servers stored now key dsrr ttl servers c le fits =
    rw (Map.lookup-insert_self key _ c.m, get)
      (rw (elapsed_exact (truncate now) (truncate stored) le fits) (ground arith))

-- the result of `Get` from the entry
abbrev response : ℕ → Ns → Result Ns
response now ns =
    let e = elapsed now ns.update_time in
    if leb ns.ttl e then err expired else ok (record ns { ttl = ns.ttl - e; update_time = now })

get_found :
    (now key : ℕ) (ns : Ns) (c : NsCache)
    → Map.lookup key c.m ≡ some ns
    → (get now key c).1 ≡ response (truncate now) ns
unfolding get
get_found now key ns c e = rw (e, get) (ground arith)

get_aged :
    (now key : ℕ) (ns ns' : Ns) (c : NsCache)
    → Map.lookup key c.m ≡ some ns
    → response (truncate now) ns ≡ ok ns'
    → Map.lookup key (get now key c).0.m ≡ some ns'
unfolding get
get_aged now key ns ns' c e r =
    elim (Bool-cases (leb ns.ttl (elapsed (truncate now) ns.update_time))) [
      | inl old ↦ absurd (ground arith)
      | inr new ↦ rw (e, get, new) (Map.lookup-insert_self key _ c.m ∙ ground arith)
    ]

response-response :
    (t u : ℕ) (ns ns' : Ns)
    → ns.update_time ≤ t
    → t ≤ u
    → u - ns.update_time < 2 ^ 32
    → response t ns ≡ ok ns'
    → response u ns' ≡ response u ns
response-response t u ns ns' le le' fits r =
    ground (arith, elapsed-add_elapsed ns.update_time t u le le' fits)

-- A hit changes nothing that a later lookup of the same key can see, for an entry whose last
-- reading is less than 2 ^ 32 seconds ago: the time left runs by the clock alone.
pub get-get_servers :
    (t u key : ℕ) (ns ns' : Ns) (c : NsCache)
    → Map.lookup key c.m ≡ some ns
    → ns.update_time ≤ truncate t
    → truncate t ≤ truncate u
    → truncate u - ns.update_time < 2 ^ 32
    → (get t key c).1 ≡ ok ns'
    → (get u key (get t key c).0).1 ≡ (get u key c).1
get-get_servers t u key ns ns' c found le le' fits hit =
    let r = sym (get_found t key ns c found) ∙ hit in
    get_found u key ns' (get t key c).0 (get_aged t key ns ns' c found r)
    ∙ response-response (truncate t) (truncate u) ns ns' le le' fits r
    ∙ sym (get_found u key ns c found)
