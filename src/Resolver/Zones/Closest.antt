-- ===== src/Resolver/Zones/Closest.antt =====
-- The search for the servers of a zone (resolver.go, `searchCache`).
use sdns.Base.{
  ℕ, zero, suc, ◌<◌, ◌≡◌, ◌⊎◌, inl, inr, refl, Bool, [], ◌∷◌, ◌++◌, Bytes, Option, some, length,
  ◌==◌, arith, Bool-cases,
}
use sdns.Cache.Key.{hash}
use sdns.Cache.NsCache
use sdns.Cache.NsCache.{NsCache}
use sdns.Cache.NsCache.Reads.{IsValid, get-IsValid}
use sdns.Cache.Outcome.{Result-cases}
use sdns.Cache.Servers.{AuthServers}
use sdns.Dns.{Question, type_ns}
use sdns.Records.{upper_name_from, upper_name, is_empty}
use sdns.Resolver.Zones.{Zone, search_cache}

-- the name ends with a dot
abbrev pub IsClosed : Bytes → Type 0
IsClosed s = (t : Bytes) × (s ≡ t ++ b'.' ∷ [])

-- what is above a name that ends with a dot: nothing, or a shorter such name
upper_name_from-IsClosed :
    (whole t : Bytes)
    → let up = upper_name_from whole (t ++ b'.' ∷ []) in
      (length up < length (t ++ b'.' ∷ [])) × ((up ≡ []) ⊎ IsClosed up)
unfolding upper_name_from
upper_name_from-IsClosed whole [] = (omega arith, inl refl)
upper_name_from-IsClosed whole (c ∷ t) = elim (Bool-cases (c == b'.')) [
  | inl e ↦ rw e (omega arith, inr (t, refl))
  | inr e ↦
      let (shorter, above) = upper_name_from-IsClosed whole t in
      rw e (omega (arith, shorter), above)
]

upper_name-IsClosed :
    (s : Bytes)
    → IsClosed s
    → (length (upper_name s) < length s) × ((upper_name s ≡ []) ⊎ IsClosed (upper_name s))
unfolding upper_name
upper_name-IsClosed s (t, e) = rw e (upper_name_from-IsClosed (t ++ b'.' ∷ []) t)

module _ (now : ℕ) (rootservers : AuthServers) where
  -- a result of the search from a cache that is valid: a valid cache, and a zone
  pub data Finds : Option (NsCache × Zone) → Type 0 where
    finds : {c : NsCache} {z : Zone} → IsValid c → Finds (some (c, z))

  -- The search ends for a name that ends with a dot, on fuel above the length of the name, and keeps
  -- the cache valid.
  pub search_cache_total :
      (fuel : ℕ) (q : Question) (cd : Bool) (c : NsCache)
      → IsClosed q.name
      → length q.name < fuel
      → IsValid c
      → Finds (search_cache now rootservers fuel q cd c)
  unfolding search_cache
  search_cache_total zero q cd c closed h v = absurd (omega arith)
  search_cache_total (suc fuel) q cd c closed h v =
      let asked = record q { qtype = type_ns } in
      let k = get-IsValid now (hash asked cd) c v in
      let (shorter, above) = upper_name-IsClosed q.name closed in
      elim (Result-cases (NsCache.get now (hash asked cd) c).1) [
        | inl (ns, e) ↦ rw (e, search_cache) (finds k)
        | inr (x, e) ↦ elim above [
          | inl top ↦ rw (e, search_cache, top) (finds k)
          | inr closed' ↦ elim (Bool-cases (is_empty (upper_name q.name))) [
            | inl f ↦ rw (e, search_cache, f) (finds k)
            | inr f ↦
                rw (e, search_cache, f)
                  (search_cache_total fuel (record asked { name = upper_name q.name }) cd _ closed'
                    (omega (arith, shorter, h)) k)
          ]
        ]
      ]
