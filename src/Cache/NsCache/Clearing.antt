-- ===== src/Cache/NsCache/Clearing.antt =====
-- The hourly clearing of the nameserver cache (cache/ns_cache.go, `clear`).
use sdns.Base.{
  ℕ, suc, ◌≡◌, refl, Bool, false, List, [], ◌∷◌, Option, none, some, leb, if◌then◌else◌, nat_eq,
  Bool-cases, Option-cases, inl, inr, arith, ==_iff, ◌||◌,
}
use sdns.Base.Map
use sdns.Cache.Clock.{truncate, elapsed}
use sdns.Cache.NsCache.{Ns, NsCache, clear_from, count}

-- an entry that has used up its time
abbrev pub is_expired : ℕ → Option Ns → Bool
is_expired now none = false
is_expired now (some ns) = leb ns.ttl (elapsed (truncate now) ns.update_time)

-- Clearing keeps every entry that has time left.
pub lookup-clear_from :
    (now key : ℕ) (order : List ℕ) (c : NsCache)
    → is_expired now (Map.lookup key c.m) ≡ false
    → Map.lookup key (clear_from now order c).m ≡ Map.lookup key c.m
unfolding clear_from
lookup-clear_from now key [] c h = refl
lookup-clear_from now key (k ∷ order) c h = elim (Option-cases (Map.lookup k c.m)) [
  | inl e ↦ rw (e, clear_from) (lookup-clear_from now key order c h)
  | inr (ns, e) ↦ elim (Bool-cases (leb ns.ttl (elapsed (truncate now) ns.update_time))) [
    | inl old ↦
        rw (e, clear_from, old) (Map.lookup-remove_ne k key c.m (ground (arith, ==_iff k key)))
    | inr new ↦ rw (e, clear_from, new) (lookup-clear_from now key order c h)
  ]
]

-- whether the iteration meets an expired entry
abbrev pub meets_expired : ℕ → List ℕ → NsCache → Bool
meets_expired now [] c = false
meets_expired now (k ∷ order) c = is_expired now (Map.lookup k c.m) || meets_expired now order c

-- One call removes one entry if it meets an expired one, and otherwise none: further expired
-- entries stay.
pub count-clear_from :
    (now : ℕ) (order : List ℕ) (c : NsCache)
    → (if meets_expired now order c
        then suc (count (clear_from now order c))
        else count (clear_from now order c))
      ≡ count c
unfolding clear_from count
count-clear_from now [] c = refl
count-clear_from now (k ∷ order) c = elim (Option-cases (Map.lookup k c.m)) [
  | inl e ↦ rw (e, clear_from) (count-clear_from now order c)
  | inr (ns, e) ↦ elim (Bool-cases (leb ns.ttl (elapsed (truncate now) ns.update_time))) [
    | inl old ↦ rw (e, clear_from, old) (ground (arith, Map.length-remove k c.m))
    | inr new ↦ rw (e, clear_from, new) (count-clear_from now order c)
  ]
]
