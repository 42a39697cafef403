-- ===== src/Cache/ErrorCache/Reads.antt =====
-- How long a failure is remembered (cache/error_cache.go).
use sdns.Base.{
  ℕ, ◌-◌, ◌≤◌, ◌<◌, ◌^◌, ◌≡◌, refl, Option, none, some, leb, if◌then◌else◌, ltb, Bool-cases,
  Option-cases, inl, inr, arith, ==_refl,
}
use sdns.Cache.Clock.{truncate, elapsed, elapsed_exact}
use sdns.Cache.Outcome.{CacheError, not_found, expired}
use sdns.Cache.Sharded
use sdns.Cache.Sharded.Laws
use sdns.Cache.ErrorCache.{ErrorCache, new_error_cache, get, set}

abbrev pub IsValid : ErrorCache → Type 0
IsValid c = Laws.IsValid c.shards

-- the error of `Get` for a key that was stored at a time
abbrev pub verdict : ℕ → ℕ → ℕ → Option CacheError
verdict ttl now stored = if ltb (truncate now - truncate stored) ttl then none else some expired

pub new_error_cache-IsValid : (size ttl : ℕ) → IsValid (new_error_cache size ttl)
unfolding new_error_cache
new_error_cache-IsValid size ttl = Laws.new_shards-IsValid size

pub set-IsValid : (pick now key : ℕ) (c : ErrorCache) → IsValid c → IsValid (set pick now key c)
unfolding set
set-IsValid pick now key c h = Laws.set-IsValid pick key (truncate now) h

pub get-IsValid : (now key : ℕ) (c : ErrorCache) → IsValid c → IsValid (get now key c).0
unfolding get
get-IsValid now key c h = elim (Option-cases (Sharded.get key c.shards)) [
  | inl e ↦ rw (e, get) h
  | inr (t, e) ↦ elim (Bool-cases (leb c.ttl (elapsed (truncate now) t))) [
    | inl old ↦ rw (e, get) (rw old (Laws.remove-IsValid key h))
    | inr new ↦ rw (e, get) (rw new h)
  ]
]

-- In a valid cache, a failure is a hit for less than `ttl` seconds after it was stored, and expired
-- from then on; this is for lookups less than 2 ^ 32 seconds later.
pub get-set_failure :
    (pick stored now key : ℕ) (c : ErrorCache)
    → IsValid c
    → truncate stored ≤ truncate now
    → truncate now - truncate stored < 2 ^ 32
    → (get now key (set pick stored key c)).1 ≡ verdict c.ttl now stored
unfolding get set
get-set_failure pick stored now key c h le fits =
    rw (Laws.get-set_self pick key (truncate stored) h, get)
      (rw (elapsed_exact (truncate now) (truncate stored) le fits) (ground arith))

-- A key that `Get` found expired is gone: the next `Get` does not find it, whenever it comes.
pub get-get_expired :
    (now later key : ℕ) (c : ErrorCache)
    → IsValid c
    → (get now key c).1 ≡ some expired
    → (get later key (get now key c).0).1 ≡ some not_found
unfolding get
get-get_expired now later key c h old = elim (Option-cases (Sharded.get key c.shards)) [
  | inl e ↦ absurd (ground arith)
  | inr (t, e) ↦ elim (Bool-cases (leb c.ttl (elapsed (truncate now) t))) [
    | inl q ↦ rw (e, get, q) (rw (Laws.get-remove key key h, ==_refl key) refl)
    | inr q ↦ absurd (ground arith)
  ]
]
