-- ===== src/Cache/ErrorCache.antt =====
-- cache/error_cache.go: the questions that failed lately, each with the second of its failure. A
-- method that changes the cache returns the new one; `none` is the `nil` error of a hit.
pub mod Reads
use sdns.Base.{ℕ, ◌+◌, ◌/◌, Option, none, some, ltb, leb, if◌then◌else◌}
use sdns.Cache.Clock.{truncate, elapsed}
use sdns.Cache.Outcome.{CacheError, not_found, expired}
use sdns.Cache.Sharded
use sdns.Cache.Sharded.{Shards}

pub record ErrorCache : Type 0 where
  pub shards : Shards ℕ
  pub ttl : ℕ  -- uint32

-- `NewErrorCache`
unfoldable pub new_error_cache : ℕ → ℕ → ErrorCache
new_error_cache size ttl = record { shards = Sharded.new_shards size; ttl = ttl }

-- `Remove`
unfoldable pub remove : ℕ → ErrorCache → ErrorCache
remove key c = record c { shards = Sharded.remove key c.shards }

-- `Get`, at the time of its call
unfoldable pub get : ℕ → ℕ → ErrorCache → ErrorCache × Option CacheError
unfolding remove
get now key c = elim (Sharded.get key c.shards) [
  | none ↦ (c, some not_found)
  | some t ↦
      if leb c.ttl (elapsed (truncate now) t) then (remove key c, some expired) else (c, none)
]

-- `Set`, at the time of its call
unfoldable pub set : ℕ → ℕ → ℕ → ErrorCache → ErrorCache
set pick now key c = record c { shards = Sharded.set pick key (truncate now) c.shards }

-- `Len`
unfoldable pub len : ErrorCache → ℕ
len c = Sharded.len c.shards
