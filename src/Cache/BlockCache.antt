-- ===== src/Cache/BlockCache.antt =====
-- cache/block_cache.go: the blocked domains, under their names in lower case.
pub mod Reads
pub mod Refinement
use sdns.Base.{
  ℕ, Bool, true, false, List, [], Bytes, bytes_Eq, to_lower, Option, none, some, length,
}
use sdns.Base.Map

-- `BlockCache`
pub record BlockCache : Type 0 where
  pub m : List (Bytes × Bool)

-- `NewBlockCache`
unfoldable pub new_block_cache : BlockCache
new_block_cache = record { m = [] }

-- `Get`: the value, and whether the error is `nil`
unfoldable pub get : Bytes → BlockCache → Bool × Bool
get key c = elim (Map.lookup (to_lower key) c.m) [ none ↦ (false, false) | some val ↦ (val, true) ]

-- `Remove`
unfoldable pub remove : Bytes → BlockCache → BlockCache
remove key c = record c { m = Map.remove (to_lower key) c.m }

-- `Set`
unfoldable pub set : Bytes → BlockCache → BlockCache
set key c = record c { m = Map.insert (to_lower key) true c.m }

-- `Exists`
unfoldable pub exists : Bytes → BlockCache → Bool
exists key c = Map.has (to_lower key) c.m

-- `Length`
unfoldable pub count : BlockCache → ℕ
count c = length c.m
