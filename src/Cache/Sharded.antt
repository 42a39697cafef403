-- ===== src/Cache/Sharded.antt =====
-- The array of shards that the error cache and the query cache share (cache/error_cache.go,
-- cache/query_cache.go): `[shardSize]*shard`, a function on the indices below 256.
pub mod Laws
use sdns.Base.{ℕ, ◌+◌, ◌%◌, ◌≡◌, zero, suc, Option, ltb, if◌then◌else◌, ◌==◌, ◌/◌, nat_eq}
use sdns.Base.Map
use sdns.Cache.Shard
use sdns.Cache.Shard.{Shard}

abbrev pub shard_size : ℕ
shard_size = 256

-- `key & (shardSize - 1)`, for the power of two 256
unfoldable pub index : ℕ → ℕ
index key = key % shard_size

-- `size / shardSize`, and at least 4
unfoldable pub size_each : ℕ → ℕ
size_each size = if ltb (size / shard_size) 4 then 4 else size / shard_size

abbrev pub Shards {ℓ} : Type ℓ → Type ℓ
Shards V = ℕ → Shard V

module _ {ℓ} {V : Type ℓ} where
  abbrev pub at_put : Shards V → ℕ → Shard V → Shards V
  at_put c i s = λ j. if i == j then s else c j

  unfoldable pub new_shards : ℕ → Shards V
  unfolding size_each
  new_shards size = λ i. Shard.new_shard (size_each size)

  unfoldable pub get : ℕ → Shards V → Option V
  unfolding index
  get key c = Shard.get key (c (index key))

  unfoldable pub set : ℕ → ℕ → V → Shards V → Shards V
  unfolding index
  set pick key el c = at_put c (index key) (Shard.set pick key el (c (index key)))

  unfoldable pub remove : ℕ → Shards V → Shards V
  unfolding index
  remove key c = at_put c (index key) (Shard.remove key (c (index key)))

  -- A write through the pointer that the map holds: the entry for the key becomes `el`.
  unfoldable pub write : ℕ → V → Shards V → Shards V
  unfolding index
  write key el c =
      at_put c (index key)
        (record (c (index key)) { items = Map.insert key el (c (index key)).items })

  sum_below : ℕ → Shards V → ℕ
  sum_below zero c = 0
  sum_below (suc i) c = sum_below i c + Shard.len (c i)

  -- `Len`
  unfoldable pub len : Shards V → ℕ
  unfolding sum_below
  len c = sum_below shard_size c
