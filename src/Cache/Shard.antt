-- ===== src/Cache/Shard.antt =====
-- cache/shard.go: a bounded map from hash keys to values, with random eviction. Go's map iteration
-- order is random; each operation that iterates takes a number that picks the first key.
pub mod Bounds
pub mod Overlap
pub mod Reads
use sdns.Base.{
  ℕ, ◌+◌, ◌%◌, List, [], Option, none, some, length, get_elem?, ltb, if◌then◌else◌, nat_eq,
}
use sdns.Base.Map

pub record Shard {ℓ} (V : Type ℓ) : Type ℓ where
  pub items : List (ℕ × V)
  pub size : ℕ

module _ {ℓ} {V : Type ℓ} where
  -- `newShard`
  unfoldable pub new_shard : ℕ → Shard V
  new_shard size = record { items = []; size = size }

  -- `Len`
  abbrev pub len : Shard V → ℕ
  len s = length s.items

  -- `Get`
  unfoldable pub get : ℕ → Shard V → Option V
  unfolding Map.lookup
  get key s = Map.lookup key s.items

  -- `Remove`
  unfoldable pub remove : ℕ → Shard V → Shard V
  remove key s = record s { items = Map.remove key s.items }

  -- The key at which a `range` over the map begins.
  unfoldable pub first_key : ℕ → Shard V → Option ℕ
  first_key pick s = elim (get_elem? s.items (pick % len s)) [ none ↦ none | some (k, v) ↦ some k ]

  -- `Evict`
  unfoldable pub evict : ℕ → Shard V → Shard V
  evict pick s = elim (first_key pick s) [ none ↦ s | some key ↦ remove key s ]

  -- `Set`
  unfoldable pub set : ℕ → ℕ → V → Shard V → Shard V
  set pick key el s =
      let room = if ltb s.size (len s + 1) then evict pick s else s in
      record room { items = Map.insert key el room.items }
