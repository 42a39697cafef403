-- ===== src/Cache/Sharded/Laws.antt =====
-- Reads and sizes of an array of shards (cache/error_cache.go, cache/query_cache.go).
use sdns.Base.{
  ◌⊎◌, ℕ, suc, zero, ◌*◌, ◌≤◌, ◌≡◌, true, none, some, if◌then◌else◌, nat_eq, ==_iff, Bool-cases,
  ◌==◌, arith, inl, inr, is_some, ==_refl,
}
use sdns.Base.Map
use sdns.Cache.Shard
use sdns.Cache.Shard.{Shard}
use sdns.Cache.Shard.Bounds
use sdns.Cache.Shard.Reads
use sdns.Cache.Sharded.{
  Shards, index, size_each, new_shards, get, set, remove, write, len, sum_below, shard_size,
}

abbrev pub IsValid {ℓ} : {V : Type ℓ} → Shards V → Type ℓ
IsValid c = (i : ℕ) → Bounds.IsValid (c i)

module _ {ℓ} {V : Type ℓ} where
  pub new_shards-IsValid : (size : ℕ) → IsValid (new_shards {V = V} size)
  unfolding new_shards
  new_shards-IsValid size i = Bounds.new_shard-IsValid (size_each size) (ground arith)

  pub set-IsValid : (pick key : ℕ) (el : V) {c : Shards V} → IsValid c → IsValid (set pick key el c)
  unfolding set
  set-IsValid pick key el {c} h i = elim (Bool-cases (index key == i)) [
    | inl e ↦ rw e (Bounds.shard_set-IsValid pick key el (h (index key)))
    | inr e ↦ rw e (h i)
  ]

  pub remove-IsValid : (key : ℕ) {c : Shards V} → IsValid c → IsValid (remove key c)
  unfolding remove
  remove-IsValid key {c} h i = elim (Bool-cases (index key == i)) [
    | inl e ↦ rw e (Bounds.remove-IsValid key (h (index key)))
    | inr e ↦ rw e (h i)
  ]

  pub write-IsValid :
      (key : ℕ) (el : V) {c : Shards V}
      → is_some (get key c) ≡ true
      → IsValid c
      → IsValid (write key el c)
  unfolding write get Shard.get
  write-IsValid key el {c} found h i = elim (Bool-cases (index key == i)) [
    | inl e ↦ rw e (record {
      positive = (h (index key)).positive;
      bounded =
          ground (arith, (h (index key)).bounded, Map.length-insert key el (c (index key)).items);
      distinct = Map.insert-IsDistinct key el _ (h (index key)).distinct;
    })
    | inr e ↦ rw e (h i)
  ]

  pub get-set_self :
      (pick key : ℕ) (el : V) {c : Shards V} → IsValid c → get key (set pick key el c) ≡ some el
  unfolding get set
  get-set_self pick key el {c} h =
      rw (==_refl (index key), Reads.get-set_entry pick key key el (h (index key)), ==_refl key)

  -- a write adds its own entry alone
  pub get-set_kept :
      (pick key j : ℕ) (el v : V) {c : Shards V}
      → IsValid c
      → get j (set pick key el c) ≡ some v
      → (v ≡ el) ⊎ (get j c ≡ some v)
  unfolding get set
  get-set_kept pick key j el v {c} h found = elim (Bool-cases (index key == index j)) [
    | inr q ↦ inr (rw q at found)
    | inl q ↦
        let e = Reads.get-set_entry pick key j el (h (index key)) in
        let i = (==_iff (index key) (index j)).0 q in
        let f : Shard.get j (Shard.set pick key el (c (index key))) ≡ some v = rw q at found in
        elim (Bool-cases (key == j)) [
          | inl k ↦ inl (ground arith)
          | inr k ↦
              let kept : Shard.get j (c (index key)) ≡ some v = ground arith in inr (rw i at kept)
        ]
  ]

  pub get-remove :
      (key j : ℕ) {c : Shards V}
      → IsValid c
      → get j (remove key c) ≡ (if key == j then none else get j c)
  unfolding get remove
  get-remove key j {c} h = elim (Bool-cases (key == j)) [
    | inl e ↦
        rw (e, ← (==_iff key j).0 e, ==_refl (index key))
          (rw (Reads.get-remove key key (h (index key)), ==_refl key))
    | inr e ↦ elim (Bool-cases (index key == index j)) [
      | inl q ↦
          rw (e, q)
            (rw (Reads.get-remove key j (h (index key)), e)
              (rw ((==_iff (index key) (index j)).0 q)))
      | inr q ↦ rw (e, q)
    ]
  ]

  pub get-write :
      (key j : ℕ) (el : V) (c : Shards V)
      → get j (write key el c) ≡ (if key == j then some el else get j c)
  unfolding get write Shard.get
  get-write key j el c = elim (Bool-cases (key == j)) [
    | inl e ↦ rw (e, ← (==_iff key j).0 e, ==_refl (index key)) (Map.lookup-insert_self key el _)
    | inr e ↦ elim (Bool-cases (index key == index j)) [
      | inl q ↦ rw (e, q) (rw (Map.lookup-insert, e) (rw ((==_iff (index key) (index j)).0 q)))
      | inr q ↦ rw (e, q)
    ]
  ]

  sum_below-le : (n b : ℕ) (c : Shards V) → ((i : ℕ) → Shard.len (c i) ≤ b) → sum_below n c ≤ n * b
  unfolding sum_below
  sum_below-le zero b c h = omega arith
  sum_below-le (suc n) b c h = grind (arith, sum_below-le n b c h, h n)

  -- The whole cache holds at most 256 times the size of a shard.
  pub len-le : (b : ℕ) (c : Shards V) → ((i : ℕ) → Shard.len (c i) ≤ b) → len c ≤ shard_size * b
  unfolding len
  len-le b c h = sum_below-le shard_size b c h
