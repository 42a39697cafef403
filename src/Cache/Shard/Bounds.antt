-- ===== src/Cache/Shard/Bounds.antt =====
-- The size and the keys of a shard (cache/shard.go).
use sdns.Base.{
  ℕ, suc, ◌+◌, ◌%◌, ◌≤◌, ◌<◌, ◌≡◌, refl, true, [], ◌∷◌, List, some, length, get_elem?, ltb, nat_eq,
  ==_refl, Option-cases, Bool-cases, zero, arith, inl, inr,
}
use sdns.Base.Map
use sdns.Cache.Shard.{Shard, len, remove, first_key, evict, set, new_shard}

pub record IsValid {ℓ} {V : Type ℓ} (s : Shard V) : Type ℓ where
  pub positive : 0 < s.size
  pub bounded : len s ≤ s.size
  pub distinct : Map.IsDistinct s.items

module _ {ℓ} {V : Type ℓ} where
  pub new_shard-IsValid : (size : ℕ) → 0 < size → IsValid (new_shard {V = V} size)
  unfolding new_shard
  new_shard-IsValid size h = record { positive = h; bounded = omega arith; distinct = tt }

  -- an index below the length reads an entry, and its key is in the map
  pub has-get_elem? :
      (m : List (ℕ × V)) (i : ℕ)
      → i < length m
      → (k : ℕ) × (v : V) × (get_elem? m i ≡ some (k, v)) × (Map.has k m ≡ true)
  unfolding Map.lookup
  has-get_elem? [] i h = elim h [ ]
  has-get_elem? ((k, v) ∷ m) zero h = (k, v, refl, ground (arith, ==_refl k))
  has-get_elem? ((k, v) ∷ m) (suc i) h =
      let (j, w, at, found) = has-get_elem? m i (omega arith) in (j, w, at, ground arith)

  -- `Evict` takes exactly one entry out of a shard that has one.
  pub length-evict : (pick : ℕ) (s : Shard V) → 0 < len s → suc (len (evict pick s)) ≡ len s
  unfolding evict first_key remove
  length-evict pick s h =
      let (k, v, at, found) = has-get_elem? s.items (pick % len s) (omega arith) in
      ground (arith, Map.length-remove k s.items)

  pub evict-IsDistinct :
      (pick : ℕ) (s : Shard V) → Map.IsDistinct s.items → Map.IsDistinct (evict pick s).items
  unfolding evict first_key remove
  evict-IsDistinct pick s d = elim (Option-cases (first_key pick s)) [
    | inl e ↦ rw (e, evict) d
    | inr (k, e) ↦ rw (e, evict) (Map.remove-IsDistinct k s.items d)
  ]

  pub size-evict : (pick : ℕ) (s : Shard V) → (evict pick s).size ≡ s.size
  unfolding evict remove
  size-evict pick s = ground arith

  pub remove-IsValid : (key : ℕ) {s : Shard V} → IsValid s → IsValid (remove key s)
  unfolding remove
  remove-IsValid key {s} h = record {
    positive = h.positive;
    bounded = ground (arith, Map.length-remove key s.items, h.bounded);
    distinct = Map.remove-IsDistinct key s.items h.distinct;
  }

  -- A valid shard stays valid under `Set`, whichever entry it evicts: it holds no more entries than
  -- its size, and no key twice.
  pub shard_set-IsValid :
      (pick key : ℕ) (el : V) {s : Shard V} → IsValid s → IsValid (set pick key el s)
  unfolding set
  shard_set-IsValid pick key el {s} h = record {
    positive = ground (arith, h.positive, size-evict pick s);
    bounded = ground (
      arith,
      h.bounded,
      h.positive,
      size-evict pick s,
      length-evict pick s,
      Map.length-insert key el s.items,
      Map.length-insert key el (evict pick s).items,
    );
    distinct = elim (Bool-cases (ltb s.size (len s + 1))) [
      | inl e ↦ rw e (Map.insert-IsDistinct key el _ (evict-IsDistinct pick s h.distinct))
      | inr e ↦ rw e (Map.insert-IsDistinct key el _ h.distinct)
    ];
  }
