-- ===== src/Cache/Shard/Reads.antt =====
-- What can be read from a shard after each operation (cache/shard.go).
use sdns.Base.{
  ℕ, suc, ◌+◌, ◌≡◌, refl, Bool, true, false, Option, none, some, ltb, if◌then◌else◌, nat_eq, ==_iff,
  Option-cases, Bool-cases, ◌==◌, arith, inl, inr, is_some,
}
use sdns.Base.Map
use sdns.Cache.Shard.{Shard, len, get, remove, first_key, evict, set, new_shard}
use sdns.Cache.Shard.Bounds.{IsValid, length-evict, size-evict}

abbrev pub is_key : Option ℕ → ℕ → Bool
is_key none j = false
is_key (some k) j = k == j

module _ {ℓ} {V : Type ℓ} where
  -- the key that `Set` evicts, if the shard has no room
  abbrev pub victim : ℕ → Shard V → Option ℕ
  victim pick s = if ltb s.size (len s + 1) then first_key pick s else none

  pub get-new_shard : (j size : ℕ) → get j (new_shard {V = V} size) ≡ none
  unfolding get new_shard
  get-new_shard j size = refl

  pub get-remove :
      (key j : ℕ) {s : Shard V}
      → IsValid s
      → get j (remove key s) ≡ (if key == j then none else get j s)
  unfolding get remove
  get-remove key j {s} h = ground (
    arith,
    ==_iff key j,
    Map.lookup-remove_ne key j s.items,
    Map.lookup-remove_self key s.items h.distinct,
  )

  get-evict :
      (pick j : ℕ) {s : Shard V}
      → IsValid s
      → get j (evict pick s) ≡ (if is_key (first_key pick s) j then none else get j s)
  unfolding evict
  get-evict pick j {s} h = elim (Option-cases (first_key pick s)) [
    | inl e ↦ rw (e, evict) refl
    | inr (k, e) ↦ rw (e, evict) (get-remove k j h)
  ]

  -- In a valid shard, a write is read back, at most one other entry is lost to it, and that only if
  -- the shard was full.
  pub get-set_entry :
      (pick key j : ℕ) (el : V) {s : Shard V}
      → IsValid s
      → get j (set pick key el s)
        ≡ (if key == j then some el else if is_key (victim pick s) j then none else get j s)
  unfolding set get
  get-set_entry pick key j el {s} h = elim (Bool-cases (ltb s.size (len s + 1))) [
    | inl e ↦ rw (e, Map.lookup-insert) (unfold get in ground (arith, get-evict pick j h))
    | inr e ↦ rw (e, Map.lookup-insert) refl
  ]

  -- A valid shard that is full loses an entry also when the key is there already and another one is
  -- evicted.
  pub length-set_full :
      (pick key : ℕ) (el : V) {s : Shard V}
      → IsValid s
      → len s ≡ s.size
      → is_some (get key s) ≡ true
      → is_key (victim pick s) key ≡ false
      → suc (len (set pick key el s)) ≡ s.size
  unfolding set get
  length-set_full pick key el {s} h full there other = ground (
    arith,
    h.positive,
    length-evict pick s,
    size-evict pick s,
    get-evict pick key h,
    Map.length-insert key el (evict pick s).items,
  )
