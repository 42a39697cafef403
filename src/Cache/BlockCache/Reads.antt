-- ===== src/Cache/BlockCache/Reads.antt =====
-- Reads of the block list after its operations (cache/block_cache.go).
use sdns.Base.{
  ◌≡◌, refl, Bool, true, false, Bytes, bytes_Eq, bytes_eq, bytes_eq_iff, to_lower, some,
  if◌then◌else◌, arith, inl, inr, Bool-cases, Option-cases,
}
use sdns.Base.Map
use sdns.Cache.BlockCache.{BlockCache, get, remove, set, exists, count, new_block_cache}

pub record IsValid (c : BlockCache) : Type 0 where
  pub distinct : Map.IsDistinct c.m
  pub blocked : (key : Bytes) {val : Bool} → Map.lookup key c.m ≡ some val → val ≡ true

pub new_block_cache-IsValid : IsValid new_block_cache
unfolding new_block_cache Map.lookup
new_block_cache-IsValid = record { distinct = tt; blocked = λ key {val} h. ground arith }

pub set-IsValid : (key : Bytes) {c : BlockCache} → IsValid c → IsValid (set key c)
unfolding set
set-IsValid key {c} h = record {
  distinct = Map.insert-IsDistinct (to_lower key) true c.m h.distinct;
  blocked = λ j {val} e.
      ground (arith, Map.lookup-insert (to_lower key) j true c.m, h.blocked j {val = val});
}

pub remove-IsValid : (key : Bytes) {c : BlockCache} → IsValid c → IsValid (remove key c)
unfolding remove
remove-IsValid key {c} h = record {
  distinct = Map.remove-IsDistinct (to_lower key) c.m h.distinct;
  blocked = λ j {val} e. elim (Bool-cases (bytes_eq (to_lower key) j)) [
    | inl q ↦
        ground (
          arith,
          bytes_eq_iff (to_lower key) j,
          Map.lookup-remove_self (to_lower key) c.m h.distinct,
        )
    | inr q ↦ ground (arith, Map.lookup-remove_ne (to_lower key) j c.m q, h.blocked j {val = val})
  ];
}

-- the same name, up to the case of its letters
abbrev pub same_name : Bytes → Bytes → Bool
same_name s t = bytes_eq (to_lower s) (to_lower t)

-- `Set` adds exactly the names that are equal to the key without regard to case.
pub exists-set :
    (key name : Bytes) (c : BlockCache)
    → exists name (set key c) ≡ (if same_name key name then true else exists name c)
unfolding exists set
exists-set key name c = ground (arith, Map.lookup-insert (to_lower key) (to_lower name) true c.m)

-- On a valid block list, `Remove` takes out exactly the names that are equal to the key without
-- regard to case.
pub exists-remove :
    (key name : Bytes) {c : BlockCache}
    → IsValid c
    → exists name (remove key c) ≡ (if same_name key name then false else exists name c)
unfolding exists remove
exists-remove key name {c} h = elim (Bool-cases (same_name key name)) [
  | inl e ↦
      rw (e, ← (bytes_eq_iff (to_lower key) (to_lower name)).0 e)
        (rw (Map.lookup-remove_self (to_lower key) c.m h.distinct) refl)
  | inr e ↦ rw (e, Map.lookup-remove_ne (to_lower key) (to_lower name) c.m e) refl
]

-- `Get` returns true with no error for a name that `Exists` finds, and otherwise false and an error.
pub get-eq-exists :
    (name : Bytes) (c : BlockCache) → IsValid c → get name c ≡ (exists name c, exists name c)
unfolding get exists
get-eq-exists name c h = elim (Option-cases (Map.lookup (to_lower name) c.m)) [
  | inl e ↦ rw (e, get) refl
  | inr (val, e) ↦ rw (e, get) (rw (h.blocked (to_lower name) e) refl)
]

-- A name counts once, however often and in whatever case it is set.
pub count-set_twice :
    (key name : Bytes) (c : BlockCache)
    → same_name key name ≡ true
    → count (set name (set key c)) ≡ count (set key c)
unfolding count set
count-set_twice key name c e =
    rw
      (
        ← (bytes_eq_iff (to_lower key) (to_lower name)).0 e,
        Map.length-insert,
        Map.lookup-insert_self,
      )
      refl
