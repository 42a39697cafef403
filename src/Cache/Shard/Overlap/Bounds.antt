-- ===== src/Cache/Shard/Overlap/Bounds.antt =====
-- The size of a shard whose calls of `Set` do not overlap (cache/shard.go).
use mathlib.Core.Path.{subst}
use sdns.Base.{
  ℕ, suc, ◌%◌, ==_iff, nat_eq, ◌≡◌, ◌≤◌, refl, List, [], ◌∷◌, ◌++◌, length, get_elem?, ltb, All,
  All_at, arith, Option-cases, Bool-cases, none, inl, inr,
}
use sdns.Base.Map
use sdns.Cache.Shard.{Shard, len, first_key, remove}
use sdns.Cache.Shard.Bounds.{IsValid, has-get_elem?, remove-IsValid}
use sdns.Cache.Shard.Overlap.{
  Task, starting, evicting, removing, storing, deleting, finished, System, turn, sets, store, Step,
  begins_set, begins_remove, moves, Reach, here, later, is_set,
}
use sdns.Cache.Shard.Overlap.Laws.{sets-append}

module _ {ℓ} {V : Type ℓ} where
  -- what a running `Set` relies on: after the removal to come there is room for one more entry
  abbrev Fits : Shard V → Task V → Type 0
  Fits s (removing k key el) = suc (len (remove k s)) ≤ s.size
  Fits s (storing key el) = suc (len s) ≤ s.size
  Fits s t = Unit

  record IsSerial (m : System V) : Type ℓ where
    shard : IsValid m.shard
    one : sets m.tasks ≤ 1
    fits : All (Fits m.shard) m.tasks

  is_set-turn : (t : Task V) (pick : ℕ) (s : Shard V) → is_set (turn pick t s).0 ≤ is_set t
  unfolding turn
  is_set-turn (starting key el) pick s = ground arith
  is_set-turn (evicting key el) pick s = ground arith
  is_set-turn (removing k key el) pick s = omega arith
  is_set-turn (storing key el) pick s = omega arith
  is_set-turn (deleting key) pick s = omega arith
  is_set-turn finished pick s = omega arith

  store-IsValid :
      (key : ℕ) (el : V) (s : Shard V) → IsValid s → suc (len s) ≤ s.size → IsValid (store key el s)
  unfolding store
  store-IsValid key el s v room = record {
    positive = v.positive;
    bounded = ground (arith, Map.length-insert key el s.items);
    distinct = Map.insert-IsDistinct key el s.items v.distinct;
  }

  remove-shrinks :
      (k key : ℕ) (m : List (ℕ × V))
      → Map.IsDistinct m
      → length (Map.remove k (Map.remove key m)) ≤ length (Map.remove k m)
  remove-shrinks k key m d = ground (
    arith,
    ==_iff key k,
    Map.length-remove key m,
    Map.length-remove k m,
    Map.length-remove k (Map.remove key m),
    Map.lookup-remove_ne key k m,
    Map.lookup-remove_self key m d,
  )

  remove-Fits :
      (key : ℕ) (s : Shard V) (ts : List (Task V))
      → IsValid s
      → All (Fits s) ts
      → All (Fits (remove key s)) ts
  unfolding remove
  remove-Fits key s [] v h = tt
  remove-Fits key s (starting j el ∷ ts) v h = (tt, remove-Fits key s ts v h.1)
  remove-Fits key s (evicting j el ∷ ts) v h = (tt, remove-Fits key s ts v h.1)
  remove-Fits key s (removing k j el ∷ ts) v h =
      (omega (arith, h.0, remove-shrinks k key s.items v.distinct), remove-Fits key s ts v h.1)
  remove-Fits key s (storing j el ∷ ts) v h =
      (ground (arith, h.0, Map.length-remove key s.items), remove-Fits key s ts v h.1)
  remove-Fits key s (deleting j ∷ ts) v h = (tt, remove-Fits key s ts v h.1)
  remove-Fits key s (finished ∷ ts) v h = (tt, remove-Fits key s ts v h.1)

  -- calls that are no `Set` fit every shard
  quiet-Fits : (s : Shard V) (ts : List (Task V)) → sets ts ≡ 0 → All (Fits s) ts
  unfolding sets
  quiet-Fits s [] h = tt
  quiet-Fits s (removing k j el ∷ ts) h = absurd (omega (arith, h))
  quiet-Fits s (storing j el ∷ ts) h = absurd (omega (arith, h))
  quiet-Fits s (starting j el ∷ ts) h = absurd (omega (arith, h))
  quiet-Fits s (evicting j el ∷ ts) h = absurd (omega (arith, h))
  quiet-Fits s (deleting j ∷ ts) h = (tt, quiet-Fits s ts (omega (arith, h)))
  quiet-Fits s (finished ∷ ts) h = (tt, quiet-Fits s ts (omega (arith, h)))

  replace-Fits :
      (s : Shard V) (front : List (Task V)) (t t' : Task V) (back : List (Task V))
      → All (Fits s) (front ++ (t ∷ back))
      → Fits s t'
      → All (Fits s) (front ++ (t' ∷ back))
  replace-Fits s [] t t' back h f = (f, h.1)
  replace-Fits s (x ∷ front) t t' back h f = (h.0, replace-Fits s front t t' back h.1 f)

  put-Fits :
      (s : Shard V) (front : List (Task V)) (t : Task V) (back : List (Task V))
      → sets front ≡ 0
      → sets back ≡ 0
      → Fits s t
      → All (Fits s) (front ++ (t ∷ back))
  unfolding sets
  put-Fits s [] t back p q f = (f, quiet-Fits s back q)
  put-Fits s (x ∷ front) t back p q f =
      ((quiet-Fits s (x ∷ front) p).0, put-Fits s front t back (omega (arith, p)) q f)

  get_elem?-empty : (m : List (ℕ × V)) (i : ℕ) → length m ≡ 0 → get_elem? m i ≡ none
  get_elem?-empty [] i h = refl
  get_elem?-empty (x ∷ m) i h = absurd (omega (arith, h))

  -- the key that `Evict` picks is there, and without one the shard is empty
  first_key-Fits :
      (pick key : ℕ) (el : V) (s : Shard V) → IsValid s → Fits s (turn pick (evicting key el) s).0
  unfolding turn first_key remove
  first_key-Fits pick key el s v = elim (Bool-cases (ltb 0 (len s))) [
    | inl some_entry ↦
        let (k, w, at, found) = has-get_elem? s.items (pick % len s) (ground arith) in
        ground (arith, v.bounded, Map.length-remove k s.items)
    | inr empty ↦ ground (arith, v.positive, get_elem?-empty s.items (pick % len s))
  ]

  -- a section of a call begins no other call
  sets-turn :
      (front : List (Task V)) (t : Task V) (back : List (Task V)) (pick : ℕ) (s : Shard V)
      → sets (front ++ ((turn pick t s).0 ∷ back)) ≤ sets (front ++ (t ∷ back))
  unfolding sets
  sets-turn [] t back pick s = omega (arith, is_set-turn t pick s)
  sets-turn (x ∷ front) t back pick s = omega (arith, sets-turn front t back pick s)

  alone :
      (front : List (Task V)) (t : Task V) (back : List (Task V))
      → sets (front ++ (t ∷ back)) ≤ 1
      → is_set t ≡ 1
      → (sets front ≡ 0) × (sets back ≡ 0)
  unfolding sets
  alone front t back h e = let l = sets-append front (t ∷ back) in (omega arith, omega arith)

  -- A critical section of one of the calls keeps the shard within its size.
  turn-IsSerial :
      (front : List (Task V)) (t : Task V) (back : List (Task V)) (pick : ℕ) (s : Shard V)
      → IsValid s
      → sets (front ++ (t ∷ back)) ≤ 1
      → All (Fits s) (front ++ (t ∷ back))
      → IsValid (turn pick t s).1
        × All (Fits (turn pick t s).1) (front ++ ((turn pick t s).0 ∷ back))
  unfolding turn
  turn-IsSerial front (starting key el) back pick s v o f =
      (v, replace-Fits s front _ _ back f (ground (arith, v.bounded)))
  turn-IsSerial front (evicting key el) back pick s v o f =
      let g =
        replace-Fits s front _ (turn pick (evicting key el) s).0 back f
          (first_key-Fits pick key el s v) in
      elim (Option-cases (first_key pick s)) [
        | inl e ↦ rw (e, turn) (v, rw (e, turn) at g)
        | inr (k, e) ↦ rw (e, turn) (v, rw (e, turn) at g)
      ]
  turn-IsSerial front (removing picked key el) back pick s v o f =
      let (p, q) = alone front (removing picked key el) back o refl in
      (
        remove-IsValid picked v,
        put-Fits (remove picked s) front _ back p q (unfold remove in All_at (Fits s) front back f),
      )
  turn-IsSerial front (storing key el) back pick s v o f =
      let (p, q) = alone front (storing key el) back o refl in
      (
        store-IsValid key el s v (All_at (Fits s) front back f),
        put-Fits (store key el s) front _ back p q tt,
      )
  turn-IsSerial front (deleting key) back pick s v o f = (
    remove-IsValid key v,
    replace-Fits (remove key s) front _ _ back (remove-Fits key s _ v f) tt,
  )
  turn-IsSerial front finished back pick s v o f = (v, f)

  Step-IsSerial : {keys : ℕ} {m u : System V} → Step 1 keys m u → IsSerial m → IsSerial u
  unfolding sets
  Step-IsSerial {m = m} (begins_set key el k few) h = record {
    shard = h.shard;
    one = omega arith;
    fits = (tt, h.fits);
  }
  Step-IsSerial (begins_remove key) h = record {
    shard = h.shard;
    one = omega (arith, h.one);
    fits = (tt, h.fits);
  }
  Step-IsSerial {m = m} (moves front t back pick e) h =
      let o = subst (λ ts. sets ts ≤ 1) e h.one in
      let f = subst (λ ts. All (Fits m.shard) ts) e h.fits in
      let (v, g) = turn-IsSerial front t back pick m.shard h.shard o f in
      record { shard = v; one = omega (arith, sets-turn front t back pick m.shard); fits = g }

  Reach-IsSerial : {keys : ℕ} {m u : System V} → Reach 1 keys m u → IsSerial m → IsSerial u
  Reach-IsSerial here h = h
  Reach-IsSerial (later r st) h = Step-IsSerial st (Reach-IsSerial r h)

  -- Where at most one call of `Set` runs at a time, a shard that is valid and has no call running
  -- stays valid whenever other calls remove entries between the critical sections of `Set`: at
  -- every moment it holds no more entries than its size, and no key twice.
  pub serial-IsValid :
      {keys : ℕ} {s : Shard V} {u : System V}
      → IsValid s
      → Reach 1 keys (record { shard = s; tasks = [] }) u
      → IsValid u.shard
  serial-IsValid v r =
      (Reach-IsSerial r (record { shard = v; one = unfold sets in omega arith; fits = tt })).shard
