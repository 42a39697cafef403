-- ===== src/Cache/Shard/Overlap/Growth.antt =====
-- The growth of a shard whose calls of `Set` overlap (cache/shard.go).
use mathlib.Core.Path.{subst}
use sdns.Base.{
  ℕ, zero, suc, ◌+◌, ◌*◌, ◌%◌, ◌≡◌, ◌≤◌, ◌<◌, refl, List, [], ◌∷◌, ◌++◌, get_elem?, ltb, none, some,
  Option-cases, Bool-cases, arith, inl, inr, ==_iff, nat_eq, true, ap, ◌∙◌, if◌then◌else◌,
}
use sdns.Base.Map
use sdns.Cache.Shard.{Shard, new_shard, len, first_key, remove, evict, set}
use sdns.Cache.Shard.Overlap.{
  Task, starting, removing, finished, System, turn, sets, store, begins_set, moves, Reach, here,
  later,
}
use sdns.Cache.Shard.Overlap.Laws.{turns, turns-set}

module _ {ℓ} {V : Type ℓ} where
  -- The keys of the shard are distinct and below `bound`.
  record IsBelow (bound : ℕ) (s : Shard V) : Type ℓ where
    distinct : Map.IsDistinct s.items
    unused : (j : ℕ) → bound ≤ j → Map.lookup j s.items ≡ none

  remove-IsBelow : (k bound : ℕ) (s : Shard V) → IsBelow bound s → IsBelow bound (remove k s)
  unfolding remove
  remove-IsBelow k bound s h = record {
    distinct = Map.remove-IsDistinct k s.items h.distinct;
    unused = λ j le. Map.lookup-remove-none k j s.items (h.unused j le);
  }

  store-IsBelow :
      (key bound : ℕ) (el : V) (s : Shard V)
      → key < bound
      → IsBelow bound s
      → IsBelow bound (store key el s)
  unfolding store
  store-IsBelow key bound el s lt h = record {
    distinct = Map.insert-IsDistinct key el s.items h.distinct;
    unused =
        λ j le. ground (arith, Map.lookup-insert key j el s.items, h.unused j le, ==_iff key j);
  }

  set-IsBelow :
      (pick key bound : ℕ) (el : V) (s : Shard V)
      → key < bound
      → IsBelow bound s
      → IsBelow bound (set pick key el s)
  unfolding set evict
  set-IsBelow pick key bound el s lt h = elim (Bool-cases (ltb s.size (len s + 1))) [
    | inr room ↦ rw (room, set) (unfold store in store-IsBelow key bound el s lt h)
    | inl full ↦ elim (Option-cases (first_key pick s)) [
      | inl e ↦ rw (full, set, e, evict) (unfold store in store-IsBelow key bound el s lt h)
      | inr (k, e) ↦
          rw (full, set, e, evict)
            (unfold store in
              store-IsBelow key bound el (remove k s) lt (remove-IsBelow k bound s h))
    ]
  ]

  -- The turns of one call, one after the other.
  Reach-turns :
      {limit keys : ℕ} {m : System V} (front : List (Task V)) (t : Task V) (back : List (Task V))
      (pick n : ℕ) (s : Shard V)
      → Reach limit keys m (record { shard = s; tasks = front ++ (t ∷ back) })
      → Reach limit keys m
          (record { shard = (turns pick n t s).1; tasks = front ++ ((turns pick n t s).0 ∷ back) })
  Reach-turns front t back pick zero s r = r
  Reach-turns front t back pick (suc n) s r =
      Reach-turns front (turn pick t s).0 back pick n (turn pick t s).1
        (later r (moves front t back pick refl))

  module _ (limit keys : ℕ) (m : System V) (front : List (Task V)) (key : ℕ) (el : V)
      (back : List (Task V)) (s : Shard V) where
    abbrev With : Shard V → Task V → Type ℓ
    With s' t = Reach limit keys m (record { shard = s'; tasks = front ++ (t ∷ back) })

    -- a call of `Set` that nothing interrupts
    Reach-set : With s (starting key el) → With (set 0 key el s) finished
    Reach-set r =
        let e = turns-set 0 key el s in
        subst (λ (p : Task V × Shard V). With p.1 p.0) e
          (Reach-turns front (starting key el) back 0 4 s r)

    -- a call of `Set` on a full shard, up to its choice of the entry to remove
    Reach-evicting :
        (k : ℕ)
        → ltb s.size (len s + 1) ≡ true
        → first_key 0 s ≡ some k
        → With s (starting key el)
        → With s (removing k key el)
    Reach-evicting k full e r =
        let p : turns 0 2 (starting key el) s ≡ (removing k key el, s) =
          unfold turn in ground arith in
        subst (λ (p : Task V × Shard V). With p.1 p.0) p
          (Reach-turns front (starting key el) back 0 2 s r)

    -- and from there to its end
    Reach-removing :
        (k : ℕ) → With s (removing k key el) → With (store key el (remove k s)) finished
    Reach-removing k r = unfold turn in Reach-turns front (removing k key el) back 0 2 s r

  has-at : (m : List (ℕ × V)) (i k : ℕ) (v : V) → get_elem? m i ≡ some (k, v) → Map.has k m ≡ true
  unfolding Map.lookup
  has-at [] i k v e = absurd (ground arith)
  has-at ((j, w) ∷ m) zero k v e = ground (arith, ==_iff j k)
  has-at ((j, w) ∷ m) (suc i) k v e = ground (arith, has-at m i k v)

  -- the key that `Evict` picks in a shard is there
  has-first_key : (pick k : ℕ) (s : Shard V) → first_key pick s ≡ some k → Map.has k s.items ≡ true
  unfolding first_key
  has-first_key pick k s e = elim (Option-cases (get_elem? s.items (pick % len s))) [
    | inl f ↦ absurd (ground arith)
    | inr ((k', v), f) ↦ ground (arith, has-at s.items (pick % len s) k' v)
  ]

  -- A `Set` of a new key, between the choice and the removal of another `Set` of a new key that
  -- picks the same entry.
  length-overlap :
      (k a b bound : ℕ) (el : V) (s : Shard V)
      → IsBelow bound s
      → bound ≤ a
      → a < b
      → ltb s.size (len s + 1) ≡ true
      → first_key 0 s ≡ some k
      → len (store a el (remove k (set 0 b el s))) ≡ suc (len s)
  unfolding store remove set evict
  length-overlap k a b bound el s h la lb full e =
      let once = Map.remove k s.items in
      let found = has-first_key 0 k s e in
      ground (
        arith,
        h.unused a la,
        h.unused b (omega arith),
        ==_iff b k,
        ==_iff b a,
        Map.length-remove k s.items,
        Map.lookup-remove_self k s.items h.distinct,
        Map.lookup-remove-none k a s.items,
        Map.lookup-remove-none k b s.items,
        Map.length-insert b el once,
        Map.lookup-insert b k el once,
        Map.lookup-insert b a el once,
        Map.length-remove k (Map.insert b el once),
        Map.lookup-remove-none k a (Map.insert b el once),
        Map.length-insert a el (Map.remove k (Map.insert b el once)),
      )

  -- A `Set` of a new key adds an entry, where it removes none.
  length-set_more :
      (key bound : ℕ) (el : V) (s : Shard V)
      → IsBelow bound s
      → bound ≤ key
      → (if ltb s.size (len s + 1) then first_key 0 s else none) ≡ none
      → len (set 0 key el s) ≡ suc (len s)
  unfolding set evict
  length-set_more key bound el s h le e =
      ground (arith, h.unused key le, Map.length-insert key el s.items)

  -- A system that went from `m` to `u` with one entry more and with no call of `Set` left over.
  record Grown (keys bound : ℕ) (start : System V) (n : ℕ) : Type ℓ where
    to : System V
    reach : Reach 2 keys start to
    still : sets to.tasks ≡ 0
    below : IsBelow bound to.shard
    many : len to.shard ≡ n

  -- where an entry is removed, the second call runs to its end before the first removes it again
  grow :
      (keys : ℕ) (start : System V) (bound n : ℕ) (el : V)
      → bound + 2 ≤ keys
      → Grown keys bound start n
      → Grown keys (bound + 2) start (suc n)
  unfolding sets
  grow keys start bound n el le g =
      let s = g.to.shard in
      let tasks = g.to.tasks in
      let second : ℕ = suc bound in
      let below : IsBelow (bound + 2) s = record {
        distinct = g.below.distinct;
        unused = λ j k. g.below.unused j (omega arith);
      } in
      let r = later g.reach (begins_set bound el (omega arith) (omega (arith, g.still))) in
      elim (Option-cases (if ltb s.size (len s + 1) then first_key 0 s else none)) [
        | inl e ↦ record {
          to = record { shard = set 0 bound el s; tasks = finished ∷ tasks };
          reach = Reach-set 2 keys start [] bound el tasks s r;
          still = omega (arith, g.still);
          below = set-IsBelow 0 bound (bound + 2) el s (omega arith) below;
          many = length-set_more bound bound el s g.below (omega arith) e ∙ ap suc g.many;
        }
        | inr (k, e) ↦
            let full : ltb s.size (len s + 1) ≡ true = ground arith in
            let f : first_key 0 s ≡ some k = ground arith in
            let picked = Reach-evicting 2 keys start [] bound el tasks s k full f r in
            let two = later picked (begins_set second el (omega arith) (omega (arith, g.still))) in
            let u = set 0 second el s in
            record {
              to = record {
                shard = store bound el (remove k u);
                tasks = finished ∷ finished ∷ tasks;
              };
              reach =
                  Reach-removing 2 keys start (finished ∷ []) bound el tasks u k
                    (Reach-set 2 keys start [] second el (removing k bound el ∷ tasks) s two);
              still = omega (arith, g.still);
              below = store-IsBelow bound (bound + 2) el (remove k u) (omega arith) (
                  remove-IsBelow k (bound + 2) u
                    (set-IsBelow 0 second (bound + 2) el s (omega arith) below));
              many =
                  length-overlap k bound second bound el s g.below (omega arith) (omega arith) full
                    f
                  ∙ ap suc g.many;
            }
      ]

  grown :
      {keys : ℕ} (size n : ℕ) (el : V)
      → n * 2 ≤ keys
      → Grown keys (n * 2) (record { shard = new_shard size; tasks = [] }) n
  unfolding sets new_shard Map.lookup
  grown {keys} size zero el le = record {
    to = record { shard = new_shard size; tasks = [] };
    reach = here;
    still = refl;
    below = record { distinct = tt; unused = λ j k. refl };
    many = refl;
  }
  grown {keys} size (suc n) el le =
      let start : System V = record { shard = new_shard size; tasks = [] } in
      let e : n * 2 + 2 ≡ suc n * 2 = omega arith in
      subst (λ b. Grown keys b start (suc n)) e
        (grow keys start (n * 2) n el (omega arith) (grown size n el (omega arith)))

  -- Where two calls of `Set` overlap, nothing bounds a shard: from a new shard of any size, two calls
  -- at a time lead to `n` entries and no call of `Set` running, for every `n` with twice as many keys.
  pub overlap_exceeds :
      {keys : ℕ} (size n : ℕ) (el : V)
      → n * 2 ≤ keys
      → (u : System V) × Reach 2 keys (record { shard = new_shard size; tasks = [] }) u
        × (sets u.tasks ≡ 0)
        × (len u.shard ≡ n)
  overlap_exceeds size n el le = let g = grown size n el le in (g.to, g.reach, g.still, g.many)
