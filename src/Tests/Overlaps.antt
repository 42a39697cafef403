-- ===== src/Tests/Overlaps.antt =====
-- Examples for the critical sections of cache/shard.go.
use sdns.Base.{ℕ, ◌≡◌, refl, [], ◌∷◌, arith, nat_eq}
use sdns.Base.Map
use sdns.Cache.Shard
use sdns.Cache.Shard.{Shard}
use sdns.Cache.Shard.Bounds.{IsValid}
use sdns.Cache.Shard.Overlap.{
  System, starting, removing, finished, turn, sets, store, Reach, here, later, begins_set,
  begins_remove, moves, deleting,
}
use sdns.Cache.Shard.Overlap.Bounds
use sdns.Cache.Shard.Overlap.Growth

program : Unit {0}
unfolding Map.lookup Map.insert Map.remove Shard.new_shard Shard.get Shard.remove Shard.first_key
    Shard.evict Shard.set turn sets store
program = tt

abbrev one : Shard ℕ
one = record { items = (1, 10) ∷ []; size = 1 }

abbrev system : System ℕ
system = record { shard = one; tasks = [] }

one-IsValid : IsValid one
unfolding program
one-IsValid = record { positive = omega arith; bounded = omega arith; distinct = (refl, tt) }

-- another call removes the entry that `Set` has picked, before `Set` does
abbrev raced : System ℕ
raced = record {
  shard = record { items = (2, 20) ∷ []; size = 1 };
  tasks = finished ∷ finished ∷ [];
}

raced-Reach : Reach 1 4 system raced
unfolding program
raced-Reach =
    let s1 : System ℕ = record { shard = one; tasks = removing 1 2 20 ∷ [] } in
    let r1 : Reach 1 4 system s1 =
      later
        (later (later here (begins_set 2 20 (omega arith) (omega arith)))
          (moves [] (starting 2 20) [] 0 refl))
        (moves [] _ [] 0 refl) in
    let r2 =
      later (later r1 (begins_remove 1)) (moves [] (deleting 1) (removing 1 2 20 ∷ []) 0 refl) in
    later (later r2 (moves (finished ∷ []) (removing 1 2 20) [] 0 refl))
      (moves (finished ∷ []) _ [] 0 refl)

serial-IsValid_example : IsValid raced.shard
serial-IsValid_example = Bounds.serial-IsValid one-IsValid raced-Reach

overlap_exceeds_example :
    (u : System ℕ) × Reach 2 6 (record { shard = Shard.new_shard 1; tasks = [] }) u
    × (sets u.tasks ≡ 0)
    × (Shard.len u.shard ≡ 3)
overlap_exceeds_example = Growth.overlap_exceeds 1 3 10 (omega arith)
