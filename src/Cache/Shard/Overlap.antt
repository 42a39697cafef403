-- ===== src/Cache/Shard/Overlap.antt =====
-- The critical sections of a shard's `Set` and `Remove` (cache/shard.go), interleaved: `Set` takes
-- the lock once in `Len`, twice in `Evict` and once for its own write, and other calls run between.
pub mod Bounds
pub mod Growth
pub mod Laws
use sdns.Base.{ℕ, ◌+◌, ◌<◌, ◌≡◌, List, [], ◌∷◌, ◌++◌, none, some, ltb, if◌then◌else◌, nat_eq}
use sdns.Base.Map
use sdns.Cache.Shard.{Shard, len, first_key, remove}

-- A running call, by the critical section that comes next.
pub data Task {ℓ} (V : Type ℓ) : Type ℓ where
  -- `Set`, before `Len`
  starting : ℕ → V → Task V
  -- `Set` in `Evict`, before it picks a key
  evicting : ℕ → V → Task V
  -- `Set` in `Evict`, before it removes the key picked, the first argument
  removing : ℕ → ℕ → V → Task V
  -- `Set`, before its own write
  storing : ℕ → V → Task V
  -- `Remove`
  deleting : ℕ → Task V
  finished : Task V

pub record System {ℓ} (V : Type ℓ) : Type ℓ where
  pub shard : Shard V
  pub tasks : List (Task V)

module _ {ℓ} {V : Type ℓ} where
  -- `s.items[key] = el`
  unfoldable pub store : ℕ → V → Shard V → Shard V
  store key el s = record s { items = Map.insert key el s.items }

  -- One critical section of a call: what is left of the call, and the shard after it.
  unfoldable pub turn : ℕ → Task V → Shard V → Task V × Shard V
  turn pick (starting key el) s =
      (if ltb s.size (len s + 1) then evicting key el else storing key el, s)
  turn pick (evicting key el) s = elim (first_key pick s) [
    | none ↦ (storing key el, s)
    | some picked ↦ (removing picked key el, s)
  ]
  turn pick (removing picked key el) s = (storing key el, remove picked s)
  turn pick (storing key el) s = (finished, store key el s)
  turn pick (deleting key) s = (finished, remove key s)
  turn pick finished s = (finished, s)

  -- 1 for a running `Set`
  abbrev pub is_set : Task V → ℕ
  is_set (deleting key) = 0
  is_set finished = 0
  is_set t = 1

  -- the number of running calls of `Set`
  unfoldable pub sets : List (Task V) → ℕ
  sets [] = 0
  sets (t ∷ ts) = is_set t + sets ts

  -- A call begins, or one of the running calls takes its next turn. At most `limit` calls of `Set`
  -- run at a time, and their keys are below `keys`.
  pub data Step (limit keys : ℕ) (m : System V) : System V → Type ℓ where
    begins_set :
        (key : ℕ) (el : V)
        → key < keys
        → sets m.tasks < limit
        → Step limit keys m (record m { tasks = starting key el ∷ m.tasks })
    begins_remove : (key : ℕ) → Step limit keys m (record m { tasks = deleting key ∷ m.tasks })
    moves :
        (front : List (Task V)) (t : Task V) (back : List (Task V)) (pick : ℕ)
        → m.tasks ≡ front ++ (t ∷ back)
        → Step limit keys m (record {
          shard = (turn pick t m.shard).1;
          tasks = front ++ ((turn pick t m.shard).0 ∷ back);
        })

  pub data Reach (limit keys : ℕ) (m : System V) : System V → Type ℓ where
    here : Reach limit keys m m
    later : {t u : System V} → Reach limit keys m t → Step limit keys t u → Reach limit keys m u
