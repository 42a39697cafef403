-- ===== src/Cache/Shard/Overlap/Laws.antt =====
-- The running calls, and a `Set` that no other call interrupts (cache/shard.go).
use sdns.Base.{
  ℕ, zero, suc, ◌+◌, ◌≡◌, List, [], ◌∷◌, ◌++◌, ltb, arith, Option-cases, Bool-cases, inl, inr,
}
use sdns.Cache.Shard.{Shard, len, first_key, evict, set}
use sdns.Cache.Shard.Overlap.{Task, starting, finished, turn, sets, store}

module _ {ℓ} {V : Type ℓ} where
  pub sets-append : (xs ys : List (Task V)) → sets (xs ++ ys) ≡ sets xs + sets ys
  unfolding sets
  sets-append [] ys = omega arith
  sets-append (x ∷ xs) ys = omega (arith, sets-append xs ys)

  -- `n` critical sections of one call, with no other call between
  abbrev pub turns : ℕ → ℕ → Task V → Shard V → Task V × Shard V
  turns pick zero t s = (t, s)
  turns pick (suc n) t s = turns pick n (turn pick t s).0 (turn pick t s).1

  -- A call of `Set` that no other call interrupts ends after at most four critical sections, with
  -- the shard that `Set` gives as a single step.
  pub turns-set :
      (pick key : ℕ) (el : V) (s : Shard V)
      → turns pick 4 (starting key el) s ≡ (finished, set pick key el s)
  unfolding turn set evict store
  turns-set pick key el s = elim (Bool-cases (ltb s.size (len s + 1))) [
    | inl full ↦ elim (Option-cases (first_key pick s)) [
      | inl e ↦ ground arith
      | inr (k, e) ↦ ground arith
    ]
    | inr room ↦ ground arith
  ]
