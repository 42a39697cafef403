-- ===== src/Cache/LookupQueue/Safety.antt =====
-- The closing of channels (cache/lookup_queue.go).
use sdns.Base.{
  ℕ, ◌≤◌, ◌<◌, ◌≡◌, refl, false, Option, some, List, [], ◌∷◌, arith, inl, inr, ==_iff, ◌==◌, ◌||◌,
  Option-cases, nat_eq, ◌>>=◌,
}
use sdns.Base.Map
use sdns.Cache.LookupQueue.{LQueue, new_lookup_queue, add, close, done}

pub record IsValid (q : LQueue) : Type 0 where
  pub distinct : Map.IsDistinct q.delay
  pub made : (k c : ℕ) → Map.lookup k q.delay ≡ some c → c < q.next
  pub open_in_map : (k c : ℕ) → Map.lookup k q.delay ≡ some c → q.closed c ≡ false
  pub unshared : (k j c : ℕ) → Map.lookup k q.delay ≡ some c → Map.lookup j q.delay ≡ some c → k ≡ j
  pub unmade : (c : ℕ) → q.next ≤ c → q.closed c ≡ false

pub new_lookup_queue-IsValid : IsValid new_lookup_queue
unfolding new_lookup_queue Map.lookup
new_lookup_queue-IsValid = record {
  distinct = tt;
  made = λ k c h. ground arith;
  open_in_map = λ k c h. refl;
  unshared = λ k j c h h'. ground arith;
  unmade = λ c h. refl;
}

pub add-IsValid : (key : ℕ) {q : LQueue} → IsValid q → IsValid (add key q)
unfolding add
add-IsValid key {q} v = record {
  distinct = Map.insert-IsDistinct key q.next q.delay v.distinct;
  made = λ k c h. ground (arith, Map.lookup-insert key k q.next q.delay, v.made k c);
  open_in_map = λ k c h.
      ground (arith, Map.lookup-insert key k q.next q.delay, v.open_in_map k c, v.unmade c);
  unshared = λ k j c h h'. ground (
    arith,
    Map.lookup-insert key k q.next q.delay,
    Map.lookup-insert key j q.next q.delay,
    v.unshared k j c,
    v.made k c,
    v.made j c,
  );
  unmade = λ c h. v.unmade c (omega arith);
}

lookup_of_remove :
    (key k c : ℕ) (q : LQueue)
    → Map.IsDistinct q.delay
    → Map.lookup k (Map.remove key q.delay) ≡ some c
    → (key == k ≡ false) × (Map.lookup k q.delay ≡ some c)
lookup_of_remove key k c q d h =
    ground (
      arith,
      ==_iff key k,
      Map.lookup-remove_self key q.delay d,
      Map.lookup-remove_ne key k q.delay,
    )

-- In a valid queue `Done` does not panic, and leaves a valid queue.
pub done-IsValid :
    (key : ℕ) {q : LQueue} → IsValid q → (q' : LQueue) × (done key q ≡ some q') × IsValid q'
unfolding done close
done-IsValid key {q} v = elim (Option-cases (Map.lookup key q.delay)) [
  | inl e ↦ (
    record q { delay = Map.remove key q.delay },
    rw (e, done) refl,
    record {
      distinct = Map.remove-IsDistinct key q.delay v.distinct;
      made = λ k c h. v.made k c (lookup_of_remove key k c q v.distinct h).1;
      open_in_map = λ k c h. v.open_in_map k c (lookup_of_remove key k c q v.distinct h).1;
      unshared = λ k j c h h'.
          v.unshared k j c (lookup_of_remove key k c q v.distinct h).1
            (lookup_of_remove key j c q v.distinct h').1;
      unmade = v.unmade;
    },
  )
  | inr (c, e) ↦ (
    record q { delay = Map.remove key q.delay; closed = λ d. c == d || q.closed d },
    rw (e, done) (rw (v.open_in_map key c e) refl),
    record {
      distinct = Map.remove-IsDistinct key q.delay v.distinct;
      made = λ k d h. v.made k d (lookup_of_remove key k d q v.distinct h).1;
      open_in_map = λ k d h.
          let old = lookup_of_remove key k d q v.distinct h in
          ground (arith, v.open_in_map k d old.1, v.unshared key k c e);
      unshared = λ k j d h h'.
          v.unshared k j d (lookup_of_remove key k d q v.distinct h).1
            (lookup_of_remove key j d q v.distinct h').1;
      unmade = λ d h. ground (arith, v.unmade d h, v.made key c e);
    },
  )
]

-- The calls that change the queue, in the order in which its lock lets them in.
pub data Call : Type 0 where
  begin : ℕ → Call
  finish : ℕ → Call

unfoldable pub run : List Call → LQueue → Option LQueue
run [] q = some q
run (begin key ∷ calls) q = run calls (add key q)
run (finish key ∷ calls) q = done key q >>= run calls

-- From a valid queue, calls of `Add` and `Done` in any number and order run to their end: no
-- channel is closed twice, and the queue stays valid.
pub run_total :
    (calls : List Call) {q : LQueue}
    → IsValid q
    → (q' : LQueue) × (run calls q ≡ some q') × IsValid q'
unfolding run
run_total [] {q} v = (q, refl, v)
run_total (begin key ∷ calls) v = run_total calls (add-IsValid key v)
run_total (finish key ∷ calls) v = let (q', e, v') = done-IsValid key v in rw e (run_total calls v')
