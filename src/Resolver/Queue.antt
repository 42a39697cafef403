-- ===== src/Resolver/Queue.antt =====
-- The lookup queue across a computation of the resolver (resolver.go).
pub mod Chain
pub mod Addresses
pub mod Delegations
pub mod Resolution
use sdns.Base.{
  ℕ, ◌≡◌, ◌≢◌, refl, ◌∙◌, sym, Bool, true, false, Option, none, some, if◌then◌else◌, ◌>>=◌, nat_eq,
  arith, Bool-cases, ◌==◌, inl, inr,
}
use sdns.Base.Map
use sdns.Cache.LookupQueue
use sdns.Cache.LookupQueue.{LQueue}
use sdns.Cache.Outcome.{Result, CacheError, ok, err}
use sdns.Handler.Env.{State}
use sdns.Resolver.Env.{Run, ResolveError, Attempt, done, failed, try}

-- a queue without a key twice, with the channels of another queue
pub record IsKept (q : LQueue) (r : LQueue) : Type 0 where
  pub distinct : Map.IsDistinct r.delay
  pub same : (key : ℕ) → LookupQueue.get key r ≡ LookupQueue.get key q

-- the same, but for one key
pub record IsKeptBut (key : ℕ) (q : LQueue) (r : LQueue) : Type 0 where
  pub distinct : Map.IsDistinct r.delay
  pub same : (j : ℕ) → (key == j) ≡ false → LookupQueue.get j r ≡ LookupQueue.get j q

-- if it ends, the queue has a property
pub data Keeps {R A : Type 0} (p : LQueue → Type 0) : Option (State R × A) → Type 0 where
  stops : Keeps p none
  keeps : {s : State R} {a : A} → p s.lqueue → Keeps p (some (s, a))

module _ {R : Type 0} (p : LQueue → Type 0) where
  pub weaken-Keeps :
      {A : Type 0} {r : LQueue → Type 0} {m : Option (State R × A)}
      → ((q : LQueue) → r q → p q)
      → Keeps r m
      → Keeps p m
  weaken-Keeps f stops = stops
  weaken-Keeps f (keeps {s} h) = keeps (f s.lqueue h)

  pub bind-Keeps :
      {A B : Type 0} {r : LQueue → Type 0} {m : Option (State R × A)}
      (f : State R × A → Option (State R × B))
      → Keeps r m
      → ((s : State R) (a : A) → r s.lqueue → Keeps p (f (s, a)))
      → Keeps p (m >>= f)
  bind-Keeps f stops k = stops
  bind-Keeps f (keeps {s} {a} h) k = k s a h

  pub try-Keeps :
      {A B : Type 0} (m : Run R A) (f : State R → A → Run R B)
      → Keeps p m
      → ((s : State R) (a : A) → p s.lqueue → Keeps p (f s a))
      → Keeps p (try m f)
  unfolding try
  try-Keeps none f h k = stops
  try-Keeps (some (s, failed e)) f (keeps h) k = keeps h
  try-Keeps (some (s, done a)) f (keeps h) k = k s a h

  -- a step that does not touch the state
  pub pure-Keeps :
      {X B : Type 0} (o : Option X) (f : X → Option (State R × B))
      → ((x : X) → o ≡ some x → Keeps p (f x))
      → Keeps p (o >>= f)
  pure-Keeps none f k = stops
  pure-Keeps (some x) f k = k x refl

  pub if-Keeps :
      {A : Type 0} (b : Bool) {x y : Option (State R × A)}
      → Keeps p x
      → Keeps p y
      → Keeps p (if b then x else y)
  if-Keeps true h k = h
  if-Keeps false h k = k

  pub option-Keeps :
      {X B : Type 0} (o : Option X) {x : Option (State R × B)} {f : X → Option (State R × B)}
      → Keeps p x
      → ((a : X) → Keeps p (f a))
      → Keeps p (elim o [ none ↦ x | some a ↦ f a ])
  option-Keeps none h k = h
  option-Keeps (some a) h k = k a

  pub result-Keeps :
      {X B : Type 0} (o : Result X) {f : X → Option (State R × B)}
      {g : CacheError → Option (State R × B)}
      → ((a : X) → Keeps p (f a))
      → ((e : CacheError) → Keeps p (g e))
      → Keeps p (elim o [ ok a ↦ f a | err e ↦ g e ])
  result-Keeps (ok a) h k = h a
  result-Keeps (err e) h k = k e

  pub attempt-Keeps :
      {X B : Type 0} (o : Attempt X) {f : X → Option (State R × B)}
      {g : ResolveError → Option (State R × B)}
      → ((a : X) → Keeps p (f a))
      → ((e : ResolveError) → Keeps p (g e))
      → Keeps p (elim o [ done a ↦ f a | failed e ↦ g e ])
  attempt-Keeps (done a) h k = h a
  attempt-Keeps (failed e) h k = k e

pub trans-IsKept : {q r s : LQueue} → IsKept q r → IsKept r s → IsKept q s
trans-IsKept h k = record { distinct = k.distinct; same = λ key. k.same key ∙ h.same key }

pub add-IsKept :
    (key : ℕ) (q : LQueue)
    → Map.IsDistinct q.delay
    → IsKept (LookupQueue.add key q) (LookupQueue.add key q)
unfolding LookupQueue.add
add-IsKept key q d = record {
  distinct = Map.insert-IsDistinct key q.next q.delay d;
  same = λ j. refl;
}

-- `Done` takes the key out
done_removes :
    (key : ℕ) (q : LQueue) {r : LQueue}
    → LookupQueue.done key q ≡ some r
    → r.delay ≡ Map.remove key q.delay
unfolding LookupQueue.done LookupQueue.close
done_removes key q e = ground arith

-- a key that is added is the one that may differ
pub add-IsKeptBut : (key : ℕ) (q r : LQueue) → IsKept (LookupQueue.add key q) r → IsKeptBut key q r
unfolding LookupQueue.get LookupQueue.add
add-IsKeptBut key q r h = record {
  distinct = h.distinct;
  same = λ j n. h.same j ∙ ground (arith, Map.lookup-insert key j q.next q.delay);
}

pub IsKept-IsKeptBut : (key : ℕ) (q r : LQueue) → IsKept q r → IsKeptBut key q r
IsKept-IsKeptBut key q r h = record { distinct = h.distinct; same = λ j n. h.same j }

-- after `Done` the key is as it was before, when it was not there
pub done-IsKept :
    (key : ℕ) (q s : LQueue) {r : LQueue}
    → LookupQueue.get key q ≡ none
    → IsKeptBut key q s
    → LookupQueue.done key s ≡ some r
    → IsKept q r
unfolding LookupQueue.get
done-IsKept key q s {r} missing h e =
    let removed = done_removes key s e in
    record {
      distinct = rw removed (Map.remove-IsDistinct key s.delay h.distinct);
      same = λ j. rw removed (elim (Bool-cases (key == j)) [
        | inl same_key ↦ ground (arith, Map.lookup-remove_self key s.delay h.distinct)
        | inr other ↦ Map.lookup-remove_ne key j s.delay other ∙ h.same j other
      ]);
    }
