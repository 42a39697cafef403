-- ===== src/Cache/LookupQueue/Waiting.antt =====
-- When a call of `Wait` returns before its ten seconds are over (cache/lookup_queue.go).
use mathlib.Core.Path.{subst}
use sdns.Base.{
  ℕ, ◌<◌, ◌≡◌, ◌≢◌, Bool, true, false, some, none, List, [], ◌∷◌, arith, inl, inr, ==_iff,
  Option-cases, nat_eq,
}
use sdns.Base.Map
use sdns.Cache.LookupQueue.{LQueue, add, close, done, wait_on, may_return}
use sdns.Cache.LookupQueue.Safety.{IsValid, Call, begin, finish, run, done-IsValid, add-IsValid}

-- `Done` lets every call return that waits for the channel of its key.
done_wakes :
    (key c : ℕ) (timed_out : Bool) (q : LQueue) {q' : LQueue}
    → wait_on key q ≡ some c
    → done key q ≡ some q'
    → may_return (some c) timed_out q' ≡ true
unfolding done close wait_on may_return
done_wakes key c timed_out q h e = ground (arith, ==_iff c c)

-- After `Done` the key is not in the queue.
pub done_frees :
    (key : ℕ) (q : LQueue) {q' : LQueue}
    → Map.IsDistinct q.delay
    → done key q ≡ some q'
    → wait_on key q' ≡ none
unfolding done close wait_on
done_frees key q d e = ground (arith, Map.lookup-remove_self key q.delay d)

done_closed :
    (key c : ℕ) (q : LQueue) {q' : LQueue}
    → q.closed c ≡ true
    → done key q ≡ some q'
    → q'.closed c ≡ true
unfolding done close
done_closed key c q h e = ground arith

-- A channel that is closed stays closed, so a waiting call that may return may still do so later.
pub run_closed :
    (calls : List Call) (c : ℕ) (q : LQueue) {q' : LQueue}
    → q.closed c ≡ true
    → run calls q ≡ some q'
    → q'.closed c ≡ true
unfolding run add
run_closed [] c q h e = ground arith
run_closed (begin key ∷ calls) c q h e = run_closed calls c (add key q) h e
run_closed (finish key ∷ calls) c q {q'} h e = elim (Option-cases (done key q)) [
  | inl f ↦ absurd (ground arith)
  | inr (q₁, f) ↦ run_closed calls c q₁ (done_closed key c q h f) (rw f at e)
]

-- an open channel that no key has
record IsOrphan (c : ℕ) (q : LQueue) : Type 0 where
  unheld : (k : ℕ) → Map.lookup k q.delay ≢ some c
  made : c < q.next
  still_open : q.closed c ≡ false

add-IsOrphan : (key c : ℕ) {q : LQueue} → IsOrphan c q → IsOrphan c (add key q)
unfolding add
add-IsOrphan key c {q} o = record {
  unheld = λ k h. ground (arith, Map.lookup-insert key k q.next q.delay, o.unheld k, o.made);
  made = omega (arith, o.made);
  still_open = o.still_open;
}

done-IsOrphan :
    (key c : ℕ) {q q' : LQueue}
    → Map.IsDistinct q.delay
    → IsOrphan c q
    → done key q ≡ some q'
    → IsOrphan c q'
unfolding done close
done-IsOrphan key c {q} d o e = record {
  unheld = λ k h. ground (
    arith,
    o.unheld k,
    ==_iff key k,
    Map.lookup-remove_self key q.delay d,
    Map.lookup-remove_ne key k q.delay,
  );
  made = ground (arith, o.made);
  still_open = ground (arith, o.still_open, o.unheld key);
}

run-IsOrphan :
    (calls : List Call) (c : ℕ) {q q' : LQueue}
    → IsValid q
    → IsOrphan c q
    → run calls q ≡ some q'
    → IsOrphan c q'
unfolding run
run-IsOrphan [] c v o e = subst (λ q. IsOrphan c q) (cc) o
run-IsOrphan (begin key ∷ calls) c v o e =
    run-IsOrphan calls c (add-IsValid key v) (add-IsOrphan key c o) e
run-IsOrphan (finish key ∷ calls) c v o e =
    let (q₁, f, v₁) = done-IsValid key v in
    run-IsOrphan calls c v₁ (done-IsOrphan key c v.distinct o f) (rw f at e)

-- In a valid queue, `Add` for a key that is there already takes its channel out of the map
-- unclosed. No later call closes it: whoever waits for it returns only on the timeout.
pub add_orphans :
    (calls : List Call) (key c : ℕ) {q q' : LQueue}
    → IsValid q
    → wait_on key q ≡ some c
    → run calls (add key q) ≡ some q'
    → may_return (some c) false q' ≡ false
unfolding wait_on may_return add
add_orphans calls key c {q} v h e =
    let o : IsOrphan c (add key q) = record {
      unheld = λ k g. ground (
        arith,
        Map.lookup-insert key k q.next q.delay,
        v.made key c,
        v.unshared k key c,
        ==_iff key k,
      );
      made = omega (arith, v.made key c h);
      still_open = v.open_in_map key c h;
    } in
    ground (arith, (run-IsOrphan calls c (add-IsValid key v) o e).still_open)
