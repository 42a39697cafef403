-- ===== src/Cache/LookupQueue.antt =====
-- cache/lookup_queue.go: the keys that are being resolved, each with a channel that is closed when
-- its lookup is done. A channel is a number: `next` is the one that `make` returns next, and
-- `closed` says which have been closed. Closing a closed channel panics: `done` gives `none` then.
pub mod Safety
pub mod Waiting
use sdns.Base.{
  ℕ, ◌+◌, ◌==◌, Bool, true, false, List, [], Option, none, some, if◌then◌else◌, nat_eq, ◌||◌,
}
use sdns.Base.Map

-- `LQueue`
pub record LQueue : Type 0 where
  pub delay : List (ℕ × ℕ)
  pub next : ℕ
  pub closed : ℕ → Bool

-- `NewLookupQueue`
unfoldable pub new_lookup_queue : LQueue
new_lookup_queue = record { delay = []; next = 0; closed = λ c. false }

-- `Get`
unfoldable pub get : ℕ → LQueue → Option ℕ
get key q = Map.lookup key q.delay

-- `Add`
unfoldable pub add : ℕ → LQueue → LQueue
add key q = record q { delay = Map.insert key q.next q.delay; next = q.next + 1 }

-- `close(c)`
unfoldable pub close : ℕ → LQueue → Option LQueue
close c q = if q.closed c then none else some (record q { closed = λ d. c == d || q.closed d })

-- `Done`
unfoldable pub done : ℕ → LQueue → Option LQueue
unfolding close
done key q = elim (Map.lookup key q.delay) [
  | none ↦ some (record q { delay = Map.remove key q.delay })
  | some c ↦ elim (close c q) [
    | none ↦ none
    | some q' ↦ some (record q' { delay = Map.remove key q'.delay })
  ]
]

-- What `Wait` waits for: the channel that the key has at the call, if it has one, for at most ten
-- seconds. It returns as soon as `may_return` holds.
unfoldable pub wait_on : ℕ → LQueue → Option ℕ
wait_on key q = Map.lookup key q.delay

unfoldable pub may_return : Option ℕ → Bool → LQueue → Bool
may_return none timed_out q = true
may_return (some c) timed_out q = q.closed c || timed_out
