-- ===== src/Tests/Queues.antt =====
-- Examples for cache/lookup_queue.go.
use sdns.Base.{◌≡◌, refl, false, [], ◌∷◌, List, some, nat_eq, ◌==◌, ◌||◌}
use sdns.Base.Map
use sdns.Cache.LookupQueue.{LQueue, new_lookup_queue, add, close, done, wait_on, may_return}
use sdns.Cache.LookupQueue.Safety.{
  IsValid, Call, begin, finish, run, new_lookup_queue-IsValid, add-IsValid, run_total,
}
use sdns.Cache.LookupQueue.Waiting.{add_orphans}

program : Unit {0}
unfolding Map.lookup Map.insert Map.remove new_lookup_queue add close done wait_on may_return run
program = tt

abbrev running : LQueue
running = add 5 new_lookup_queue

running-IsValid : IsValid running
running-IsValid = add-IsValid 5 new_lookup_queue-IsValid

abbrev calls : List Call
calls = finish 5 ∷ finish 5 ∷ begin 6 ∷ []

run_total_example : (q : LQueue) × (run calls running ≡ some q) × IsValid q
run_total_example = run_total calls running-IsValid

abbrev ended : LQueue
ended = record running { delay = []; closed = λ d. 0 == d || false }

-- two clients ask the same question, and the second `Add` comes before the first `Done`
abbrev twice : LQueue
twice = record running { delay = []; next = 2; closed = λ d. 1 == d || false }

add_orphans_example : may_return (some 0) false twice ≡ false
unfolding program
add_orphans_example = add_orphans (finish 5 ∷ []) 5 0 {q' = twice} running-IsValid refl refl
