-- ===== src/Handler/Query/Failures.antt =====
-- What a query leaves behind when its resolution ends, well or badly (handler.go, `query`).
use sdns.Base.{
  ℕ, ◌-◌, ◌≤◌, ◌<◌, ◌^◌, ◌≡◌, refl, ◌∙◌, Bool, true, List, Option, none, some, ◌>>=◌, arith, nat_eq,
}
use sdns.Cache.Clock.{truncate}
use sdns.Cache.ErrorCache
use sdns.Cache.ErrorCache.Reads as ErrorReads
use sdns.Cache.LookupQueue
use sdns.Cache.LookupQueue.Safety as QueueSafety
use sdns.Cache.LookupQueue.Waiting.{done_frees}
use sdns.Dns.{Question, Rr, Msg}
use sdns.Handler.Env.{Env, State, Proto, tcp, rcode_server_failure}
use sdns.Handler.Prepare.{handle_failed}
use sdns.Handler.Query.{release, remember, settle, resolve_query, resolver_proto, query_at}
use sdns.Handler.Query.Invariance.{IsAsked, settle-Gives, tcp-Gives}
use sdns.Handler.Invariant.{Gives, gives, Invariant}
use sdns.Handler.Safety.{IsSafe}

-- the key is not in the queue of running lookups
abbrev pub IsReleased : {R : Type 0} → ℕ → Option (State R × Msg) → Type 0
IsReleased key none = ⊥
IsReleased key (some (s, msg)) = LookupQueue.wait_on key s.lqueue ≡ none

module _ {R : Type 0} (env : Env R) where
  release-IsReleased :
      (key : ℕ) (s : State R) (msg : Msg)
      → QueueSafety.IsValid s.lqueue
      → IsReleased key (release env key (s, msg))
  unfolding release
  release-IsReleased key s msg h =
      let (lqueue, e, v) = QueueSafety.done-IsValid key h in
      rw e (done_frees key s.lqueue h.distinct e)

  -- From a safe state, a resolution that fails gives a SERVFAIL, and the failure is remembered: as
  -- long as the entry is younger than the TTL of the error cache, and than 2 ^ 32 seconds, the
  -- cache reports it.
  pub settle_failed :
      (again : State R → Msg → Option (State R × Msg)) (proto : Proto) (q : Question)
      (key later : ℕ) (req : Msg) (opt : Rr) (ds : Bool) (t : State R)
      → IsSafe t
      → truncate t.now ≤ truncate later
      → truncate later - truncate t.now < 2 ^ 32
      → truncate later - truncate t.now < t.ecache.ttl
      → (u : State R) × (settle env again proto q key req opt ds t none
          ≡ some (u, handle_failed env req rcode_server_failure ds))
        × ((ErrorCache.get later key u.ecache).1 ≡ none)
  unfolding settle remember
  settle_failed again proto q key later req opt ds t h le fits young = (
    remember env key t,
    refl,
    ErrorReads.get-set_failure t.pick t.now later key t.ecache h.ecache le fits ∙ ground arith,
  )

module _ {R : Type 0} (env : Env R) {Inv : State R → Type 0} {asks : Msg → Bool}
    {allowed : ℕ → Bool → Bool} {fit : List Rr → Bool} (inv : Invariant env Inv asks allowed fit)
    (queue : (s : State R) → Inv s → QueueSafety.IsValid s.lqueue) where
  after-IsReleased :
      (key : ℕ) {A : Type 0} {test : A → Bool} {m : Option (State R × A)}
      (f : State R × A → Option (State R × Msg))
      → Gives Inv test m
      → ((t : State R) (a : A) → Inv t → test a ≡ true → IsReleased key (f (t, a)))
      → IsReleased key (m >>= f)
  after-IsReleased key f (gives {s} {a} h t) k = k s a h t

  -- An invariant that a query keeps, and that holds of valid queues only, is enough for the release.
  pub resolve_query_releases :
      (proto : Proto) (q : Question) (key : ℕ) (req : Msg) (opt : Rr) (ds : Bool) (s : State R)
      → IsAsked env inv q req
      → Inv s
      → IsReleased key (resolve_query env (query_at env (λ t m. none) tcp) proto q key req opt ds s)
  unfolding resolve_query
  resolve_query_releases proto q key req opt ds s a h =
      after-IsReleased key _
        (inv.resolves (resolver_proto proto) req _ a.asked (inv.lqueue_add key s h))
        (λ t found k f.
          after-IsReleased key _
            (settle-Gives env inv (query_at env (λ u m. none) tcp) proto q
              (λ p u m i n b w. tcp-Gives env inv u m n b w i) key req opt ds t found a f k)
            (λ u msg i w. release-IsReleased env key u msg (queue u i)))
