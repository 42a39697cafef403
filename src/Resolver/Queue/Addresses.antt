-- ===== src/Resolver/Queue/Addresses.antt =====
-- The lookup queue across the lookup of an address (resolver.go, `lookupNSAddr`).
use sdns.Base.{
  refl, ℕ, zero, suc, ◌-◌, ◌≡◌, Bool, not, ◌&&◌, ◌==◌, Bytes, none, is_some, Option-cases, inl, inr,
}
use sdns.Cache.ErrorCache
use sdns.Cache.Key.{hash}
use sdns.Cache.LookupQueue
use sdns.Cache.LookupQueue.{LQueue}
use sdns.Cache.QueryCache
use sdns.Dns.{Msg, type_a}
use sdns.Handler.Env.{State, Proto, tcp, rcode_success}
use sdns.Records.{is_empty, search_addr}
use sdns.Resolver.Addresses.{
  lookup, fall_back, release, keep_addr, settle_addr, find_addr, queued_addr, missed_addr,
  cached_addr, lookup_ns_addr,
}
use sdns.Resolver.Chain.{question_of, remember, store}
use sdns.Resolver.Env.{Env, Run, Call, Resolver, Attempt, done, failed}
use sdns.Resolver.Queue.{
  IsKept, IsKeptBut, Keeps, stops, keeps, weaken-Keeps, bind-Keeps, pure-Keeps, if-Keeps,
  option-Keeps, attempt-Keeps, add-IsKeptBut, IsKept-IsKeptBut, trans-IsKept, add-IsKept,
  done-IsKept,
}
use sdns.Resolver.Queue.Chain.{lookup_keeps}

module _ {R : Type 0} (env : Env R) where
  module _ (p : LQueue → Type 0) where
    fall_back-Keeps :
        (proto : Proto) (req : Msg) (before : Attempt Msg) (s : State R)
        → p s.lqueue
        → Keeps p (fall_back env proto req before s)
    unfolding fall_back
    fall_back-Keeps proto req before s h =
        if-Keeps p (is_empty env.fallbackservers.list) (keeps h) (
          pure-Keeps p (lookup env proto req env.fallbackservers s) _ (λ (t, c, outcome) e.
            let k = lookup_keeps env p proto req env.fallbackservers s h e in
            option-Keeps p outcome (keeps k) (λ resp. keeps k)))

    keep_addr-Keeps :
        (key : ℕ) (m : Msg) (s : State R) → p s.lqueue → Keeps p (keep_addr env key m s)
    unfolding keep_addr remember store
    keep_addr-Keeps key m s h = option-Keeps p (search_addr m) (keeps h) (λ addr. keeps h)

    find_addr-Keeps :
        (res : Resolver R) (proto : Proto) (req : Msg) (depth : ℕ) (s : State R)
        → ((call : Call) (t : State R) → p t.lqueue → Keeps p (res call t))
        → p s.lqueue
        → Keeps p (find_addr env res proto req depth s)
    unfolding find_addr
    find_addr-Keeps res proto req depth s res_keeps h =
        bind-Keeps p _ (res_keeps _ s h) (λ t outcome k.
          attempt-Keeps p outcome (λ m. keeps k) (λ e. fall_back-Keeps proto req (failed e) t k))

  -- the key that is being looked up is taken out, also before the call over TCP
  settle_addr-Keeps :
      (again : State R → Run R Bytes) (key : ℕ) (proto : Proto) (req : Msg) (q : LQueue)
      (s : State R) (outcome : Attempt Msg)
      → ((t : State R) → IsKept q t.lqueue → Keeps (IsKept q) (again t))
      → LookupQueue.get key q ≡ none
      → IsKept (LookupQueue.add key q) s.lqueue
      → Keeps (IsKeptBut key q) (settle_addr env again key proto req s outcome)
  unfolding settle_addr remember
  settle_addr-Keeps again key proto req q s (failed e) again_keeps missing h =
      keeps (add-IsKeptBut key q s.lqueue h)
  settle_addr-Keeps again key proto req q s (done m) again_keeps missing h =
      let p = IsKeptBut key q in
      let but = add-IsKeptBut key q s.lqueue h in
      if-Keeps p (m.truncated && m.rcode == rcode_success)
        (pure-Keeps p (LookupQueue.done key s.lqueue) _ (λ r e.
          weaken-Keeps p (IsKept-IsKeptBut key q)
            (again_keeps _ (done-IsKept key q s.lqueue missing but e))))
        (if-Keeps p (is_empty m.answer && is_empty m.ns)
          (bind-Keeps p _ (fall_back-Keeps p proto req (done m) s but) (λ t outcome k.
            attempt-Keeps p outcome (λ resp. keep_addr-Keeps p key resp t k) (λ e. keeps k)))
          (keep_addr-Keeps p key m s but))

  release-Keeps :
      {A : Type 0} (key : ℕ) (q : LQueue) (s : State R) (outcome : Attempt A)
      → LookupQueue.get key q ≡ none
      → IsKeptBut key q s.lqueue
      → Keeps (IsKept q) (release env key (s, outcome))
  unfolding release
  release-Keeps key q s outcome missing h =
      pure-Keeps (IsKept q) (LookupQueue.done key s.lqueue) _
        (λ r e. keeps (done-IsKept key q s.lqueue missing h e))

  module _ (res : Resolver R)
      (res_keeps : (q : LQueue) (call : Call) (s : State R)
        → IsKept q s.lqueue
        → Keeps (IsKept q) (res call s)) where
    queued_addr-Keeps :
        (again : State R → Run R Bytes) (key : ℕ) (proto : Proto) (req : Msg) (depth : ℕ)
        (q : LQueue) (s : State R)
        → ((t : State R) → IsKept q t.lqueue → Keeps (IsKept q) (again t))
        → LookupQueue.get key q ≡ none
        → IsKept (LookupQueue.add key q) s.lqueue
        → Keeps (IsKeptBut key q) (queued_addr env res again key proto req depth s)
    unfolding queued_addr
    queued_addr-Keeps again key proto req depth q s again_keeps missing h =
        if-Keeps (IsKeptBut key q) (depth == 0) (keeps (add-IsKeptBut key q s.lqueue h)) (
          bind-Keeps (IsKeptBut key q) _
            (find_addr-Keeps (IsKept (LookupQueue.add key q)) res proto req (depth - 1) s
              (res_keeps (LookupQueue.add key q)) h)
            (λ t outcome k.
              settle_addr-Keeps again key proto req q t outcome again_keeps missing k))

    missed_addr-Keeps :
        (again : State R → Run R Bytes) (key : ℕ) (proto : Proto) (req : Msg) (depth : ℕ)
        (s : State R)
        → ((t : State R) → IsKept s.lqueue t.lqueue → Keeps (IsKept s.lqueue) (again t))
        → LookupQueue.get key s.lqueue ≡ none
        → IsKept s.lqueue s.lqueue
        → Keeps (IsKept s.lqueue) (missed_addr env res again key proto req depth s)
    unfolding missed_addr
    missed_addr-Keeps again key proto req depth s again_keeps missing h =
        let p = IsKept s.lqueue in
        if-Keeps p (not (is_some (ErrorCache.get s.now key s.ecache).1)) (keeps h) (
          bind-Keeps p _
            (queued_addr-Keeps again key proto req depth s.lqueue _ again_keeps missing
              (add-IsKept key s.lqueue h.distinct))
            (λ t outcome k. release-Keeps key s.lqueue t outcome missing k))

    pub lookup_ns_addr-Keeps :
        (rounds : ℕ) (proto : Proto) (ns : Bytes) (depth : ℕ) (cd : Bool) (q : LQueue) (s : State R)
        → IsKept q s.lqueue
        → Keeps (IsKept q) (lookup_ns_addr env res rounds proto ns depth cd s)
    unfolding lookup_ns_addr
    lookup_ns_addr-Keeps zero proto ns depth cd q s h = stops
    lookup_ns_addr-Keeps (suc rounds) proto ns depth cd q s h =
        let req = env.new_query ns type_a cd in
        let key = hash (question_of ns type_a) cd in
        let found = (QueryCache.get env.lib s.now key req s.qcache).1 in
        elim (Option-cases (LookupQueue.get key s.lqueue)) [
          | inl e ↦
              rw (e, lookup_ns_addr)
                (option-Keeps (IsKept q) (cached_addr env found)
                  (weaken-Keeps (IsKept q) (λ r. trans-IsKept h)
                    (missed_addr-Keeps _ key proto req depth _
                      (λ t k. lookup_ns_addr-Keeps rounds tcp ns depth cd s.lqueue t k) e
                      (record { distinct = h.distinct; same = λ j. refl })))
                  (λ addr. keeps h))
          | inr (c, e) ↦ rw (e, lookup_ns_addr) (keeps h)
        ]
