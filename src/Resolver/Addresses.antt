-- ===== src/Resolver/Addresses.antt =====
-- resolver.go, `lookupNSAddr`: the address of a nameserver, by `Resolve`, and by the fallback servers.
pub mod Totality
use sdns.Base.{
  ℕ, zero, suc, ◌+◌, ◌-◌, Bool, true, false, not, ◌&&◌, ◌==◌, List, [], ◌∷◌, Bytes, Option, none,
  some, if◌then◌else◌, ◌>>=◌, is_some,
}
use sdns.Cache.ErrorCache
use sdns.Cache.Key.{hash}
use sdns.Cache.LookupQueue
use sdns.Cache.Outcome.{Result, ok, err}
use sdns.Cache.QueryCache
use sdns.Cache.Servers.{AuthServer, AuthServers}
use sdns.Dns.{Msg, type_a}
use sdns.Handler.Env.{State, Proto, udp, tcp, rcode_success}
use sdns.Records.{is_empty, search_addr}
use sdns.Resolver.Chain.{question_of, remember, store, from_root}
use sdns.Resolver.Env.{
  Env, Run, Call, Resolver, Attempt, done, failed, ResolveError, looped, cached_failure, max_depth,
  not_exchanged, no_answer,
}
use sdns.Resolver.Exchange.{Client, exchange}
use sdns.Resolver.Exchange

module _ {R : Type 0} (env : Env R) where
  -- `lookup` at the time of the state, with the request that the exchanges leave
  unfoldable pub lookup :
      Proto → Msg → AuthServers → State R → Option (State R × Client × Option Msg)
  lookup proto req servers s =
      Exchange.lookup (exchange env.edns0 (env.net.dial s.now) (env.net.rtt s.now) 3)
        (record { proto = proto; req = req; measured = [] }) servers
      >>= λ (c, outcome). some (record s { now = env.net.later s.now }, c, outcome)

  -- the answer of the fallback servers, if there are any, in place of `before`
  unfoldable pub fall_back : Proto → Msg → Attempt Msg → State R → Run R Msg
  fall_back proto req before s =
      if is_empty env.fallbackservers.list
      then some (s, before)
      else (lookup proto req env.fallbackservers s >>= λ (t, c, outcome). elim outcome [
        | none ↦ some (t, failed not_exchanged)
        | some resp ↦ some (t, done resp)
      ])

  -- `Lqueue.Done`, deferred to the return
  unfoldable pub release : {A : Type 0} → ℕ → State R × Attempt A → Run R A
  release key (s, outcome) =
      LookupQueue.done key s.lqueue >>= λ q. some (record s { lqueue = q }, outcome)

  -- the end of `lookupNSAddr`: the address of the first A record
  unfoldable pub keep_addr : ℕ → Msg → State R → Run R Bytes
  keep_addr key nsres s = elim (search_addr nsres) [
    | some addr ↦ some (store env key nsres s, done addr)
    | none ↦ some (remember env key s, failed no_answer)
  ]

  -- from the test of the truncation to the end; `again` is the call over TCP
  unfoldable pub settle_addr :
      (State R → Run R Bytes) → ℕ → Proto → Msg → State R → Attempt Msg → Run R Bytes
  settle_addr again key proto req s (failed e) = some (remember env key s, failed e)
  settle_addr again key proto req s (done nsres) =
      if nsres.truncated && nsres.rcode == rcode_success
      then (LookupQueue.done key s.lqueue >>= λ q. again (record s { lqueue = q }))
      else if is_empty nsres.answer && is_empty nsres.ns
      then (fall_back proto req (done nsres) s >>= λ (t, outcome). elim outcome [
        | failed e ↦ some (remember env key t, failed e)
        | done resp ↦ keep_addr key resp t
      ])
      else keep_addr key nsres s

  -- `Resolve`, and the fallback servers where it fails
  unfoldable pub find_addr : Resolver R → Proto → Msg → ℕ → State R → Run R Msg
  find_addr res proto req depth s = res (from_root env proto req depth true) s >>= λ (t, outcome).
      elim outcome [
        | done nsres ↦ some (t, done nsres)
        | failed e ↦ fall_back proto req (failed e) t
      ]

  -- from the entry into the queue to the end, before the deferred call
  unfoldable pub queued_addr :
      Resolver R → (State R → Run R Bytes) → ℕ → Proto → Msg → ℕ → State R → Run R Bytes
  queued_addr res again key proto req depth s =
      if depth == 0
      then some (s, failed max_depth)
      else (find_addr res proto req (depth - 1) s >>= λ (t, outcome).
          settle_addr again key proto req t outcome)

  -- from the error cache to the end
  unfoldable pub missed_addr :
      Resolver R → (State R → Run R Bytes) → ℕ → Proto → Msg → ℕ → State R → Run R Bytes
  missed_addr res again key proto req depth s =
      let (ecache, e) = ErrorCache.get s.now key s.ecache in
      let s' = record s { ecache = ecache } in
      if not (is_some e)
      then some (s', failed cached_failure)
      else (queued_addr res again key proto req depth
            (record s' { lqueue = LookupQueue.add key s'.lqueue })
          >>= release key)

  -- the address of a cached answer
  abbrev pub cached_addr : Result (Msg × R) → Option Bytes
  cached_addr (err e) = none
  cached_addr (ok (nsres, rl)) = search_addr nsres

  -- `lookupNSAddr`; `rounds` bounds the calls over TCP
  unfoldable pub lookup_ns_addr : Resolver R → ℕ → Proto → Bytes → ℕ → Bool → State R → Run R Bytes
  lookup_ns_addr res zero proto ns depth cd s = none
  lookup_ns_addr res (suc rounds) proto ns depth cd s =
      let req = env.new_query ns type_a cd in
      let key = hash (question_of ns type_a) cd in
      let (qcache, found) = QueryCache.get env.lib s.now key req s.qcache in
      let s' = record s { qcache = qcache } in
      if is_some (LookupQueue.get key s.lqueue)
      then some (s, failed looped)
      else elim (cached_addr found) [
        | some addr ↦ some (s', done addr)
        | none ↦
            missed_addr res (λ t. lookup_ns_addr res rounds tcp ns depth cd t) key proto req depth
              s'
      ]
