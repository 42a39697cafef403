-- ===== src/Resolver/Chain/Retries.antt =====
-- The repetitions of the search for DS records over TCP (resolver.go, `lookupDS`).
use sdns.Base.{
  ℕ, zero, suc, ◌<◌, ◌-◌, ◌==◌, ◌&&◌, ◌≡◌, ap, refl, true, false, Bytes, none, some, arith,
}
use sdns.Cache.ErrorCache
use sdns.Cache.Key.{hash}
use sdns.Cache.Outcome.{err, not_found}
use sdns.Cache.QueryCache
use sdns.Cache.Sharded
use sdns.Dns.{Msg, type_ds}
use sdns.Handler.Env.{State, Proto, tcp, rcode_success}
use sdns.Resolver.Chain.{question_of, from_root, lookup_ds}
use sdns.Resolver.Env.{Env, Call, Resolver, done}

-- neither cache has the key
pub record Misses {R : Type 0} (key : ℕ) (s : State R) : Type 0 where
  pub answers : Sharded.get key s.qcache.shards ≡ none
  pub failures : Sharded.get key s.ecache.shards ≡ none

-- a reply without an error that is truncated, and leaves the key out of the caches
pub record Truncates {R : Type 0} (res : Resolver R) (key : ℕ) (call : Call) (s : State R)
    : Type 0 where
  pub later : State R
  pub reply : Msg
  pub returned : res call s ≡ some (later, done reply)
  pub cut : reply.truncated ≡ true
  pub accepted : reply.rcode ≡ rcode_success
  pub missing : Misses key later

answers_missing :
    {R : Type 0} (env : Env R) (key : ℕ) (req : Msg) (s : State R)
    → Misses key s
    → QueryCache.get env.lib s.now key req s.qcache ≡ (s.qcache, err not_found)
unfolding QueryCache.get
answers_missing env key req s h = rw (h.answers, QueryCache.get) refl

failures_missing :
    {R : Type 0} (key : ℕ) (s : State R)
    → Misses key s
    → ErrorCache.get s.now key s.ecache ≡ (s.ecache, some not_found)
unfolding ErrorCache.get
failures_missing key s h = rw (h.failures, ErrorCache.get) refl

module _ {R : Type 0} (env : Env R) (res : Resolver R) (qname : Bytes) where
  abbrev pub ds_key : ℕ
  ds_key = hash (question_of qname type_ds) false

  -- the call that asks for the DS records of the name
  abbrev pub ds_call : Proto → ℕ → Call
  ds_call proto depth = from_root env proto (env.new_query qname type_ds false) (depth - 1) true

  -- As long as the replies to the question for the DS records of a name are truncated, over TCP as well,
  -- the search for them does not end, whatever the bound on the rounds: a truncated reply over TCP is
  -- asked for again over TCP. Nothing is assumed of other calls of the resolver.
  pub lookup_ds_unending :
      (depth : ℕ)
      → ((proto : Proto) (s : State R)
          → Misses ds_key s
          → Truncates res ds_key (ds_call proto depth) s)
      → (rounds : ℕ) (proto : Proto) (s : State R) → 0 < depth
      → Misses ds_key s
      → lookup_ds env res rounds proto qname depth s ≡ none
  unfolding lookup_ds
  lookup_ds_unending depth truncates zero proto s pos missing = refl
  lookup_ds_unending depth truncates (suc rounds) proto s pos missing =
      let no_answer = answers_missing env ds_key (env.new_query qname type_ds false) s missing in
      let no_failure = failures_missing ds_key s missing in
      let t = truncates proto s missing in
      let positive : (depth == 0) ≡ false = ground arith in
      let again = lookup_ds_unending depth truncates rounds tcp t.later pos t.missing in
      let retried : (t.reply.truncated && t.reply.rcode == rcode_success) ≡ true =
        ground (arith, t.cut, t.accepted) in
      rw (lookup_ds, no_answer, ap (λ r. r.0) no_answer, no_failure, positive, t.returned, retried)
        again
