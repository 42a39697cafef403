-- ===== src/Handler/Query/Blocking.antt =====
-- What a client gets for a blocked name (handler.go, `query`).
use sdns.Base.{
  ℕ, ◌≡◌, refl, ◌∙◌, ap, Bool, true, false, ◌||◌, ◌==◌, List, [], ◌∷◌, bytes_eq, Option, none, some,
  if◌then◌else◌, arith,
}
use sdns.Cache.BlockCache
use sdns.Cache.ErrorCache
use sdns.Cache.Key.{hash}
use sdns.Cache.Outcome.{CacheError, err}
use sdns.Cache.QueryCache
use sdns.Dns.{Question, Rr, Rdata, Msg, type_a, class_inet, rootzone}
use sdns.Handler.Cname.{is_address_type}
use sdns.Handler.Env.{Env, State, Proto, tcp}
use sdns.Handler.Prepare.{ready, prepare}
use sdns.Handler.Query.{
  query, query_at, query_first, query_for, query_checked, answer_query, miss, blocked_reply,
}

module _ {R : Type 0} (env : Env R) where
  -- the null address of the configuration for the type
  abbrev pub null_address : ℕ → Rdata
  null_address qtype =
      if qtype == type_a then Rdata.a env.config.nullroute else Rdata.aaaa env.config.nullroutev6

  -- a reply to the request with the null address as its one answer
  pub record IsBlocked (q : Question) (req : Msg) (m : Msg) : Type 0 where
    pub answer :
        m.answer
        ≡ record {
          name = q.name;
          rrtype = q.qtype;
          rrclass = class_inet;
          ttl = env.config.expire;
          rdata = null_address q.qtype;
        }
          ∷ []
    pub same_id : m.id ≡ req.id
    pub authoritative : m.authoritative ≡ false

  blocked_reply-IsBlocked : (q : Question) (req : Msg) → IsBlocked q req (blocked_reply env q req)
  unfolding blocked_reply
  blocked_reply-IsBlocked q req = record {
    answer = rw (env.lib.set_reply_answer _ req) refl;
    same_id = env.lib.set_reply_id _ req;
    authoritative = refl;
  }

  miss_blocked :
      (again : State R → Msg → Option (State R × Msg)) (proto : Proto) (q : Question) (key : ℕ)
      (req : Msg) (opt : Rr) (ds : Bool) (w : State R) (f : CacheError)
      → (ErrorCache.get w.now key w.ecache).1 ≡ some f
      → is_address_type q.qtype ≡ true
      → BlockCache.exists q.name w.block_list ≡ true
      → (t : State R) × (miss env again proto q key req opt ds w
          ≡ some (t, blocked_reply env q req))
        × (t.lqueue ≡ w.lqueue)
  unfolding miss
  miss_blocked again proto q key req opt ds w f sound address blocked =
      let s' = record w { ecache = (ErrorCache.get w.now key w.ecache).0 } in
      (
        record s' {
          qcache =
              QueryCache.set env.lib env.new_limiter w.pick w.now key (blocked_reply env q req)
                w.qcache;
        },
        rw (sound, miss) (rw (address, blocked) refl),
        refl,
      )

  answer_query_blocked :
      (again : State R → Msg → Option (State R × Msg)) (proto : Proto) (q : Question) (req : Msg)
      (opt : Rr) (ds : Bool) (s : State R) (e f : CacheError)
      → let key = hash q req.checking_disabled in
        let w = env.wait key s in
        (QueryCache.get env.lib w.now key req w.qcache).1 ≡ err e
        → (ErrorCache.get w.now key w.ecache).1 ≡ some f
        → is_address_type q.qtype ≡ true
        → BlockCache.exists q.name w.block_list ≡ true
        → (t : State R) × (answer_query env again proto q req opt ds s
            ≡ some (t, blocked_reply env q req))
          × (t.lqueue ≡ w.lqueue)
  unfolding answer_query
  answer_query_blocked again proto q req opt ds s e f uncached sound address blocked =
      rw (uncached, answer_query)
        (miss_blocked again proto q (hash q req.checking_disabled) req opt ds _ f sound address
          blocked)

  -- An A or AAAA question for a name on the block list that is not cached, neither as an answer nor as
  -- an error, gets the null address of the configuration; the resolver is not asked, so the queue of
  -- running lookups is as it was after the wait.
  pub query-IsBlocked :
      (proto : Proto) (q : Question) (qs : List Question) (s : State R) (req req' : Msg) (opt : Rr)
      (ds : Bool) (e f : CacheError)
      → let key = hash q req'.checking_disabled in
        let w = env.wait key s in
        req.question ≡ q ∷ qs
        → prepare env req ≡ ready req' opt ds
        → is_address_type q.qtype ≡ true
        → (bytes_eq q.name rootzone || req'.recursion_desired) ≡ true
        → (QueryCache.get env.lib w.now key req' w.qcache).1 ≡ err e
        → (ErrorCache.get w.now key w.ecache).1 ≡ some f
        → BlockCache.exists q.name w.block_list ≡ true
        → (t : State R) × (msg : Msg) × (query env proto s req ≡ some (t, msg))
          × IsBlocked q req' msg
          × (t.lqueue ≡ w.lqueue)
  unfolding query query_at query_first query_for query_checked
  query-IsBlocked proto q qs s req req' opt ds e f asked p address open_to_all uncached sound
        blocked =
      let again = query_at env (λ t m. none) tcp in
      let (t, g, l) =
        answer_query_blocked again proto q req' opt ds s e f uncached sound address blocked in
      (
        t,
        blocked_reply env q req',
        ap (query_first env again proto s req) asked
            ∙ ap (query_checked env again proto q s) p
            ∙ (ground arith)
            ∙ g,
        blocked_reply-IsBlocked q req',
        l,
      )
