-- ===== src/Recursion/Totality.antt =====
-- A query returns, with the resolver that it calls (handler.go, `query`; resolver.go, `Resolve`).
use sdns.Base.{
  ℕ, ◌+◌, ◌<◌, ◌≡◌, refl, Bool, true, false, not, ◌&&◌, ◌==◌, List, [], ◌∷◌, Bytes, Option, none,
  some, arith,
}
use sdns.Cache.ErrorCache.Reads as ErrorReads
use sdns.Cache.LookupQueue.Safety as QueueSafety
use sdns.Cache.QueryCache.Answers as QueryAnswers
use sdns.Cache.QueryCache.Reads as QueryReads
use sdns.Dns.{Rr, Msg, empty_msg, type_ds}
use sdns.Handler.Cname.{last_target}
use sdns.Handler.Env as HandlerEnv
use sdns.Handler.Env.{State, Proto}
use sdns.Handler.Invariant.{Gives, gives, given, fits_found, notes, Invariant}
use sdns.Handler.Query.{query, blocked_reply}
use sdns.Handler.Query.Invariance.{query-Gives}
use sdns.Recursion.{found_by, ask_resolver, recursive}
use sdns.Resolver.Addresses.Totality.{can_ask, is_whole}
use sdns.Resolver.Chain.{question_of, from_root}
use sdns.Resolver.Env.{Env, Run, done, failed}
use sdns.Resolver.Network.{Reliable, closed_host, closed_targets}
use sdns.Resolver.Resolve.Totality.{resolve-Ends}
use sdns.Resolver.Soundness.{
  IsSound, Ends, ends, qcache-IsSound, get-IsSound, ecache-IsSound, ncache-IsSound, lqueue-IsSound,
  closed_targets-IsAgeless,
}
use sdns.Resolver.Zones.Served.{get-IsServed}

-- What is assumed of the handler's environment: a wait leaves the caches sound, a write to an OPT
-- record leaves the question and the CD flag alone, and a new query asks what it is asked to.
pub record Joined {R : Type 0} (henv : HandlerEnv.Env R) : Type 0 where
  pub waits : (key : ℕ) (s : State R) → IsSound s → IsSound (henv.wait key s)
  pub question_kept : (opt : Rr) (m : Msg) → (henv.opts.put_edns0 opt m).question ≡ m.question
  pub checking_kept :
      (opt : Rr) (m : Msg) → (henv.opts.put_edns0 opt m).checking_disabled ≡ m.checking_disabled
  pub asks :
      (name : Bytes) (qtype : ℕ) (cd : Bool)
      → (henv.new_query name qtype cd).question ≡ question_of name qtype ∷ []
  pub asks_cd :
      (name : Bytes) (qtype : ℕ) (cd : Bool) → (henv.new_query name qtype cd).checking_disabled ≡ cd

-- the requests with the CD flag that ask for a closed name, and not for a DS record
abbrev pub goes_unchecked : Msg → Bool
goes_unchecked m = m.checking_disabled && can_ask true m.question

abbrev pub may_follow : ℕ → Bool → Bool
may_follow qtype cd = cd && not (qtype == type_ds)

last_target_closed :
    (found : Option Bytes) (rs : List Rr)
    → closed_host found ≡ true
    → closed_targets rs ≡ true
    → closed_host (last_target found rs) ≡ true
unfolding last_target closed_targets
last_target_closed found [] h k = h
last_target_closed found (r ∷ rs) h k = last_target_closed _ rs (ground arith) (ground arith)

Ends-Gives :
    {R : Type 0} (proto : Proto) {o : Run R Msg}
    → Ends (is_whole proto) o
    → Gives IsSound (fits_found closed_targets) (found_by o)
unfolding found_by
Ends-Gives proto (ends {a = done m} h w) = gives h (ground arith)
Ends-Gives proto (ends {a = failed e} h w) = gives h refl

module _ {R : Type 0} (env : Env R) (reliable : Reliable env) (fuel : ℕ) (henv : HandlerEnv.Env R)
    (joined : Joined henv) (enough : henv.config.maxdepth + 2 < fuel) where
  resolves :
      (proto : Proto) (req : Msg) (s : State R)
      → goes_unchecked req ≡ true
      → IsSound s
      → Gives IsSound
          (fits_found closed_targets)
          (ask_resolver env fuel proto req henv.config.maxdepth s)
  unfolding ask_resolver
  resolves proto req s a h = Ends-Gives proto (
      resolve-Ends env reliable fuel (from_root env proto req henv.config.maxdepth false) s
        (let k = reliable.roots in ground arith) enough h)

  pub soundness :
      Invariant (recursive env fuel henv) IsSound goes_unchecked may_follow closed_targets
  unfolding closed_targets blocked_reply
  soundness = record {
    qcache_get = λ key req s h. get-IsSound henv.lib key req h;
    qcache_hit = λ key req m limiter s h e.
        QueryAnswers.get_fits closed_targets henv.lib s.now key req m limiter s.qcache
          closed_targets-IsAgeless h.targets e;
    qcache_set = λ key m s f h.
        qcache-IsSound _
          (QueryReads.set-IsValid henv.lib henv.new_limiter s.pick s.now key m s.qcache h.qcache)
          (QueryAnswers.set-Holds closed_targets henv.lib henv.new_limiter s.pick s.now key m
            s.qcache h.qcache f h.targets)
          h;
    ecache_get = λ key s h. ecache-IsSound _ (ErrorReads.get-IsValid s.now key s.ecache h.ecache) h;
    ecache_set =
        λ key s h. ecache-IsSound _ (ErrorReads.set-IsValid s.pick s.now key s.ecache h.ecache) h;
    ncache_get = λ key s h. ncache-IsSound _ (get-IsServed s.now key h.ncache) h;
    lqueue_add = λ key s h. lqueue-IsSound _ (QueueSafety.add-IsValid key h.lqueue) h;
    lqueue_done = λ key s h.
        let (q, e, v) = QueueSafety.done-IsValid key h.lqueue in (q, e, lqueue-IsSound q v h);
    waits = joined.waits;
    resolves = resolves;
    nothing_fits = refl;
    blocked_fits = λ q req. rw (henv.lib.set_reply_answer empty_msg req) (ground arith);
    question_kept = joined.question_kept;
    asks_kept = λ opt m a. rw (joined.question_kept opt m, joined.checking_kept opt m) a;
    asks_more = λ extra m a. a;
    asks_first = λ q qs m e a. ground arith;
    asks_target = λ answer target qtype cd f e a.
        let closed = rw e at (last_target_closed none answer refl f) in
        rw (joined.asks target qtype cd, joined.asks_cd target qtype cd) (ground arith);
  }

  -- With `Resolve` itself for the resolver: over every transport, a request with the CD flag, not for a
  -- DS record, and for a name that ends with a dot and for which the text of the HINFO note parses,
  -- returns a reply and leaves the caches sound, from sound caches and on fuel that exceeds the
  -- configured depth by more than two. Assumed are root servers and
  -- root keys; a network that sends names that end with a dot, and whole messages over TCP; a wait that
  -- leaves the caches sound; and a library whose writes to an OPT record keep the question and the CD
  -- flag, whose new queries ask what they are asked to, and whose replies start with no answer.
  pub recursion-Returns :
      (proto : Proto) (s : State R) (req : Msg)
      → goes_unchecked req ≡ true
      → notes henv req.question ≡ true
      → IsSound s
      → (t : State R) × (msg : Msg) × (query (recursive env fuel henv) proto s req ≡ some (t, msg))
        × IsSound t
  recursion-Returns proto s req a w h =
      let (t, msg, e, k, fits) =
        given (query-Gives _ soundness proto s req (λ n. absurd (ground arith)) a w h) in
      (t, msg, e, k)
