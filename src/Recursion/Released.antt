-- ===== src/Recursion/Released.antt =====
-- A query releases its key, with the resolver that it calls (handler.go, `query`).
use sdns.Base.{ℕ, ◌+◌, ◌<◌, ◌≡◌, true, List, ◌∷◌, none, Bool}
use sdns.Dns.{Question, Rr, Msg}
use sdns.Handler.Env as HandlerEnv
use sdns.Handler.Env.{State, Proto, tcp}
use sdns.Handler.Invariant.{notes}
use sdns.Handler.Query.{query_at, resolve_query}
use sdns.Handler.Query.Failures.{IsReleased, resolve_query_releases}
use sdns.Handler.Query.Invariance.{is_asked}
use sdns.Recursion.{recursive}
use sdns.Recursion.Totality.{Joined, goes_unchecked, soundness}
use sdns.Resolver.Env.{Env}
use sdns.Resolver.Network.{Reliable}
use sdns.Resolver.Soundness.{IsSound}

-- With `Resolve` itself for the resolver, and whatever it finds: the part of a query that adds a key to
-- the queue of running lookups ends with a reply, and the key is then not in the queue, so that no later
-- query waits for it. The request has the CD flag and is not for a DS record, and the text of the HINFO
-- note parses for its name, which ends with a dot; the caches are sound, and the fuel exceeds the
-- configured depth by more than two. Assumed is what is assumed of a query that returns.
pub resolve_query-IsReleased :
    {R : Type 0} (env : Env R) (reliable : Reliable env) (fuel : ℕ) (henv : HandlerEnv.Env R)
    (joined : Joined henv) (enough : henv.config.maxdepth + 2 < fuel) (proto : Proto) (q : Question)
    (qs : List Question) (key : ℕ) (req : Msg) (opt : Rr) (ds : Bool) (s : State R)
    → req.question ≡ q ∷ qs
    → goes_unchecked req ≡ true
    → notes henv (q ∷ qs) ≡ true
    → IsSound s
    → let env' = recursive env fuel henv in
      IsReleased key (resolve_query env' (query_at env' (λ t m. none) tcp) proto q key req opt ds s)
resolve_query-IsReleased env reliable fuel henv joined enough proto q qs key req opt ds s e a n h =
    let inv = soundness env reliable fuel henv joined enough in
    resolve_query_releases (recursive env fuel henv) inv (λ t i. i.lqueue) proto q key req opt ds s
      (is_asked (recursive env fuel henv) inv q qs req e a n) h
