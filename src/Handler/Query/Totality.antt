-- ===== src/Handler/Query/Totality.antt =====
-- When a query does not return (handler.go, `query`).
use sdns.Base.{◌≡◌, ap, [], none}
use sdns.Dns.{Msg}
use sdns.Handler.Env.{Env, State, Proto, tcp}
use sdns.Handler.Query.{query_first, query_at, query}

module _ {R : Type 0} (env : Env R) where
  -- A request without a question makes the query panic, over every transport.
  pub query_unasked :
      (proto : Proto) (s : State R) (req : Msg) → req.question ≡ [] → query env proto s req ≡ none
  unfolding query query_at query_first
  query_unasked proto s req e = ap (query_first env (query_at env (λ t m. none) tcp) proto s req) e
