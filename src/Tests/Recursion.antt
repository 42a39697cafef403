-- ===== src/Tests/Recursion.antt =====
-- An example for a query with its resolver: a request that goes from the root server to the server of
-- com., and comes back with the address.
use sdns.Base.{ℕ, ◌≡◌, refl, true, false, [], none, some, arith}
use sdns.Dns.{Msg}
use sdns.Handler.Env as HandlerEnv
use sdns.Handler.Env.{State, tcp, udp}
use sdns.Handler.Prepare.{new_opt}
use sdns.Handler.Query.{query, query_at, resolve_query}
use sdns.Handler.Query.Failures
use sdns.Recursion.{recursive}
use sdns.Recursion.Released
use sdns.Recursion.Totality
use sdns.Recursion.Totality.{Joined, goes_unchecked}
use sdns.Resolver.Network.{is_closed}
use sdns.Resolver.Soundness.{IsSound}
use sdns.Tests.Data.{a_question, request}
use sdns.Tests.Queries
use sdns.Tests.Queries.{idle}
use sdns.Tests.Resolver.{idle-IsSound}
use sdns.Tests.Servers.{env, reliable}

abbrev asked : Msg
asked = record request { checking_disabled = true }

abbrev henv : HandlerEnv.Env ℕ
henv = recursive env 33 Queries.env

pub joined : Joined Queries.env
joined = record {
  waits = λ key s h. h;
  question_kept = λ opt m. refl;
  checking_kept = λ opt m. refl;
  asks = λ name qtype cd. refl;
  asks_cd = λ name qtype cd. refl;
}

goes : goes_unchecked asked ≡ true
unfolding is_closed
goes = refl

recursion-Returns_example :
    (t : State ℕ) × (msg : Msg) × (query henv udp idle asked ≡ some (t, msg)) × IsSound t
recursion-Returns_example =
    Totality.recursion-Returns env reliable 33 Queries.env joined (omega arith) udp idle asked goes
      refl idle-IsSound

resolve_query-IsReleased_example : Failures.IsReleased 5 (
    resolve_query henv
      (query_at henv (λ t m. none) tcp)
      udp
      a_question
      5
      asked
      (new_opt henv)
      false
      idle)
resolve_query-IsReleased_example =
    Released.resolve_query-IsReleased env reliable 33 Queries.env joined (omega arith) udp
      a_question [] 5 asked (new_opt henv) false idle refl goes refl idle-IsSound
