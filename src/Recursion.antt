-- ===== src/Recursion.antt =====
-- The handler on top of the resolver: the calls of `h.r.Resolve` in handler.go, with the definition of
-- `Resolve` from resolver.go in place of a parameter.
pub mod Totality
pub mod Released
use sdns.Base.{ℕ, false, Option, none, some}
use sdns.Dns.{Msg}
use sdns.Handler.Env as HandlerEnv
use sdns.Handler.Env.{State, Proto}
use sdns.Resolver.Chain.{from_root}
use sdns.Resolver.Env.{Env, Run, done, failed}
use sdns.Resolver.Resolve.{resolve}

-- `mesg, err = h.r.Resolve(…)`: with an error, no message is read
unfoldable pub found_by : {R : Type 0} → Run R Msg → Option (State R × Option Msg)
found_by none = none
found_by (some (s, done m)) = some (s, some m)
found_by (some (s, failed e)) = some (s, none)

module _ {R : Type 0} (env : Env R) where
  -- `h.r.Resolve(proto, req, rootservers, true, depth, 0, false, nil)`, on fuel
  unfoldable pub ask_resolver : ℕ → Proto → Msg → ℕ → State R → Option (State R × Option Msg)
  unfolding found_by
  ask_resolver fuel proto req depth s =
      found_by (resolve env fuel (from_root env proto req depth false) s)

  -- the handler's environment with this resolver
  abbrev pub recursive : ℕ → HandlerEnv.Env R → HandlerEnv.Env R
  recursive fuel henv = record henv { resolve = ask_resolver fuel }
