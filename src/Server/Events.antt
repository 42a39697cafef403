-- ===== src/Server/Events.antt =====
-- The life of the program after its start: the requests of clients (handler.go, `handle`), those
-- over HTTPS (doh.go), the requests to the API (api.go) and the hourly clearing (cache/ns_cache.go), one
-- after the other, from the caches of `NewResolver` (resolver.go) after its `checkPriming`.
pub mod Lifetime
use sdns.Api.{exists_block, get_block, remove_block, set_block}
use sdns.Base.{ℕ, List, [], ◌∷◌, Bytes, Option, none, some, ◌>>=◌}
use sdns.Cache.BlockCache.{BlockCache}
use sdns.Cache.ErrorCache.{new_error_cache}
use sdns.Cache.LookupQueue.{new_lookup_queue}
use sdns.Cache.NsCache
use sdns.Cache.NsCache.{new_ns_cache}
use sdns.Cache.QueryCache.{new_query_cache}
use sdns.Cache.Servers.{AuthServers}
use sdns.Dns.{Msg}
use sdns.Doh.Http as Web
use sdns.Doh.Http.{WebLib, Written, serve_http}
use sdns.Handler.Env.{Env, State, https}
use sdns.Handler.Query.{handle, query}
use sdns.Resolver.Env as Resolver
use sdns.Resolver.Priming.{RootServers, check_priming}
use sdns.Resolver.Resolve.{resolve}
use sdns.Server.{Ranger, Method, proto_of}

-- the caches of `NewResolver`
unfoldable pub new_caches : (R : Type 0) → ℕ → ℕ → ℕ → BlockCache → State R
new_caches R cache_size rate_limit expire block_list = record {
  now = 0;
  pick = 0;
  qcache = new_query_cache R cache_size rate_limit;
  ecache = new_error_cache cache_size expire;
  ncache = new_ns_cache;
  lqueue = new_lookup_queue;
  block_list = block_list;
}

-- `NewResolver`, with its call of `checkPriming` on fuel for `Resolve`: the caches and the root servers
unfoldable pub new_resolver :
    {R : Type 0}
    → Resolver.Env R
    → ℕ
    → AuthServers
    → ℕ
    → ℕ
    → ℕ
    → BlockCache
    → Option (State R × RootServers)
unfolding new_caches
new_resolver env fuel v6 cache_size rate_limit expire block_list =
    check_priming env (resolve env fuel) (record { v4 = env.rootservers; v6 = v6 })
      (new_caches _ cache_size rate_limit expire block_list)
    >>= λ (s, roots, updated). some (s, roots)

-- the environments once the root servers are set
abbrev pub rooted : {R : Type 0} → RootServers → Resolver.Env R → Resolver.Env R
rooted roots env = record env { rootservers = roots.v4 }

abbrev pub handler_rooted : {R : Type 0} → RootServers → Env R → Env R
handler_rooted roots henv = record henv { config = record henv.config { rootservers = roots.v4 } }

-- the routes of the API
pub data Route : Type 0 where
  exists_route get_route remove_route set_route : Route

-- `block.GET`: the block list after a request for a key
abbrev pub route_block : (Bytes → Bytes) → Route → Bytes → BlockCache → BlockCache
route_block fqdn exists_route key c = (exists_block key c).0
route_block fqdn get_route key c = (get_block fqdn key c).0
route_block fqdn remove_route key c = (remove_block fqdn key c).0
route_block fqdn set_route key c = (set_block fqdn key c).0

-- what a client gets
pub data Response : Type 0 where
  message : Msg → Response
  page : Written → Response

abbrev pub response_of : Option Msg → Option Response
response_of none = none
response_of (some m) = some (message m)

-- A request comes at a time, with a number for the random iterations in it; the clearing takes the
-- keys in the order of its iteration.
pub data Event (Ip : Type 0) : Type 0 where
  request : ℕ → ℕ → Method → Ip → Msg → Event Ip
  web_request : ℕ → ℕ → Ip → Web.Request → Event Ip
  api_request : Route → Bytes → Event Ip
  clearing : ℕ → List ℕ → Event Ip

module _ {R Network Ip Set : Type 0} (env : Env R) (ranger : Ranger Network Ip Set) (access : Set)
    (fqdn : Bytes → Bytes) (web : WebLib) where
  -- what an event does to the state, with what a client gets
  unfoldable pub react : Event Ip → State R → Option (State R × Option Response)
  react (request now pick method ip req) s =
      handle env (ranger.contains access ip) (proto_of method) (record s { now = now; pick = pick })
        req
      >>= λ (t, reply). some (t, response_of reply)
  react (web_request now pick ip r) s =
      serve_http web (query env https) (ranger.contains access ip)
        (record s { now = now; pick = pick }) r
      >>= λ (t, w). some (t, some (page w))
  react (api_request route key) s =
      some (record s { block_list = route_block fqdn route key s.block_list }, none)
  react (clearing now order) s =
      some (record s { ncache = NsCache.clear_from now order s.ncache }, none)

  -- the events in their order, with the reply to each
  unfoldable pub live : List (Event Ip) → State R → Option (State R × List (Option Response))
  live [] s = some (s, [])
  live (e ∷ es) s =
      react e s >>= λ (t, reply). live es t >>= λ (u, replies). some (u, reply ∷ replies)
