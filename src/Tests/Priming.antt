-- ===== src/Tests/Priming.antt =====
-- Examples for the update of the root servers at the start, in a network without replies.
use sdns.Base.{ℕ, ◌≡◌, refl, [], ◌∷◌, some, lower_byte, to_lower, arith}
use sdns.Base.Map
use sdns.Cache.Clock.{truncate, elapsed}
use sdns.Cache.Key.{continuation, hash, key_bytes, fnv1, range_bytes}
use sdns.Cache.LookupQueue
use sdns.Cache.NsCache
use sdns.Cache.BlockCache.{BlockCache}
use sdns.Cache.Servers.{
  AuthServer, AuthServers, average, insert, sort_by_rtt, try_sort, new_auth_server,
}
use sdns.Records
use sdns.Records.{upper_name_from}
use sdns.Resolver.Addresses
use sdns.Resolver.Answers
use sdns.Resolver.Chain
use sdns.Resolver.Chain.{question_of}
use sdns.Resolver.Delegations
use sdns.Resolver.Env.{Env, try}
use sdns.Resolver.Exchange
use sdns.Resolver.Exchange.{Dialed, reply, socket_error, Client, no_route}
use sdns.Resolver.Glue
use sdns.Resolver.Network.{Reliable}
use sdns.Resolver.Priming
use sdns.Resolver.Priming.{RootServers}
use sdns.Server.Events.{new_caches, new_resolver}
use sdns.Resolver.Resolve
use sdns.Resolver.Resolve.{resolve}
use sdns.Resolver.Roots as RootKeys
use sdns.Resolver.Zones
use sdns.Tests.Servers.{env, reliable}

-- a network that nothing can be reached in
abbrev pub quiet : Env ℕ
quiet = record env {
  net = record {
    dial = λ now proto req host. socket_error;
    later = λ now. now;
    rtt = λ now proto req host. 0;
  };
}

pub quiet_reliable : Reliable quiet
quiet_reliable = record {
  roots = reliable.roots;
  keys = reliable.keys;
  regular = λ now proto req host e. absurd (ground arith);
  asks = reliable.asks;
  asks_cd = reliable.asks_cd;
  set_rcode_truncated = reliable.set_rcode_truncated;
  set_rcode_answer = reliable.set_rcode_answer;
}

resolution : Unit {0}
unfolding RootKeys.ds_set RootKeys.ds_rr_from_root_keys NsCache.new_ns_cache Map.lookup
    LookupQueue.new_lookup_queue Map.insert lower_byte to_lower truncate continuation range_bytes
    key_bytes fnv1 hash average insert sort_by_rtt try_sort new_auth_server NsCache.get NsCache.set
    elapsed upper_name_from Records.upper_name Zones.search_cache Exchange.exchange Exchange.ask
    Exchange.lookup Records.clear_opt Records.is_local_ip Records.extract_rr_set Addresses.lookup
    Glue.ns_hosts Glue.fill Glue.known_servers Glue.auth_servers Answers.trim_answer
    Chain.find_signer Answers.rejected Answers.answered Answers.undelegated
    Delegations.look_up_hosts Delegations.descend Delegations.store_zone Delegations.zone_ds
    Delegations.delegate Delegations.gather Delegations.delegated try Resolve.referred
    Resolve.received Resolve.asked Resolve.started Resolve.resolve_first Resolve.resolve
    Exchange.attempt Priming.priming_reply Priming.check_priming new_caches new_resolver
resolution = tt

-- The update fails, and the caches and the root servers are as they were.
pub primed :
    (root : AuthServer) (fallback v6 : AuthServers) (rate_limit expire : ℕ)
    (block_list : BlockCache)
    → let v4 : AuthServers = record { called = 0; list = root ∷ [] } in
      new_resolver
        (record quiet { rootservers = v4; fallbackservers = fallback })
        33
        v6
        1024
        rate_limit
        expire
        block_list
      ≡ some (new_caches ℕ 1024 rate_limit expire block_list, record { v4 = v4; v6 = v6 })
unfolding resolution
primed root fallback v6 rate_limit expire block_list = refl
