-- ===== src/Tests/Resolver.antt =====
-- Examples for resolver.go.
use mathlib.Core.List.{Perm}
use sdns.Base.{
  ℕ, ◌≡◌, ◌↔◌, refl, true, false, [], ◌∷◌, List, Bytes, codes, some, none, lower_byte, to_lower,
  arith,
}
use sdns.Base.Map
use sdns.Cache.Clock.{truncate, elapsed}
use sdns.Cache.Key.{continuation, hash, key_bytes, fnv1, range_bytes}
use sdns.Cache.ErrorCache.Reads as ErrorReads
use sdns.Cache.ErrorCache
use sdns.Cache.LookupQueue
use sdns.Cache.QueryCache
use sdns.Cache.Shard
use sdns.Cache.Sharded
use sdns.Cache.LookupQueue.Safety
use sdns.Cache.NsCache
use sdns.Cache.QueryCache.Answers as QueryAnswers
use sdns.Cache.QueryCache.Reads as QueryReads
use sdns.Resolver.Network.{closed_targets}
use sdns.Cache.Servers.{average, insert, sort_by_rtt, try_sort, new_auth_server}
use sdns.Cache.Servers.Sorting.{hosts}
use sdns.Dns.{type_nsec, type_a, Rr, Rdata, Msg, type_ns}
use sdns.Handler.Env.{Proto, State, udp}
use sdns.Records
use sdns.Records.{upper_name_from}
use sdns.Resolver.Addresses
use sdns.Resolver.Addresses.Totality.{is_whole}
use sdns.Resolver.Answers
use sdns.Resolver.Chain
use sdns.Resolver.Chain.Retries
use sdns.Resolver.Chain.{question_of}
use sdns.Resolver.Delegations
use sdns.Resolver.Env.{Env, Resolver, try, Run, Call, done, failed}
use sdns.Resolver.Exchange
use sdns.Resolver.Exchange.{Dialed, reply, Client, no_route}
use sdns.Resolver.Glue
use sdns.Resolver.Hosts
use sdns.Resolver.Hosts.Equality
use sdns.Resolver.Network
use sdns.Resolver.Network.{Reliable}
use sdns.Resolver.Priming
use sdns.Resolver.Priming.Roots
use sdns.Resolver.Queue.{IsKept, Keeps}
use sdns.Resolver.Queue.Resolution
use sdns.Resolver.Resolve
use sdns.Resolver.Resolve.{resolve}
use sdns.Resolver.Resolve.Totality
use sdns.Resolver.Roots as RootKeys
use sdns.Resolver.Soundness.{IsSound, Ends}
use sdns.Resolver.Zones
use sdns.Tests.Data.{a_question, a_record, request, found}
use sdns.Tests.Queries.{idle}
use sdns.Tests.Servers.{root_host, com_host, servers_at, referral, env, call, reliable}

program : Unit {0}
unfolding RootKeys.ds_set RootKeys.ds_rr_from_root_keys Network.is_closed Network.closed_hosts
    NsCache.new_ns_cache Map.lookup LookupQueue.new_lookup_queue
program = tt

run : Unit {0}
unfolding program Map.insert lower_byte to_lower truncate continuation range_bytes key_bytes fnv1
    hash average insert sort_by_rtt try_sort new_auth_server NsCache.get NsCache.set elapsed
    upper_name_from Records.upper_name Zones.search_cache Exchange.exchange Exchange.ask
    Exchange.lookup Records.clear_opt Records.is_local_ip Records.extract_rr_set Addresses.lookup
    Glue.ns_hosts Glue.fill Glue.known_servers Glue.auth_servers Answers.trim_answer
    Chain.find_signer Answers.rejected Answers.answered Answers.undelegated
    Delegations.look_up_hosts Delegations.descend Delegations.store_zone Delegations.zone_ds
    Delegations.delegate Delegations.gather Delegations.delegated try Resolve.referred
    Resolve.received Resolve.asked Resolve.started Resolve.resolve_first Resolve.resolve
run = tt

pub idle-IsSound : IsSound idle
unfolding program
idle-IsSound = record {
  qcache = QueryReads.new_query_cache-IsValid ℕ 1024 10;
  ecache = ErrorReads.new_error_cache-IsValid 1024 600;
  ncache = record { distinct = tt; some_server = λ key ns e. absurd (ground arith) };
  lqueue = Safety.new_lookup_queue-IsValid;
  targets = QueryAnswers.new_query_cache-Holds closed_targets ℕ 1024 10;
}

ready : Addresses.Totality.is_ready call ≡ true
unfolding program
ready = refl

resolve-Ends_example : Ends (is_whole udp) (resolve env 8 call idle)
resolve-Ends_example =
    Totality.resolve-Ends env reliable 8 call idle ready (omega arith) idle-IsSound

equal_servers_iff_example :
    (Hosts.equal_servers
        (servers_at (root_host ∷ com_host ∷ []))
        (servers_at (com_host ∷ root_host ∷ []))
      ≡ true)
    ↔ Perm
        (hosts (servers_at (root_host ∷ com_host ∷ [])).list)
        (hosts (servers_at (com_host ∷ root_host ∷ [])).list)
equal_servers_iff_example =
    Equality.equal_servers_iff (servers_at (root_host ∷ com_host ∷ []))
      (servers_at (com_host ∷ root_host ∷ []))

-- no route over UDP, and then a reply over TCP
abbrev dial : Proto → Msg → Bytes → Dialed
dial udp req host = no_route
dial _ req host = reply found

abbrev client : Client
client = record { proto = udp; req = request; measured = [] }

abbrev rtt : Proto → Msg → Bytes → ℕ
rtt proto req host = 5

-- the root server delegates the question, and the server of com. answers it
abbrev answer_in : Run ℕ Msg → List Rr
answer_in none = []
answer_in (some (s, failed e)) = []
answer_in (some (s, done m)) = m.answer

answered : answer_in (resolve env 8 call idle) ≡ a_record ∷ []
unfolding run
answered = refl

-- the same question with DNSSEC
abbrev checked_call : Call
checked_call = record call { req = request }

resolve-Keeps_example : Keeps (IsKept idle.lqueue) (resolve env 8 checked_call idle)
unfolding program
resolve-Keeps_example = Resolution.resolve-Keeps env 8 checked_call idle tt

abbrev roots : Priming.RootServers
roots = record { v4 = servers_at (root_host ∷ []); v6 = servers_at [] }

check_priming-Updates_example :
    Roots.Updates env
      (resolve env 8)
      roots
      idle
      (Priming.check_priming env (resolve env 8) roots idle)
check_priming-Updates_example = Roots.check_priming-Updates env (resolve env 8) roots idle refl

-- every reply is truncated
abbrev truncating : Resolver ℕ
truncating c s = some (s, done (record found { truncated = true; answer = [] }))

-- a network of which every reply is truncated, also over TCP
abbrev cut : Msg
cut = record found {
  truncated = true;
  answer = [];
  recursion_available = true;
  authoritative = false;
}

abbrev cut_env : Env ℕ
cut_env = record env {
  net = record {
    dial = λ now proto req host. Exchange.reply cut;
    later = λ now. now;
    rtt = λ now proto req host. 5;
  };
}

ds_cut :
    (proto : Proto) (s : State ℕ)
    → resolve cut_env 3 (Retries.ds_call cut_env (resolve cut_env 3) (codes "a.com.") proto 5) s
      ≡ some (s, done cut)
unfolding run
ds_cut proto s = refl

no_ds : Retries.Misses (Retries.ds_key cut_env (resolve cut_env 3) (codes "a.com.")) idle
unfolding program QueryCache.new_query_cache ErrorCache.new_error_cache Sharded.new_shards
    Shard.new_shard Sharded.get Shard.get
no_ds = record { answers = refl; failures = refl }

lookup_ds_unending_example :
    Chain.lookup_ds cut_env (resolve cut_env 3) 6 udp (codes "a.com.") 5 idle ≡ none
lookup_ds_unending_example =
    Retries.lookup_ds_unending cut_env (resolve cut_env 3) (codes "a.com.") 5
      (λ proto s missing. record {
        later = s;
        reply = cut;
        returned = ds_cut proto s;
        cut = refl;
        accepted = refl;
        missing = missing;
      })
      6 udp idle (omega arith) no_ds

-- a delegation with an NSEC record that has no type NS: a panic
abbrev nsec_reply : Msg
nsec_reply = record referral {
  ns =
      record a_record { name = codes "com."; rrtype = type_nsec; rdata = Rdata.nsec (type_a ∷ []) }
      ∷ [];
}

abbrev delegation : Rr
delegation = record a_record {
  name = codes "com.";
  rrtype = type_ns;
  rdata = Rdata.ns (codes "b.net.");
}

delegated_ds_panics :
    Delegations.delegated_ds env truncating 2 checked_call a_question delegation nsec_reply idle
    ≡ none
unfolding run Delegations.delegated_ds Delegations.verify_nsec Records.mem_types
delegated_ds_panics = refl
