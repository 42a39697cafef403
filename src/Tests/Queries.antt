-- ===== src/Tests/Queries.antt =====
-- Examples for handler.go, with a resolver that always finds the same address and a library that
-- knows no OPT records.
use sdns.Base.{
  ℕ, ◌≡◌, refl, true, false, [], ◌∷◌, ◌++◌, List, codes, some, none, nat_eq, arith, to_lower,
  lower_byte,
}
use sdns.Base.Map
use sdns.Cache.BlockCache
use sdns.Cache.Clock.{truncate}
use sdns.Cache.ErrorCache
use sdns.Cache.ErrorCache.Reads as ErrorReads
use sdns.Cache.Key.{continuation, hash, key_bytes, fnv1, range_bytes}
use sdns.Cache.LookupQueue
use sdns.Cache.LookupQueue.Safety
use sdns.Cache.NsCache
use sdns.Cache.Outcome.{not_found}
use sdns.Cache.QueryCache
use sdns.Cache.QueryCache.Reads as QueryReads
use sdns.Cache.Shard
use sdns.Cache.Sharded
use sdns.Dns
use sdns.Dns.{Rr, Rdata, Msg, empty_msg, type_cname, type_any, msg_lib}
use sdns.Handler.Cname
use sdns.Handler.Cname.Chains
use sdns.Handler.Env.{Env, State, Config, OptLib, udp, rcode_not_implemented, rcode_server_failure}
use sdns.Handler.Prepare.{prepare, handle_failed, new_opt}
use sdns.Handler.Prepare.Replies.{ReplyLaws, IsFailure}
use sdns.Handler.Query.{query, settle}
use sdns.Handler.Query.Refusals
use sdns.Handler.Query.Blocking
use sdns.Handler.Query.Failures
use sdns.Handler.Query.Filtering
use sdns.Handler.Query.{finish}
use sdns.Records
use sdns.Handler.Safety.{IsSafe}
use sdns.Tests.Data.{a_question, a_record, signature_record, request, found, answers, servers, at}

program : Unit {0}
unfolding Dns.msg_lib Map.lookup Map.insert lower_byte to_lower truncate continuation range_bytes
    key_bytes fnv1 hash Shard.new_shard Shard.get Sharded.index Sharded.size_each Sharded.new_shards
    Sharded.get ErrorCache.new_error_cache ErrorCache.get QueryCache.new_query_cache QueryCache.get
    BlockCache.new_block_cache BlockCache.set BlockCache.exists LookupQueue.new_lookup_queue prepare
    Cname.answer_found Cname.last_target Cname.keep_found Cname.lookup_cname Cname.follow
    Cname.additional_answer
program = tt

abbrev opt_lib : OptLib
opt_lib = record {
  edns0 = λ m. none;
  put_edns0 = λ opt m. m;
  set_udp_size = λ size opt. opt;
  version = λ opt. 0;
  set_version = λ version opt. opt;
  set_extended_rcode = λ rcode opt. opt;
  is_do = λ opt. false;
  set_do = λ on opt. opt;
}

abbrev config : Config
config = record {
  debugns = false;
  rate_limit = 0;
  nullroute = codes "0.0.0.0";
  nullroutev6 = codes "::0";
  expire = 600;
  maxdepth = 30;
  rootservers = servers;
}

abbrev pub env : Env ℕ
env = record {
  config = config;
  lib = msg_lib;
  opts = opt_lib;
  set_rcode = λ m req rcode. record m { id = req.id; rcode = rcode; response = true };
  new_query = λ name qtype cd. record request {
    question = record a_question { name = name; qtype = qtype } ∷ [];
    checking_disabled = cd;
  };
  no_answer = λ name ttl. some (record a_record { name = name; ttl = ttl });
  server_text = λ now list. [];
  new_limiter = λ rate per. rate;
  is_limited = λ limiter. false;
  wait = λ key s. s;
  resolve = λ proto req depth s. some (s, some found);
}

laws : ReplyLaws env
laws = record {
  set_rcode_rcode = λ m req rcode. refl;
  set_rcode_id = λ m req rcode. refl;
  put_rcode = λ opt m. refl;
  put_id = λ opt m. refl;
  put_recursion_desired = λ opt m. refl;
  put_recursion_available = λ opt m. refl;
}

abbrev pub idle : State ℕ
idle = record {
  now = at 10;
  pick = 0;
  qcache = answers;
  ecache = ErrorCache.new_error_cache 1024 600;
  ncache = NsCache.new_ns_cache;
  lqueue = LookupQueue.new_lookup_queue;
  block_list = BlockCache.set (codes "A.com.") BlockCache.new_block_cache;
}

pub idle-IsSafe : IsSafe idle
unfolding NsCache.new_ns_cache
idle-IsSafe = record {
  qcache = QueryReads.new_query_cache-IsValid ℕ 1024 10;
  ecache = ErrorReads.new_error_cache-IsValid 1024 600;
  ncache = tt;
  lqueue = Safety.new_lookup_queue-IsValid;
}

abbrev any_request : Msg
any_request = record request { question = record a_question { qtype = type_any } ∷ [] }

query_refuses_example :
    (msg : Msg) × (query env udp idle any_request ≡ some (idle, msg))
    × IsFailure any_request rcode_not_implemented msg
query_refuses_example =
    Refusals.query_refuses env laws udp (record a_question { qtype = type_any }) [] idle any_request
      rcode_not_implemented refl refl refl

abbrev prepared : Msg
prepared = record request { extra = new_opt env ∷ [] }

query-IsBlocked_example :
    (t : State ℕ) × (msg : Msg) × (query env udp idle request ≡ some (t, msg))
    × Blocking.IsBlocked env a_question prepared msg
    × (t.lqueue ≡ idle.lqueue)
unfolding program
query-IsBlocked_example =
    Blocking.query-IsBlocked env udp a_question [] idle request prepared (new_opt env) false
      not_found not_found refl refl refl refl refl refl refl

settle_failed_example :
    (u : State ℕ) × (settle env (λ t m. none) udp a_question 5 request (new_opt env) false idle none
      ≡ some (u, handle_failed env request rcode_server_failure false))
    × ((ErrorCache.get (at 20) 5 u.ecache).1 ≡ none)
unfolding truncate ErrorCache.new_error_cache
settle_failed_example =
    Failures.settle_failed env (λ t m. none) udp a_question 5 (at 20) request (new_opt env) false
      idle idle-IsSafe (omega arith) (omega arith) (omega arith)

abbrev alias : Msg
alias = record found {
  answer = record a_record { rrtype = type_cname; rdata = Rdata.cname (codes "b.com.") } ∷ [];
}

abbrev b_key : ℕ
b_key = hash (record a_question { name = codes "b.com." }) false

additional_answer_extends_example :
    (more : List Rr) × (record alias { answer = alias.answer ++ a_record ∷ [] }
      ≡ record alias { answer = alias.answer ++ more })
unfolding program
additional_answer_extends_example =
    Chains.additional_answer_extends env udp a_question false idle
      (record idle {
        qcache = QueryCache.set msg_lib (λ rate per. rate) 0 (at 10) b_key found idle.qcache;
      })
      alias (record alias { answer = alias.answer ++ a_record ∷ [] }) refl

finish-IsFiltered_example :
    Filtering.IsFiltered (new_opt env) [] (record found { extra = new_opt env ∷ [] })
unfolding program finish Records.clear_opt Records.clear_dnssec Records.drop_into
finish-IsFiltered_example =
    Filtering.finish-IsFiltered env udp a_question false (new_opt env) idle idle
      (record found { answer = a_record ∷ signature_record ∷ [] })
      (record found { extra = new_opt env ∷ [] }) refl
