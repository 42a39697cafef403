-- ===== src/Tests/Caches.antt =====
-- Examples for cache/.
use sdns.Base.{
  ℕ, ◌≡◌, ◌↔◌, refl, true, false, [], ◌∷◌, codes, some, arith, nat_eq, bytes_Eq, lower_byte,
  to_lower,
}
use sdns.Base.Map
use sdns.Cache.BlockCache
use sdns.Cache.BlockCache.Reads as BlockReads
use sdns.Cache.Clock.{truncate, elapsed}
use sdns.Cache.ErrorCache
use sdns.Cache.Key.{continuation, hash, key_bytes, fnv1, range_bytes}
use sdns.Cache.Key.Injectivity
use sdns.Cache.NsCache
use sdns.Cache.NsCache.Reads as NsReads
use sdns.Cache.Outcome.{ok, err, expired}
use sdns.Cache.QueryCache
use sdns.Cache.QueryCache.Reads as QueryReads
use sdns.Cache.Servers
use sdns.Cache.Shard
use sdns.Cache.Shard.Bounds
use sdns.Cache.Shard.Reads as ShardReads
use sdns.Cache.Sharded
use sdns.Dns
use sdns.Dns.{msg_lib}
use sdns.Tests.Data.{a_question, request, found, answers, servers, at}

program : Unit {0}
unfolding Dns.msg_lib Map.lookup Map.insert Map.remove lower_byte to_lower truncate elapsed
    continuation range_bytes key_bytes fnv1 hash Shard.new_shard Shard.get Shard.remove
    Shard.first_key Shard.evict Shard.set Sharded.index Sharded.size_each Sharded.new_shards
    Sharded.get Sharded.set Sharded.remove Sharded.write ErrorCache.new_error_cache
    ErrorCache.remove ErrorCache.get ErrorCache.set QueryCache.age_records QueryCache.refresh
    QueryCache.new_item QueryCache.to_msg QueryCache.remove QueryCache.new_query_cache
    QueryCache.get QueryCache.set NsCache.new_ns_cache NsCache.remove NsCache.get NsCache.set
    NsCache.count NsCache.clear_from BlockCache.new_block_cache BlockCache.get BlockCache.remove
    BlockCache.set BlockCache.exists Servers.average Servers.insert Servers.sort_by_rtt
    Servers.try_sort
program = tt

-- an answer that was stored at second 10
abbrev stored : QueryCache.QueryCache ℕ
stored = QueryCache.set msg_lib (λ rate per. rate) 0 (at 10) 5 found answers

get-set_answer_example :
    (QueryCache.get msg_lib (at 40) 5 request stored).1
    ≡ ok (QueryReads.served msg_lib 30 found request, 10)
unfolding program
get-set_answer_example =
    QueryReads.get-set_answer msg_lib (λ rate per. rate) 0 (at 10) (at 40) 5 found request answers
      (QueryReads.new_query_cache-IsValid ℕ 1024 10) (omega arith) (omega arith)

-- a later lookup finds the answer expired
answer_expires : (QueryCache.get msg_lib (at 311) 5 request stored).1 ≡ err expired
unfolding program
answer_expires = refl

abbrev entry : QueryCache.Query ℕ
entry = record { item = QueryCache.new_item msg_lib found; rate_limit = 10; update_time = 10 }

abbrev zones : NsCache.NsCache
zones = NsCache.set (at 10) 3 [] 60 servers NsCache.new_ns_cache

abbrev zone : NsCache.Ns
zone = record { servers = servers; network = codes "v4"; dsrr = []; ttl = 60; update_time = 10 }

get-set_servers_example :
    (NsCache.get (at 30) 3 zones).1 ≡ ok (record zone { ttl = 40; update_time = 30 })
unfolding program
get-set_servers_example =
    NsReads.get-set_servers (at 10) (at 30) 3 [] 60 servers NsCache.new_ns_cache (omega arith)
      (omega arith)

abbrev failures : ErrorCache.ErrorCache
failures = ErrorCache.set 0 (at 10) 9 (ErrorCache.new_error_cache 1024 600)

abbrev one : Shard.Shard ℕ
one = record { items = (1, 10) ∷ []; size = 1 }

abbrev two : Shard.Shard ℕ
two = record { items = (1, 10) ∷ (2, 20) ∷ []; size = 2 }

two-IsValid : Bounds.IsValid two
unfolding program
two-IsValid = record {
  positive = omega arith;
  bounded = omega arith;
  distinct = (refl, (refl, tt));
}

get-set_entry_example : Shard.get 2 (Shard.set 0 3 30 two) ≡ some 20
unfolding program
get-set_entry_example = ShardReads.get-set_entry 0 3 2 30 two-IsValid

key_bytes-injective_example : (key_bytes a_question true ≡ key_bytes a_question false) ↔ (
    (a_question.qtype ≡ a_question.qtype)
    × (true ≡ false)
    × (to_lower a_question.name ≡ to_lower a_question.name))
key_bytes-injective_example =
    Injectivity.key_bytes-injective a_question a_question true false (omega arith) (omega arith)
      refl refl (ground arith) (ground arith)

hash_ignores_class_example : hash (record a_question { qclass = 3 }) false ≡ hash a_question false
hash_ignores_class_example = Injectivity.hash_ignores_class a_question false 3

-- "é." and "è."
accents_collide :
    hash (record a_question { name = 195 ∷ 169 ∷ codes "." }) true
    ≡ hash (record a_question { name = 195 ∷ 168 ∷ codes "." }) true
unfolding program
accents_collide = refl

abbrev blocked : BlockCache.BlockCache
blocked = BlockCache.set (codes "Ads.com.") BlockCache.new_block_cache

blocked-IsValid : BlockReads.IsValid blocked
blocked-IsValid = BlockReads.set-IsValid (codes "Ads.com.") BlockReads.new_block_cache-IsValid
