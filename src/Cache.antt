-- ===== src/Cache.antt =====
-- The package cache of cache/: the clock, the sharded caches, the nameserver cache, the block list,
-- the queue of running lookups, cache keys and the lists of servers.
pub mod Clock
pub mod Shard
pub mod Sharded
pub mod Outcome
pub mod ErrorCache
pub mod QueryCache
pub mod Servers
pub mod Key
pub mod BlockCache
pub mod LookupQueue
pub mod NsCache
