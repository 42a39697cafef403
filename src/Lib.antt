-- ===== src/Lib.antt =====
-- A model of sdns, a recursive DNS resolver with caching, DNSSEC validation and a block list.
--
-- The program: a request comes to the handler (handler.go) over UDP, TCP or HTTPS. The handler
-- prepares its EDNS0 record, refuses what it does not serve, waits for a running lookup of the same
-- question (cache/lookup_queue.go), and answers from the cache of answers (cache/query_cache.go), the
-- cache of failures (cache/error_cache.go) or the block list (cache/block_cache.go). Otherwise it asks
-- the resolver, follows CNAME records, filters the reply (utils.go) and stores it. The resolver keeps
-- the servers of each zone (cache/authserver.go, cache/ns_cache.go) and checks signatures (utils.go)
-- and proofs of absence (nsec3.go).
--
-- The files:
--   Base       helpers of the other modules: tests, lists, byte texts, finite maps
--   Dns        the messages and records of the DNS library, as far as the program names their fields
--   Cache      cache/: Shard and Sharded (shard.go and the arrays of shards), QueryCache, ErrorCache,
--              NsCache, BlockCache, LookupQueue, Servers (authserver.go), Key (hash.go), Clock;
--              Shard/Overlap has the critical sections of a shard, interleaved
--   Records    utils.go: upperName, searchAddr, isLocalIP, extractRRSet, clearOPT, clearDNSSEC; Random
--              (randInt, shuffleRR, shuffleStr)
--   Dnssec     utils.go: Keys (verifyDS, checkExponent), Signatures (verifyRRSIG); nsec3.go: Nsec3
--   Handler    handler.go: Prepare (the OPT record, handleFailed), Query (query, handle), Cname
--              (additionalAnswer), over the environment of Env; Invariant is the interface of what a
--              query needs to keep an invariant of the caches
--   Resolver   resolver.go: Exchange (exchange, lookup), Zones (searchCache), Hosts (equalServers), Roots
--              (dsRRFromRootKeys, verifyRootKeys), Chain (lookupDS, verifyDNSSEC), Addresses
--              (lookupNSAddr), Glue, Answers, Delegations and Resolve (the parts of Resolve), Priming
--              (checkPriming), over the environment of Env; Network has what is assumed of the replies,
--              Soundness and Queue have the invariants
--   Recursion  the handler with `Resolve` of resolver.go for its resolver: Totality has the end of each
--              query, Released the queue after it
--   Server     the start: main.go (start), server.go and api.go (Run), utils.go (findLocalIPAddresses);
--              Events has NewResolver with its checkPriming, and the life of the
--              program after it
--   Doh        doh.go: Http (ServeHTTP, handleWireFormat, handleJSON); doh/: Qtype (ParseQTYPE), Reply
--              (NewMsg)
--   Api        api.go: the handlers of the block list
--   Updater    updater.go: parseHostFile, Downloads (fetchBlocklist, downloadBlocklist), Lists
--              (updateBlocklists, readBlocklists)
--   Setup      main.go: configSetup
--   Program    main.go: main; config.go: LoadConfig, generateConfig
--   Tests      examples
-- A definition bears the name of its function in lower case with underscores, and a child module holds
-- the theorems about its parent.
--
-- State: a method that changes its receiver returns the new state, and a handler's state is the record
-- of all caches. A panic is `none`. A Go map is an association list with one entry for each key; where
-- Go iterates over a map in random order, the definition takes a number or the order of the keys. The
-- calls on a shared queue are a list in the order of its lock.
--
-- Numbers: times are natural numbers of nanoseconds, handed to each call that reads the clock. Ages
-- are `uint32` and wrap at 2 ^ 32 seconds, which the theorems on caches exclude by a hypothesis. A
-- key is the 64-bit FNV-1 hash. Names and digests are lists of bytes; the bytes of a key follow
-- Go's range over the characters of a name in UTF-8. Elsewhere a character of a name is a byte.
--
-- Bounds: `searchCache` runs on fuel, and a number above the length of the name is enough for a
-- name that ends with a dot. `exchange` runs on fuel: with any of it there are at most three
-- attempts where `clearOPT` removes the OPT record, over UDP, over TCP and without EDNS0, so that
-- three are enough. `Resolve` runs on fuel, which also bounds the repetitions of `lookupDS` and
-- `lookupNSAddr` over TCP; without DNSSEC and with whole replies over TCP, any number above the
-- depth and two is enough. `query` calls itself only over "tcp", which does not call again, so the
-- definition is written out twice; `additionalAnswer` follows at most five lookups, as the source
-- does; all other loops are over lists.
--
-- What is a parameter: the DNS library's functions on messages and OPT records, its signature
-- checks, `ToDS`, `KeyTag`, `Split`, `Match` and `Cover`, and its functions on names; the rate
-- limiter; the decoding of base64; the wait for a channel; the client's exchange with a server, its
-- round-trip time, and the time that a lookup takes; `url.Parse` and what a download gives; the
-- decoding of TOML, the text of the default configuration and what making its file gives; packing,
-- JSON and base64 for HTTPS; `dns.Fqdn`; the parsing of networks and the trie that holds them;
-- the loading of a certificate; and `dns.NewRR` on the text of the HINFO note, which gives no
-- record for some names. The handler takes the resolver's `Resolve` as a parameter, which Recursion
-- fills. With DNSSEC, replies can make `Resolve` panic, so that the theorems on Recursion and on
-- Events are about requests with the CD flag, whose HINFO note parses.
--
-- What is not modelled: what a later lookup reads of the times that `exchange` has added to a
-- server object, and the order that `TrySort` gives to a list, outside the lookup that does so,
-- since lists are shared in several places; the ticker of the resolver; what `String` of a server,
-- in the debug reply, writes to it; the directory of the updater and the removal of its temporary
-- files (updater.go); the sockets and their timeouts, which are input and output; logging; and
-- interleavings, but for those of a shard: the events of Server come one after the other. The loops
-- of `Resolve` over the hosts of a delegation take them in the order of their list, where Go's
-- order is random.
pub mod Api
pub mod Base
pub mod Cache
pub mod Dns
pub mod Dnssec
pub mod Doh
pub mod Handler
pub mod Program
pub mod Records
pub mod Recursion
pub mod Resolver
pub mod Server
pub mod Setup
pub mod Tests
pub mod Updater
