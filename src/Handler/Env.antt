-- ===== src/Handler/Env.antt =====
-- What the handler of handler.go works on: the caches of the resolver, the configuration, and, as an
-- interface, the library's functions on messages, the rate limiter, and the resolver's `Resolve`.
use sdns.Base.{ℕ, Bool, List, Bytes, Option}
use sdns.Cache.BlockCache.{BlockCache}
use sdns.Cache.ErrorCache.{ErrorCache}
use sdns.Cache.LookupQueue.{LQueue}
use sdns.Cache.NsCache.{NsCache}
use sdns.Cache.QueryCache.{QueryCache}
use sdns.Cache.Servers.{AuthServers}
use sdns.Dns.{Rr, Msg, MsgLib}

-- the transport of a request
pub data Proto : Type 0 where
  udp tcp https : Proto

-- The state that a query changes, with the time and the start of a random iteration.
pub record State (R : Type 0) : Type 0 where
  pub now : ℕ
  pub pick : ℕ
  pub qcache : QueryCache R
  pub ecache : ErrorCache
  pub ncache : NsCache
  pub lqueue : LQueue
  pub block_list : BlockCache

-- the fields of `Config` and the variables that a query reads
pub record Config : Type 0 where
  pub debugns : Bool
  pub rate_limit : ℕ
  pub nullroute : Bytes
  pub nullroutev6 : Bytes
  pub expire : ℕ
  pub maxdepth : ℕ
  pub rootservers : AuthServers

-- The library's functions on OPT records: `IsEdns0`, a write through the pointer that it returns,
-- and the methods of `dns.OPT`.
pub record OptLib : Type 0 where
  pub edns0 : Msg → Option Rr
  pub put_edns0 : Rr → Msg → Msg
  pub set_udp_size : ℕ → Rr → Rr
  pub version : Rr → ℕ
  pub set_version : ℕ → Rr → Rr
  pub set_extended_rcode : ℕ → Rr → Rr
  pub is_do : Rr → Bool
  pub set_do : Bool → Rr → Rr

-- What the handler calls and does not implement. `resolve` gives `none` where it panics, and no
-- message where it fails; `wait` is the state in which a wait for a key ends.
pub record Env (R : Type 0) : Type 0 where
  pub config : Config
  pub lib : MsgLib
  pub opts : OptLib
  pub set_rcode : Msg → Msg → ℕ → Msg
  pub new_query : Bytes → ℕ → Bool → Msg  -- `SetEdns0`, `SetQuestion`, and the CD flag
  pub no_answer : Bytes → ℕ → Option Rr  -- `dns.NewRR` of the text for a name and a TTL
  pub server_text : ℕ → AuthServers → List Bytes  -- `String` of each server
  pub new_limiter : ℕ → ℕ → R
  pub is_limited : R → Bool
  pub wait : ℕ → State R → State R
  pub resolve : Proto → Msg → ℕ → State R → Option (State R × Option Msg)

abbrev pub rcode_success : ℕ
rcode_success = 0

abbrev pub rcode_server_failure : ℕ
rcode_server_failure = 2

abbrev pub rcode_name_error : ℕ
rcode_name_error = 3

abbrev pub rcode_not_implemented : ℕ
rcode_not_implemented = 4

abbrev pub rcode_bad_vers : ℕ
rcode_bad_vers = 16

-- `DefaultMsgSize`
abbrev pub default_msg_size : ℕ
default_msg_size = 1536
