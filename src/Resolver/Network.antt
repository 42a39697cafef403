-- ===== src/Resolver/Network.antt =====
-- What is assumed of the network and the library (resolver.go).
pub mod Lookups
use sdns.Base.{
  ℕ, zero, suc, ◌≡◌, ◌≢◌, refl, Bool, true, false, not, ◌&&◌, ◌||◌, ◌==◌, List, [], ◌∷◌, ◌++◌,
  Bytes, to_lower, lower_byte, codes, Option, none, some, map, ◌⊎◌, ◌∙◌, if◌then◌else◌, ◌>>=◌,
  is_some, arith, Bool-cases, Option-cases, inl, inr,
}
use sdns.Cache.Servers.{AuthServer, AuthServers, average, insert, sort_by_rtt, try_sort}
use sdns.Dns.{Question, Rr, Rdata, Msg, empty_msg}
use sdns.Handler.Env.{State, Proto, udp, tcp, https, rcode_success}
use sdns.Records.{is_empty, clear_opt}
use sdns.Resolver.Addresses.{lookup}
use sdns.Resolver.Chain.{question_of}
use sdns.Resolver.Env.{Env}
use sdns.Resolver.Exchange.{
  Dialed, reply, no_route, socket_error, Client, exchange, is_udp, rcode_format_error,
}
use sdns.Resolver.Exchange
use sdns.Resolver.Exchange.Turns.{ask_asks}
use sdns.Resolver.Glue.{as_ns}
use sdns.Resolver.Roots.{ds_rr_from_root_keys}

abbrev pub is_tcp : Proto → Bool
is_tcp tcp = true
is_tcp _ = false

-- the name ends with a dot
unfoldable pub is_closed : Bytes → Bool
is_closed [] = false
is_closed (c ∷ []) = c == b'.'
is_closed (c ∷ d ∷ s) = is_closed (d ∷ s)

-- the hosts of the NS records of a section are closed names
abbrev pub closed_host : Option Bytes → Bool
closed_host none = true
closed_host (some host) = is_closed host

unfoldable pub closed_hosts : List Rr → Bool
closed_hosts [] = true
closed_hosts (r ∷ rs) = closed_host (as_ns r) && closed_hosts rs

-- the target of a CNAME record is a closed name
abbrev pub closed_target : Rdata → Bool
closed_target (Rdata.cname target) = is_closed target
closed_target _ = true

unfoldable pub closed_targets : List Rr → Bool
closed_targets [] = true
closed_targets (r ∷ rs) = closed_target r.rdata && closed_targets rs

pub closed_targets-append :
    (rs : List Rr) (r : Rr)
    → closed_targets rs ≡ true
    → closed_target r.rdata ≡ true
    → closed_targets (rs ++ r ∷ []) ≡ true
unfolding closed_targets
closed_targets-append [] r h k = ground arith
closed_targets-append (s ∷ rs) r h k = ground (arith, closed_targets-append rs r)

-- A message that came over the transport: its hosts and targets are closed names, and it is
-- whole over TCP.
abbrev pub is_regular : Proto → Msg → Bool
is_regular proto m =
    closed_hosts m.ns && closed_targets m.answer && not (is_tcp proto && m.truncated)

-- What is assumed: there are root servers and root keys; the messages of the network are regular; a new
-- query and an empty reply are what they are documented to be.
pub record Reliable {R : Type 0} (env : Env R) : Type 0 where
  pub roots : is_empty env.rootservers.list ≡ false
  pub keys : (ds : List Rr) × (ds_rr_from_root_keys env.to_ds env.rootkeys ≡ some ds)
  pub regular :
      (now : ℕ) (proto : Proto) (req : Msg) (host : Bytes) {m : Msg}
      → env.net.dial now proto req host ≡ reply m
      → is_regular proto m ≡ true
  pub asks :
      (name : Bytes) (qtype : ℕ) (cd : Bool)
      → (env.new_query name qtype cd).question ≡ question_of name qtype ∷ []
  pub asks_cd :
      (name : Bytes) (qtype : ℕ) (cd : Bool) → (env.new_query name qtype cd).checking_disabled ≡ cd
  pub set_rcode_truncated :
      (m req : Msg) (rcode : ℕ) → (env.set_rcode m req rcode).truncated ≡ m.truncated
  pub set_rcode_answer : (m req : Msg) (rcode : ℕ) → (env.set_rcode m req rcode).answer ≡ m.answer
