-- ===== src/Resolver/Env.antt =====
-- What the resolver of resolver.go works with: the state of the caches, which it shares with the
-- handler, its configuration, and, as an interface, the network and the functions of the DNS library.
use sdns.Base.{ℕ, Bool, List, Bytes, Option, none, some}
use sdns.Cache.Servers.{AuthServers}
use sdns.Dns.{Rr, Msg, MsgLib, Dnskey}
use sdns.Dnssec.Errors.{SecError}
use sdns.Dnssec.Keys.{ToDs}
use sdns.Dnssec.Nsec3.{NsecLib}
use sdns.Dnssec.Signatures.{SigLib}
use sdns.Handler.Env.{Proto, State}
use sdns.Resolver.Exchange.{Dialed}

-- The errors of `Resolve` and of the functions that it calls. An error of `Resolve` that comes with a
-- message is the error alone: no caller reads the message then.
pub data ResolveError : Type 0 where
  max_depth parent_detection root_servers_detection loop_detection : ResolveError
  not_exchanged unreachable no_answer cached_failure looped : ResolveError
  unsigned no_dnskey ds_empty : ResolveError
  insecure : SecError → ResolveError

pub data Attempt {ℓ} (A : Type ℓ) : Type ℓ where
  done : A → Attempt A
  failed : ResolveError → Attempt A

-- A computation on the state; `none` is a panic, or fuel that has run out.
abbrev pub Run : Type 0 → Type 0 → Type 0
Run R A = Option (State R × Attempt A)

-- go on with the result, unless it is an error
unfoldable pub try : {R A B : Type 0} → Run R A → (State R → A → Run R B) → Run R B
try none f = none
try (some (s, failed e)) f = some (s, failed e)
try (some (s, done a)) f = f s a

-- the arguments of `Resolve`; `extra` is whether it has an extra argument
pub record Call : Type 0 where
  pub proto : Proto
  pub req : Msg
  pub servers : AuthServers
  pub root : Bool
  pub depth : ℕ
  pub level : ℕ
  pub nsl : Bool
  pub parentdsrr : List Rr
  pub extra : Bool

abbrev pub Resolver : Type 0 → Type 0
Resolver R = Call → State R → Run R Msg

-- `dial` is the client's exchange at a time, `rtt` the time that it took, and `later` the
-- time when a lookup has ended.
pub record Net : Type 0 where
  pub dial : ℕ → Proto → Msg → Bytes → Dialed
  pub later : ℕ → ℕ
  pub rtt : ℕ → Proto → Msg → Bytes → ℕ

-- the library's functions on names
pub record NameLib : Type 0 where
  pub compare_domain_name : Bytes → Bytes → ℕ
  pub split_domain_name : Bytes → List Bytes
  pub fqdn : Bytes → Bytes
  pub join_host_port : Bytes → Bytes

pub record Env (R : Type 0) : Type 0 where
  pub maxdepth : ℕ
  pub rootservers : AuthServers
  pub fallbackservers : AuthServers
  pub rootkeys : List Rr
  pub local_ips : List Bytes
  pub net : Net
  pub names : NameLib
  pub lib : MsgLib
  pub nsec3 : NsecLib
  pub signatures : SigLib
  pub to_ds : ToDs
  pub key_tag : Dnskey → ℕ
  pub edns0 : Msg → Option Rr
  pub set_rcode : Msg → Msg → ℕ → Msg
  pub new_query : Bytes → ℕ → Bool → Msg  -- `SetQuestion`, `SetEdns0`, and the CD flag
  pub new_limiter : ℕ → ℕ → R
