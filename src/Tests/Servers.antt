-- ===== src/Tests/Servers.antt =====
-- The servers of the examples for resolver.go: a root server that delegates com., whose server knows
-- the address.
use mathlib.Core.Path.{subst}
use sdns.Base.{
  ℕ, ◌≡◌, ap, Bool, not, ◌&&◌, refl, true, false, [], ◌∷◌, List, Bytes, bytes_eq, codes, some, none,
  if◌then◌else◌, Bool-cases, inl, inr,
}
use sdns.Base.Map
use sdns.Cache.LookupQueue
use sdns.Cache.NsCache
use sdns.Cache.Servers.{AuthServer, AuthServers}
use sdns.Dns.{Rr, Rdata, Msg, empty_msg, type_ns, type_dnskey, msg_lib}
use sdns.Handler.Env.{Proto, udp}
use sdns.Resolver.Chain.{question_of}
use sdns.Resolver.Env.{Env, Call}
use sdns.Resolver.Exchange.{Dialed, reply}
use sdns.Resolver.Network
use sdns.Resolver.Network.{Reliable}
use sdns.Resolver.Roots as RootKeys
use sdns.Tests.Data.{a_record, request, found}

program : Unit {0}
unfolding RootKeys.ds_set RootKeys.ds_rr_from_root_keys Network.is_closed Network.closed_hosts
    Network.closed_targets NsCache.new_ns_cache Map.lookup LookupQueue.new_lookup_queue
program = tt

abbrev pub root_host : Bytes
root_host = codes "198.41.0.4:53"

abbrev pub com_host : Bytes
com_host = codes "192.5.6.30:53"

abbrev pub server_at : Bytes → AuthServer
server_at host = record { host = host; rtt = 0; count = 0 }

abbrev pub servers_at : List Bytes → AuthServers
servers_at [] = record { called = 0; list = [] }
servers_at (host ∷ later) = record { called = 0; list = server_at host ∷ (servers_at later).list }

-- the delegation of com., with the address of its server
abbrev pub referral : Msg
referral = record request {
  response = true;
  ns =
      record a_record {
        name = codes "com.";
        rrtype = type_ns;
        rdata = Rdata.ns (codes "a.gtld.net.");
      }
      ∷ [];
  extra = record a_record { name = codes "a.gtld.net."; rdata = Rdata.a (codes "192.5.6.30") } ∷ [];
}

abbrev pub root_key : Rr
root_key = record a_record {
  name = codes ".";
  rrtype = type_dnskey;
  rdata = Rdata.dnskey 257 8 (codes "key");
}

abbrev pub answer_of : Bytes → Msg
answer_of host = if bytes_eq host root_host then referral else found

abbrev pub env : Env ℕ
env = record {
  maxdepth = 30;
  rootservers = servers_at (root_host ∷ []);
  fallbackservers = servers_at [];
  rootkeys = root_key ∷ [];
  local_ips = [];
  net = record {
    dial = λ now proto req host. reply (answer_of host);
    later = λ now. now;
    rtt = λ now proto req host. 5;
  };
  names = record {
    compare_domain_name = λ a b. 0;
    split_domain_name = λ name. name ∷ [];
    fqdn = λ name. name;
    join_host_port = λ addr. if bytes_eq addr (codes "192.5.6.30") then com_host else addr;
  };
  lib = msg_lib;
  nsec3 = record { split = λ name. []; is_match = λ n name. false; is_cover = λ n name. false };
  signatures = record {
    verify = λ sig key set. none;
    is_valid_period = λ sig. true;
    from_base64 = λ key. none;
  };
  to_ds = λ key kind.
      some (record { owner = key.owner; key_tag = 1; digest_type = kind; digest = codes "digest" });
  key_tag = λ key. 1;
  edns0 = λ m. none;
  set_rcode = λ m req rcode. record m { id = req.id; rcode = rcode; response = true };
  new_query = λ name qtype cd. record empty_msg {
    question = question_of name qtype ∷ [];
    checking_disabled = cd;
  };
  new_limiter = λ rate per. rate;
}

-- the message of a reply
abbrev pub message : Dialed → Msg
message (reply m) = m
message _ = empty_msg

answer_regular : (proto : Proto) (host : Bytes) → Network.is_regular proto (answer_of host) ≡ true
unfolding program
answer_regular proto host = elim (Bool-cases (bytes_eq host root_host)) [
  | inl e ↦ rw e (proto_regular (Network.is_tcp proto))
  | inr e ↦ rw e (proto_regular (Network.is_tcp proto))
]
  where
    proto_regular : (b : Bool) → not (b && false) ≡ true
    proto_regular true = refl
    proto_regular false = refl

pub reliable : Reliable env
unfolding program
reliable = record {
  roots = refl;
  keys = (_, refl);
  regular = λ now proto req host e.
      subst (λ m. Network.is_regular proto m ≡ true) (ap message e) (answer_regular proto host);
  asks = λ name qtype cd. refl;
  asks_cd = λ name qtype cd. refl;
  set_rcode_truncated = λ m req rcode. refl;
  set_rcode_answer = λ m req rcode. refl;
}

abbrev pub call : Call
call = record {
  proto = udp;
  req = record request { checking_disabled = true };
  servers = env.rootservers;
  root = true;
  depth = 5;
  level = 0;
  nsl = false;
  parentdsrr = [];
  extra = false;
}
