-- ===== src/Tests/Starting.antt =====
-- Examples for the start of the program and its life after it.
use sdns.Base.{
  ℕ, ◌≡◌, refl, Bool, true, false, ◌||◌, List, [], ◌∷◌, Bytes, bytes_eq, codes, Option, none, some,
  arith,
}
use sdns.Base.Map
use sdns.Dns.{Msg}
use sdns.Doh.Http as Web
use sdns.Doh.Http.{WebLib}
use sdns.Doh.Qtype
use sdns.Handler.Env.{State}
use sdns.Server
use sdns.Server.{Addr, Ranger, Config, Started, Listener, udp_method, tcp_method}
use sdns.Server.Events.{Event, request, web_request, api_request, set_route, clearing, new_caches}
use sdns.Server.Events.Lifetime
use sdns.Tests.Data
use sdns.Tests.Queries
use sdns.Tests.Queries.{idle}
use sdns.Resolver.Priming.{RootServers}
use sdns.Tests.Priming.{quiet}
use sdns.Tests.Servers.{servers_at}

-- networks of a single address, which a text names
abbrev pub member : List Bytes → Bytes → Bool
member [] ip = false
member (n ∷ ns) ip = bytes_eq n ip || member ns ip

pub contains-insert :
    (n : Bytes) (s t : List Bytes) (ip : Bytes)
    → some (n ∷ s) ≡ some t
    → member t ip ≡ (bytes_eq n ip || member s ip)
contains-insert n s t ip e = ground arith

abbrev pub ranger : Ranger Bytes Bytes (List Bytes)
ranger = record {
  parse_cidr = some;
  covers = bytes_eq;
  new_ranger = [];
  insert = λ n s. some (n ∷ s);
  contains = member;
  contains-new = λ ip. refl;
  contains-insert = contains-insert;
}

abbrev pub config : Config
config = record {
  access_list = codes "192.0.2.1" ∷ [];
  bind = codes ":53";
  bind_tls = codes ":853";
  bind_doh = [];
  tls_certificate = codes "server.crt";
  tls_private_key = codes "server.key";
  api = [];
}

abbrev pub interfaces : Option (List (Option (List Addr)))
interfaces =
    some (some (Addr.ip_net (some (codes "127.0.0.1")) ∷ Addr.other ∷ Addr.ip_net none ∷ []) ∷ [])

-- every certificate loads
abbrev pub loads : Bytes → Bytes → Bool
loads cert key = true

abbrev pub roots : RootServers
roots = record { v4 = quiet.rootservers; v6 = servers_at [] }

abbrev pub caches : State ℕ
caches = new_caches ℕ 1024 10 600 idle.block_list

abbrev pub started : Started (List Bytes) (State ℕ × RootServers)
started = record {
  handler = (caches, roots);
  local_ips = codes "127.0.0.1" ∷ [];
  access_list = codes "192.0.2.1" ∷ [];
  listeners =
      record { net = Server.udp_net; addr = codes ":53" }
      ∷ record { net = Server.tcp_net; addr = codes ":53" }
      ∷ record { net = Server.tls_net; addr = codes ":853" }
      ∷ [];
  api = none;
}

abbrev asked : Msg
asked = record Data.request { checking_disabled = true }

-- a library that unpacks nothing
abbrev web : WebLib
web = record {
  decode_url = some;
  unpack = λ buf. none;
  pack = λ msg. none;
  marshal = λ view. some (codes "json");
  text_of = λ r. [];
  set_do = λ opt. opt;
  set_subnet = λ subnet opt. none;
}

-- the name as JSON, with the CD flag
abbrev json : Web.Request
json = record {
  method = Web.get;
  dns = [];
  name = codes "a.com";
  type_name = codes "A";
  cd = codes "true";
  do_flag = [];
  subnet = [];
  accepts_html = false;
  content_type = [];
  body = none;
}

-- two clients of the access list, an edit of the block list, and a client that is not on the list
abbrev events : List (Event Bytes)
events =
    request 5 0 udp_method (codes "192.0.2.1") asked
    ∷ web_request 6 0 (codes "192.0.2.1") json
    ∷ api_request set_route (codes "b.com")
    ∷ clearing 7 []
    ∷ request 9 0 tcp_method (codes "192.0.2.7") asked
    ∷ web_request 9 0 (codes "192.0.2.7") json
    ∷ []

abbrev close : Bytes → Bytes
close name = name
