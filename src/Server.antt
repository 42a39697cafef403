-- ===== src/Server.antt =====
-- The start of the servers: `start` (main.go), `Run` (server.go and api.go) and the local addresses
-- (utils.go). The result of `NewHandler` is an argument, which Server/Events computes. The networks, the trie of cidranger and the loading of certificates are interfaces.
-- `none` is the exit of `log.Crit`, or a panic.
pub mod Access
pub mod Events
use sdns.Base.{
  ℕ, Bool, not, List, [], ◌∷◌, ◌++◌, Bytes, Option, none, some, if◌then◌else◌, ◌>>=◌, ◌≡◌, false,
  ◌||◌,
}
use sdns.Handler.Env.{Proto, udp, tcp}
use sdns.Records.{is_empty}

-- an address of an interface: a `*net.IPNet`, with the text of its IPv4 address if it has one
pub data Addr : Type 0 where
  ip_net : Option Bytes → Addr
  other : Addr

-- the loop over the addresses of an interface
unfoldable pub v4_addresses : List Addr → List Bytes
v4_addresses [] = []
v4_addresses (ip_net (some v4) ∷ aa) = v4 ∷ v4_addresses aa
v4_addresses (_ ∷ aa) = v4_addresses aa

-- `findLocalIPAddresses` after the list of interfaces; `none` is an error
unfoldable pub interface_addresses : List (Option (List Addr)) → Option (List Bytes)
unfolding v4_addresses
interface_addresses [] = some []
interface_addresses (t ∷ tt) =
    t >>= λ aa. interface_addresses tt >>= λ rest. some (v4_addresses aa ++ rest)

abbrev pub find_local_ip_addresses : Option (List (Option (List Addr))) → Option (List Bytes)
find_local_ip_addresses tt = tt >>= interface_addresses

-- The networks of an access list: `ParseCIDR`, and a set of networks with `Insert` and `Contains`.
-- What is relied on: an inserted network adds the addresses that it covers.
pub record Ranger (Network Ip Set : Type 0) : Type 0 where
  pub parse_cidr : Bytes → Option Network
  pub covers : Network → Ip → Bool
  pub new_ranger : Set
  pub insert : Network → Set → Option Set
  pub contains : Set → Ip → Bool
  pub contains-new : (ip : Ip) → contains new_ranger ip ≡ false
  pub contains-insert :
      (n : Network) (s t : Set) (ip : Ip)
      → insert n s ≡ some t
      → contains t ip ≡ (covers n ip || contains s ip)

-- the networks of the listeners
pub data Net : Type 0 where
  udp_net tcp_net tls_net https_net : Net

pub record Listener : Type 0 where
  pub net : Net
  pub addr : Bytes

-- `UDP` and `TCP` of the handler (handler.go)
pub data Method : Type 0 where
  udp_method tcp_method : Method

abbrev pub proto_of : Method → Proto
proto_of udp_method = udp
proto_of tcp_method = tcp

-- What serves a listener: the TLS listener has the handler of TCP, and HTTPS goes to `ServeHTTP`.
abbrev pub method_of : Net → Option Method
method_of udp_net = some udp_method
method_of tcp_net = some tcp_method
method_of tls_net = some tcp_method
method_of https_net = none

-- `Server`, with the names of the certificate and of its key
pub record Server : Type 0 where
  pub host : Bytes
  pub tls_host : Bytes
  pub doh_host : Bytes
  pub tls_certificate : Bytes
  pub tls_private_key : Bytes

-- the listeners that `Server.Run` starts
unfoldable pub listen : (Bytes → Bytes → Bool) → Server → Option (List Listener)
listen loads s =
    let plain =
      record { net = udp_net; addr = s.host } ∷ record { net = tcp_net; addr = s.host } ∷ [] in
    let doh =
      if not (is_empty s.doh_host)
      then record { net = https_net; addr = s.doh_host } ∷ []
      else [] in
    if not (is_empty s.tls_host)
    then (if loads s.tls_certificate s.tls_private_key
        then some (plain ++ record { net = tls_net; addr = s.tls_host } ∷ doh)
        else none)
    else some (plain ++ doh)

-- `Server.Run`: first `NewHandler`, which may panic, and then the listeners
unfoldable pub run :
    {H : Type 0} → (Bytes → Bytes → Bool) → Option H → Server → Option (H × List Listener)
unfolding listen
run loads new_handler s =
    new_handler >>= λ handler. listen loads s >>= λ listeners. some (handler, listeners)

-- the fields of `Config` that `start` reads
pub record Config : Type 0 where
  pub access_list : List Bytes
  pub bind : Bytes
  pub bind_tls : Bytes
  pub bind_doh : Bytes
  pub tls_certificate : Bytes
  pub tls_private_key : Bytes
  pub api : Bytes

-- the server that `start` makes
abbrev pub server_of : Config → Server
server_of config = record {
  host = config.bind;
  tls_host = config.bind_tls;
  doh_host = config.bind_doh;
  tls_certificate = config.tls_certificate;
  tls_private_key = config.tls_private_key;
}

-- what runs after `start`
pub record Started (Set H : Type 0) : Type 0 where
  pub handler : H
  pub local_ips : List Bytes
  pub access_list : Set
  pub listeners : List Listener
  pub api : Option Bytes

module _ {Network Ip Set : Type 0} (ranger : Ranger Network Ip Set) where
  -- the loop over the access list
  unfoldable pub build_access : List Bytes → Set → Option Set
  build_access [] access = some access
  build_access (cidr ∷ cidrs) access = ranger.parse_cidr cidr >>= λ n.
      ranger.insert n access >>= λ access'. build_access cidrs access'

  -- `API.Run`: the address of the API, unless it is left blank
  abbrev pub run_api : Bytes → Option Bytes
  run_api host = if is_empty host then none else some host

  -- `start`
  unfoldable pub start :
      {H : Type 0}
      → (Bytes → Bytes → Bool)
      → Option H
      → Option (List (Option (List Addr)))
      → Config
      → Option (Started Set H)
  unfolding build_access run
  start loads new_handler interfaces config = do
    local_ips ← find_local_ip_addresses interfaces
    access ← build_access config.access_list ranger.new_ranger
    (handler, listeners) ← run loads new_handler (server_of config)
    some (record {
      handler = handler;
      local_ips = local_ips;
      access_list = access;
      listeners = listeners;
      api = run_api config.api;
    })
