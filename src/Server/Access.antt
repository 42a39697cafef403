-- ===== src/Server/Access.antt =====
-- What `start` leaves: the access list and the listeners (main.go, server.go).
use sdns.Base.{
  ◌≡◌, ap, sym, ◌∙◌, Bool, true, false, ◌||◌, List, [], ◌∷◌, Bytes, Option, none, some, keep_map,
  if◌then◌else◌, arith, Option-cases, inl, inr,
}
use sdns.Records.{is_empty}
use sdns.Server.{
  Addr, find_local_ip_addresses, Ranger, Net, udp_net, tcp_net, tls_net, https_net, Listener,
  listen, run, server_of, Config, Started, build_access, start,
}

-- the addresses on which a network is served
abbrev pub at_net : Net → Listener → Option Bytes
at_net udp_net l = elim l.net [ udp_net ↦ some l.addr | _ ↦ none ]
at_net tcp_net l = elim l.net [ tcp_net ↦ some l.addr | _ ↦ none ]
at_net tls_net l = elim l.net [ tls_net ↦ some l.addr | _ ↦ none ]
at_net https_net l = elim l.net [ https_net ↦ some l.addr | _ ↦ none ]

abbrev pub unless_blank : Bytes → List Bytes
unless_blank host = if is_empty host then [] else host ∷ []

-- the address that a configuration binds a network to
abbrev pub bound : Config → Net → List Bytes
bound config udp_net = config.bind ∷ []
bound config tcp_net = config.bind ∷ []
bound config tls_net = unless_blank config.bind_tls
bound config https_net = unless_blank config.bind_doh

-- the listeners of a configuration whose certificate loads
abbrev listening : Config → List Listener
listening config =
    record { net = udp_net; addr = config.bind }
    ∷ record { net = tcp_net; addr = config.bind }
    ∷ (if is_empty config.bind_tls
        then (if is_empty config.bind_doh
            then []
            else record { net = https_net; addr = config.bind_doh } ∷ [])
        else record { net = tls_net; addr = config.bind_tls }
          ∷ (if is_empty config.bind_doh
              then []
              else record { net = https_net; addr = config.bind_doh } ∷ []))

listen-eq-listening :
    (loads : Bytes → Bytes → Bool) (config : Config) (listeners : List Listener)
    → listen loads (server_of config) ≡ some listeners
    → (listening config ≡ listeners)
      × (is_empty config.bind_tls ≡ false
          → loads config.tls_certificate config.tls_private_key ≡ true)
unfolding listen
listen-eq-listening loads config listeners e = (ground arith, λ f. ground arith)

listening-bound :
    (config : Config) (n : Net) → keep_map (at_net n) (listening config) ≡ bound config n
listening-bound config udp_net = ground arith
listening-bound config tcp_net = ground arith
listening-bound config tls_net = ground arith
listening-bound config https_net = ground arith

module _ {Network Ip Set : Type 0} (ranger : Ranger Network Ip Set) where
  -- some network of the list covers the address
  abbrev pub allows : List Bytes → Ip → Bool
  allows [] ip = false
  allows (cidr ∷ cidrs) ip =
      (elim (ranger.parse_cidr cidr) [ none ↦ false | some n ↦ ranger.covers n ip ])
      || allows cidrs ip

  build_access_lem :
      (cidrs : List Bytes) (s t : Set) (ip : Ip)
      → build_access ranger cidrs s ≡ some t
      → ranger.contains t ip ≡ (allows cidrs ip || ranger.contains s ip)
  unfolding build_access
  build_access_lem [] s t ip e = ground arith
  build_access_lem (cidr ∷ cidrs) s t ip e = elim (Option-cases (ranger.parse_cidr cidr)) [
    | inl f ↦ absurd (ground arith)
    | inr (n, f) ↦ elim (Option-cases (ranger.insert n s)) [
      | inl g ↦ absurd (ground arith)
      | inr (u, g) ↦
          let rest = build_access_lem cidrs u t ip (ground arith) in
          ground (arith, ranger.contains-insert n s u ip g)
    ]
  ]

  pub record IsStarted {H : Type 0} (config : Config) (loads : Bytes → Bytes → Bool)
      (new_handler : Option H) (r : Started Set H) : Type 0 where
    pub handled : new_handler ≡ some r.handler
    pub access : (ip : Ip) → ranger.contains r.access_list ip ≡ allows config.access_list ip
    pub served : (n : Net) → keep_map (at_net n) r.listeners ≡ bound config n
    pub certified :
        is_empty config.bind_tls ≡ false
        → loads config.tls_certificate config.tls_private_key ≡ true

  -- If the program starts, then `NewHandler` has returned its handler, its access list holds exactly the addresses that some network of the
  -- configuration covers, it listens on the configured address over UDP and TCP, and over TLS and HTTPS
  -- exactly where they have an address; with an address for TLS, the certificate has loaded.
  pub start-IsStarted :
      {H : Type 0} (loads : Bytes → Bytes → Bool) (new_handler : Option H)
      (interfaces : Option (List (Option (List Addr)))) (config : Config) (r : Started Set H)
      → start ranger loads new_handler interfaces config ≡ some r
      → IsStarted config loads new_handler r
  unfolding start run
  start-IsStarted loads new_handler interfaces config r e =
      elim (Option-cases (find_local_ip_addresses interfaces)) [
        | inl f ↦ absurd (ground arith)
        | inr (ips, f) ↦
            elim (Option-cases (build_access ranger config.access_list ranger.new_ranger)) [
              | inl g ↦ absurd (ground arith)
              | inr (access, g) ↦ elim (Option-cases new_handler) [
                | inl k ↦ absurd (ground arith)
                | inr (handler, k) ↦ elim (Option-cases (listen loads (server_of config))) [
                  | inl h ↦ absurd (ground arith)
                  | inr (listeners, h) ↦
                      let same_handler : handler ≡ r.handler = ground arith in
                      let same : access ≡ r.access_list = ground arith in
                      let same_listeners : listeners ≡ r.listeners = ground arith in
                      let (k', c) = listen-eq-listening loads config listeners h in
                      record {
                        handled = k ∙ ap some same_handler;
                        access = λ ip.
                            let b =
                              build_access_lem config.access_list ranger.new_ranger access ip g in
                            ground (arith, ranger.contains-new ip);
                        served = λ n.
                            ap (keep_map (at_net n)) (sym same_listeners ∙ sym k')
                            ∙ listening-bound config n;
                        certified = c;
                      }
                ]
              ]
            ]
      ]
