-- ===== src/Resolver/Delegations/Totality.antt =====
-- The branch on a delegation ends (resolver.go, `Resolve`).
use sdns.Base.{
  ℕ, ◌<◌, ◌≤◌, ◌≡◌, refl, ◌∙◌, ap, sym, Bool, true, false, not, ◌==◌, List, [], ◌∷◌, ◌++◌, Bytes,
  bytes_eq, some, if◌then◌else◌, length, ltb, arith, Bool-cases, inl, inr,
}
use sdns.Cache.Key.{hash}
use sdns.Cache.NsCache
use sdns.Cache.Outcome.{Result-cases}
use sdns.Cache.Servers.{AuthServers}
use sdns.Dns.{Question, Rr, Msg, type_ds, rootzone}
use sdns.Handler.Env.{State}
use sdns.Records.{is_empty, is_local_ip}
use sdns.Resolver.Addresses.Totality.{goes_on, is_ready, is_whole, anything, lookup_ns_addr-Ends}
use sdns.Resolver.Env.{Env, Call, Resolver, Attempt, done, failed, try}
use sdns.Resolver.Glue.{Glue, direct, filled, fill, known_servers}
use sdns.Resolver.Glue.Closed.{keys_closed, fill_closed, filled_closed, auth_servers_nonempty}
use sdns.Resolver.Hosts.{equal_servers}
use sdns.Resolver.Network.{Reliable, closed_targets-append}
use sdns.Resolver.Delegations.{
  look_up_hosts, descend, store_zone, zone_ds, delegate, gather, delegated,
}
use sdns.Resolver.Soundness.{IsSound, Ends, ends, bind-Ends, if-Ends, ncache-IsSound}
use sdns.Resolver.Zones.Served.{set-IsServed, get-IsServed, get_served}

module _ {R : Type 0} (env : Env R) (reliable : Reliable env) (res : Resolver R) (rounds : ℕ)
    (enough : 2 ≤ rounds) (call : Call) (q : Question) (not_ds : (q.qtype == type_ds) ≡ false)
    (res_ends : (c : Call) (s : State R)
      → is_ready c ≡ true
      → c.depth < call.depth
      → IsSound s
      → Ends (is_whole c.proto) (res c s)) where
  abbrev whole : Attempt Msg → Bool
  whole = is_whole call.proto

  descend-Ends :
      (req : Msg) (servers : AuthServers) (level : ℕ) (ds : List Rr) (s : State R)
      → goes_on req ≡ true
      → is_empty servers.list ≡ false
      → IsSound s
      → Ends whole (descend env res rounds call q req servers level ds s)
  unfolding descend
  descend-Ends req servers level ds s g n h =
      if-Ends whole (call.depth == 0) (λ e. ends h refl)
        (λ e. res_ends _ s (ground arith) (ground arith) h)

  store_zone-IsSound :
      (key : ℕ) (ds : List Rr) (ttl : ℕ) (hosts : List Bytes) (s : State R)
      → is_empty hosts ≡ false
      → IsSound s
      → IsSound (store_zone env res rounds call q key ds ttl hosts s)
  unfolding store_zone
  store_zone-IsSound key ds ttl hosts s n h =
      ncache-IsSound _ (set-IsServed s.now key ds ttl _ (auth_servers_nonempty hosts n) h.ncache) h

  zone_ds_unchecked :
      (nsrr : Rr) (req resp : Msg) (ds : List Rr) (s : State R)
      → req.checking_disabled ≡ true
      → zone_ds env res rounds call q nsrr req resp ds s ≡ some (s, done ds)
  unfolding zone_ds
  zone_ds_unchecked nsrr req resp ds s cd = ground arith

  delegate-Ends :
      (nsrr : Rr) (key level : ℕ) (req resp : Msg) (ds : List Rr) (hosts : List Bytes) (s : State R)
      → goes_on req ≡ true
      → IsSound s
      → Ends whole (delegate env res rounds call q nsrr key level req resp ds hosts s)
  unfolding delegate try
  delegate-Ends nsrr key level req resp ds hosts s g h =
      if-Ends whole (is_empty hosts) (λ e. ends h refl)
        (λ e. rw (zone_ds_unchecked nsrr req resp ds s (ground arith)) (
          descend-Ends req _ level ds _ g (auth_servers_nonempty hosts e)
            (store_zone-IsSound key ds nsrr.ttl hosts s e h)))

  -- one round of the loop over the hosts, given the rest of it
  look_up_round :
      (nsmap : List (Bytes × Bytes)) (hosts : List Bytes) (o : Attempt Bytes) (t : State R)
      → ((hosts' : List Bytes)
          → Ends anything (look_up_hosts env res rounds call q true nsmap hosts' t))
      → Ends anything (elim o [
        | failed e ↦ look_up_hosts env res rounds call q true nsmap hosts t
        | done found ↦
            look_up_hosts env res rounds call q true nsmap
              (if is_local_ip env.local_ips found
                then hosts
                else hosts ++ env.names.join_host_port found ∷ [])
              t
      ])
  look_up_round nsmap hosts (failed e) t k = k hosts
  look_up_round nsmap hosts (done found) t k = k _

  look_up_hosts-Ends :
      (nsmap : List (Bytes × Bytes)) (hosts : List Bytes) (s : State R)
      → keys_closed nsmap ≡ true
      → IsSound s
      → Ends anything (look_up_hosts env res rounds call q true nsmap hosts s)
  unfolding look_up_hosts keys_closed
  look_up_hosts-Ends [] hosts s k h = ends h refl
  look_up_hosts-Ends ((host, addr) ∷ nsmap) hosts s k h =
      if-Ends anything (not (is_empty addr))
        (λ e. look_up_hosts-Ends nsmap hosts s (ground arith) h)
        (λ e.
          bind-Ends anything anything _
            (lookup_ns_addr-Ends env reliable res call.depth res_ends rounds call.proto host
              call.depth s (ground arith) (ground arith) (omega arith) h)
            (λ t o h' w.
              look_up_round nsmap hosts o t
                (λ hosts'. look_up_hosts-Ends nsmap hosts' t (ground arith) h')))

  look_up_unchecked :
      (cd : Bool) (nsmap : List (Bytes × Bytes)) (hosts : List Bytes) (s : State R)
      → cd ≡ true
      → keys_closed nsmap ≡ true
      → IsSound s
      → Ends anything (look_up_hosts env res rounds call q cd nsmap hosts s)
  look_up_unchecked cd nsmap hosts s e k h = rw e (look_up_hosts-Ends nsmap hosts s k h)

  gather-Ends :
      (nsrr : Rr) (key level : ℕ) (hosts : List (Bytes × Bytes)) (req resp : Msg) (ds : List Rr)
      (s : State R)
      → goes_on req ≡ true
      → keys_closed hosts ≡ true
      → whole (done resp) ≡ true
      → IsSound s
      → Ends whole (gather env res rounds call q nsrr key level hosts req resp ds s)
  unfolding gather
  gather-Ends nsrr key level hosts req resp ds s g k w h =
      by_glue (fill call.nsl q.name hosts resp.extra) refl
    where
      known_IsSound :
          (known : List Bytes)
          → IsSound (
              if is_empty known
              then s
              else store_zone env res rounds call q key [] nsrr.ttl known s)
      known_IsSound known = elim (Bool-cases (is_empty known)) [
        | inl e ↦ rw e h
        | inr e ↦ rw e (store_zone-IsSound key [] nsrr.ttl known s e h)
      ]

      by_glue :
          (glue : Glue)
          → fill call.nsl q.name hosts resp.extra ≡ glue
          → Ends whole (gather env res rounds call q nsrr key level hosts req resp ds s)
      by_glue (direct r) e =
          let c = ap filled_closed (sym e) ∙ fill_closed call.nsl q.name hosts resp.extra k in
          rw (e, gather)
            (ends h (ground (arith, closed_targets-append resp.answer r (ground arith) c)))
      by_glue (filled nsmap) e =
          let closed : keys_closed nsmap ≡ true =
            ap filled_closed (sym e) ∙ fill_closed call.nsl q.name hosts resp.extra k in
          let known = known_servers env.local_ips env.names.join_host_port nsmap in
          let cd : req.checking_disabled ≡ true = ground arith in
          rw (e, gather)
            (if-Ends whole (ltb (length known) (length nsmap))
              (λ f.
                bind-Ends anything whole _
                  (look_up_unchecked req.checking_disabled nsmap known _ cd closed
                    (known_IsSound known))
                  (λ t nservers h' w'. delegate-Ends nsrr key level req resp ds nservers t g h'))
              (λ f. delegate-Ends nsrr key level req resp ds known s g h))

  pub delegated-Ends :
      (nsrr : Rr) (hosts : List (Bytes × Bytes)) (req resp : Msg) (servers : AuthServers)
      (ds : List Rr) (s : State R)
      → goes_on req ≡ true
      → keys_closed hosts ≡ true
      → whole (done resp) ≡ true
      → IsSound s
      → Ends whole (delegated env res rounds call q nsrr hosts req resp servers ds s)
  unfolding delegated
  delegated-Ends nsrr hosts req resp servers ds s g k w h =
      let level = length (env.names.split_domain_name nsrr.name) in
      let zone : Question = record {
        name = nsrr.name;
        qtype = nsrr.rrtype;
        qclass = nsrr.rrclass;
      } in
      let key = hash zone req.checking_disabled in
      let h' = ncache-IsSound _ (get-IsServed s.now key h.ncache) h in
      if-Ends whole (ltb level call.level) (λ e. ends h refl)
        (λ e.
          if-Ends whole (bytes_eq nsrr.name rootzone) (λ f. ends h refl)
            (λ f. elim (Result-cases (NsCache.get s.now key s.ncache).1) [
              | inl (ns, found) ↦ rw found (
                  if-Ends whole (equal_servers ns.servers servers) (λ i. ends h' refl)
                    (λ i.
                      descend-Ends req ns.servers level ns.dsrr _ g
                        (get_served s.now key ns h.ncache found) h'))
              | inr (x, missing) ↦
                  rw missing (gather-Ends nsrr key level hosts req resp ds _ g k w h')
            ]))
