-- ===== src/Resolver/Delegations.antt =====
-- resolver.go, `Resolve`: the branch on a reply that delegates the zone to other servers. `res` is the
-- recursive call; `none` is a panic, or fuel that has run out.
pub mod Totality
pub mod Trust
use sdns.Base.{
  ℕ, zero, suc, ◌-◌, Bool, true, false, not, ◌&&◌, ◌||◌, ◌==◌, List, [], ◌∷◌, ◌++◌, Bytes, bytes_eq,
  bytes_Eq, to_lower, Option, none, some, if◌then◌else◌, ◌>>=◌, is_some, length, ltb, keep_map,
}
use sdns.Cache.Key.{hash}
use sdns.Cache.NsCache
use sdns.Cache.Outcome.{ok, err}
use sdns.Cache.Servers.{AuthServers}
use sdns.Dns.{
  Question, Rr, Rdata, Nsec3, Msg, empty_msg, as_nsec3, type_ds, type_ns, type_nsec, type_nsec3,
  rootzone,
}
use sdns.Dnssec.Nsec3.{verify_nodata, verify_delegation}
use sdns.Handler.Env.{State, Proto, rcode_success, rcode_name_error}
use sdns.Records.{is_empty, upper_name, extract_rr_set, mem_types, is_local_ip}
use sdns.Resolver.Addresses.{lookup, lookup_ns_addr}
use sdns.Resolver.Chain.{find_signer, signer_or_empty, signer_ds, verify_dnssec}
use sdns.Resolver.Env.{
  Env, Run, Call, Resolver, Attempt, done, failed, try, max_depth, parent_detection,
  root_servers_detection, loop_detection, not_exchanged, unreachable, unsigned, insecure,
}
use sdns.Resolver.Glue.{Glue, direct, filled, ns_hosts, fill, known_servers, auth_servers}
use sdns.Resolver.Hosts.{equal_servers}
use sdns.Resolver.Roots.{ds_rr_from_root_keys}
use sdns.Resolver.Zones.{search_cache}
use sdns.Resolver.Answers.{nsec3_set, check_signed}

-- `verifyNSEC` of utils.go: some type bit map has the type
unfoldable pub verify_nsec : ℕ → List Rr → Bool
verify_nsec qtype [] = false
verify_nsec qtype (r ∷ rs) =
    (elim r.rdata [ Rdata.nsec types ↦ mem_types qtype types | _ ↦ false ]) || verify_nsec qtype rs

module _ {R : Type 0} (env : Env R) (res : Resolver R) (rounds : ℕ) (call : Call)
    (q : Question) where
  -- The DS records of a delegation that was verified: those of the reply, or none where NSEC3 or NSEC
  -- records show that there are none. A failure of the latter panics, since it is written to the log
  -- with an error that is nil.
  unfoldable pub delegated_ds : Rr → Msg → State R → Run R (List Rr)
  delegated_ds nsrr resp s =
      let nsec_set = extract_rr_set resp.ns nsrr.name (type_nsec ∷ []) in
      if not (is_empty (extract_rr_set resp.ns [] (type_nsec3 ∷ [])))
      then elim (verify_delegation env.nsec3 nsrr.name (nsec3_set resp.ns)) [
        | some e ↦ some (s, failed (insecure e))
        | none ↦ some (s, done [])
      ]
      else if not (is_empty nsec_set)
      then (if not (verify_nsec nsrr.rrtype nsec_set) then none else some (s, done []))
      else some (s, done (extract_rr_set resp.ns nsrr.name (type_ds ∷ [])))

  -- the checks of a delegation, with the DS records for its zone
  unfoldable pub check_delegation : Rr → Msg → List Rr → State R → Run R (List Rr)
  check_delegation nsrr resp parentdsrr s =
      let signer = find_signer (λ r. true) resp.ns in
      try
        (signer_ds env res rounds (not (q.qtype == type_ds)) call.proto nsrr.name
          (signer_or_empty signer) parentdsrr s)
        (λ t ds. try (check_signed env res rounds call q signer resp ds t) (λ u verified.
          elim verified [ none ↦ some (u, done ds) | some _ ↦ delegated_ds nsrr resp u ]))

  -- the loop over the hosts whose address is not known
  unfoldable pub look_up_hosts :
      Bool → List (Bytes × Bytes) → List Bytes → State R → Option (State R × List Bytes)
  look_up_hosts cd [] nservers s = some (s, nservers)
  look_up_hosts cd ((host, addr) ∷ nsmap) nservers s =
      if not (is_empty addr)
      then look_up_hosts cd nsmap nservers s
      else (lookup_ns_addr env res rounds call.proto host call.depth cd s >>= λ (t, outcome).
          elim outcome [
            | failed e ↦ look_up_hosts cd nsmap nservers t
            | done found ↦
                look_up_hosts cd nsmap
                  (if is_local_ip env.local_ips found
                    then nservers
                    else nservers ++ env.names.join_host_port found ∷ [])
                  t
          ])

  -- the recursive call for the servers of a delegated zone
  unfoldable pub descend : Msg → AuthServers → ℕ → List Rr → State R → Run R Msg
  descend req servers level parentdsrr s =
      if call.depth == 0
      then some (s, failed max_depth)
      else res
          (record {
            proto = call.proto;
            req = req;
            servers = servers;
            root = false;
            depth = call.depth - 1;
            level = level;
            nsl = call.nsl;
            parentdsrr = parentdsrr;
            extra = false;
          })
          s

  unfoldable pub store_zone : ℕ → List Rr → ℕ → List Bytes → State R → State R
  store_zone key parentdsrr ttl nservers s = record s {
    ncache = NsCache.set s.now key parentdsrr ttl (auth_servers nservers) s.ncache;
  }

  -- the DS records of a delegation, checked unless the request has the CD flag
  unfoldable pub zone_ds : Rr → Msg → Msg → List Rr → State R → Run R (List Rr)
  zone_ds nsrr req resp parentdsrr s =
      if req.checking_disabled
      then some (s, done parentdsrr)
      else check_delegation nsrr resp parentdsrr s

  -- from the test that some server is known to the end
  unfoldable pub delegate : Rr → ℕ → ℕ → Msg → Msg → List Rr → List Bytes → State R → Run R Msg
  delegate nsrr key level req resp parentdsrr nservers s =
      if is_empty nservers
      then some (s, failed unreachable)
      else try (zone_ds nsrr req resp parentdsrr s) (λ t ds.
        descend req (auth_servers nservers) level ds (store_zone key ds nsrr.ttl nservers t))

  -- the servers of a delegation that is not cached, from the loop over the additional section
  unfoldable pub gather :
      Rr → ℕ → ℕ → List (Bytes × Bytes) → Msg → Msg → List Rr → State R → Run R Msg
  gather nsrr key level hosts req resp parentdsrr s = elim (fill call.nsl q.name hosts resp.extra) [
    | direct r ↦ some (s, done (record resp { answer = resp.answer ++ r ∷ [] }))
    | filled nsmap ↦
        let known = known_servers env.local_ips env.names.join_host_port nsmap in
        let s' = if is_empty known then s else store_zone key [] nsrr.ttl known s in
        if ltb (length known) (length nsmap)
        then (look_up_hosts req.checking_disabled nsmap known s' >>= λ (t, nservers).
            delegate nsrr key level req resp parentdsrr nservers t)
        else delegate nsrr key level req resp parentdsrr known s
  ]

  -- the branch of a reply with a delegation
  unfoldable pub delegated :
      Rr → List (Bytes × Bytes) → Msg → Msg → AuthServers → List Rr → State R → Run R Msg
  delegated nsrr hosts req resp servers parentdsrr s =
      let level = length (env.names.split_domain_name nsrr.name) in
      let zone : Question = record {
        name = nsrr.name;
        qtype = nsrr.rrtype;
        qclass = nsrr.rrclass;
      } in
      let key = hash zone req.checking_disabled in
      let (ncache, found) = NsCache.get s.now key s.ncache in
      let s' = record s { ncache = ncache } in
      if ltb level call.level
      then some (s, failed parent_detection)
      else if bytes_eq nsrr.name rootzone
      then some (s, failed root_servers_detection)
      else elim found [
        | ok ns ↦
            if equal_servers ns.servers servers
            then some (s', failed loop_detection)
            else descend req ns.servers level ns.dsrr s'
        | err e ↦ gather nsrr key level hosts req resp parentdsrr s'
      ]
