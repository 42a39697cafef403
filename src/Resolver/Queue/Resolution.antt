-- ===== src/Resolver/Queue/Resolution.antt =====
-- The lookup queue across a resolution (resolver.go, `Resolve`).
use sdns.Base.{
  nat_eq, ℕ, zero, suc, ◌≡◌, refl, Bool, true, false, not, ◌&&◌, ◌==◌, List, [], ◌∷◌, Bytes,
  bytes_eq, none, if◌then◌else◌, length, ltb,
}
use sdns.Base.Map
use sdns.Cache.Key.{hash}
use sdns.Cache.LookupQueue.{LQueue}
use sdns.Cache.NsCache
use sdns.Cache.Servers.{AuthServers}
use sdns.Dns.{Question, Rr, Msg, type_ds, rootzone}
use sdns.Handler.Env.{State, rcode_success}
use sdns.Records.{is_empty}
use sdns.Resolver.Addresses.{lookup}
use sdns.Resolver.Delegations.{store_zone, gather, delegated}
use sdns.Resolver.Env.{Env, Call, Resolver}
use sdns.Resolver.Glue.{Glue, direct, filled, ns_hosts, fill, known_servers}
use sdns.Resolver.Hosts.{equal_servers}
use sdns.Resolver.Queue.{
  IsKept, Keeps, stops, keeps, bind-Keeps, pure-Keeps, if-Keeps, option-Keeps, result-Keeps,
}
use sdns.Resolver.Queue.Chain.{lookup_keeps}
use sdns.Resolver.Resolve.{referred, received, asked, started, resolve_first, resolve}
use sdns.Resolver.Zones.{search_cache}
use sdns.Resolver.Queue.Delegations.{
  rejected-Keeps, answered-Keeps, undelegated-Keeps, look_up_hosts-Keeps, descend-Keeps,
  delegate-Keeps,
}

module _ {R : Type 0} (env : Env R) (res : Resolver R) (rounds : ℕ) (call : Call)
    (asked_for : Question)
    (res_keeps : (q : LQueue) (c : Call) (s : State R)
      → IsKept q s.lqueue
      → Keeps (IsKept q) (res c s))
    (q : LQueue) where
  abbrev p : LQueue → Type 0
  p = IsKept q

  gather-Keeps :
      (nsrr : Rr) (key level : ℕ) (hosts : List (Bytes × Bytes)) (req resp : Msg) (ds : List Rr)
      (s : State R)
      → p s.lqueue
      → Keeps p (gather env res rounds call asked_for nsrr key level hosts req resp ds s)
  unfolding gather store_zone
  gather-Keeps nsrr key level hosts req resp ds s h =
      by_glue (fill call.nsl asked_for.name hosts resp.extra) refl
    where
      kept :
          (known : List Bytes) (b : Bool)
          → p
              (if b
                then s
                else store_zone env res rounds call asked_for key [] nsrr.ttl known s).lqueue
      kept known true = h
      kept known false = h

      by_glue :
          (glue : Glue)
          → fill call.nsl asked_for.name hosts resp.extra ≡ glue
          → Keeps p (gather env res rounds call asked_for nsrr key level hosts req resp ds s)
      by_glue (direct r) e = rw (e, gather) (keeps h)
      by_glue (filled nsmap) e =
          let known = known_servers env.local_ips env.names.join_host_port nsmap in
          rw (e, gather)
            (if-Keeps p (ltb (length known) (length nsmap))
              (bind-Keeps p _
                (look_up_hosts-Keeps env res rounds call asked_for res_keeps q req.checking_disabled
                  nsmap known _ (kept known (is_empty known)))
                (λ t nservers k.
                  delegate-Keeps env res rounds call asked_for res_keeps q nsrr key level req resp
                    ds nservers t k))
              (delegate-Keeps env res rounds call asked_for res_keeps q nsrr key level req resp ds
                known s h))

  delegated-Keeps :
      (nsrr : Rr) (hosts : List (Bytes × Bytes)) (req resp : Msg) (servers : AuthServers)
      (ds : List Rr) (s : State R)
      → p s.lqueue
      → Keeps p (delegated env res rounds call asked_for nsrr hosts req resp servers ds s)
  unfolding delegated
  delegated-Keeps nsrr hosts req resp servers ds s h =
      let level = length (env.names.split_domain_name nsrr.name) in
      let zone : Question = record {
        name = nsrr.name;
        qtype = nsrr.rrtype;
        qclass = nsrr.rrclass;
      } in
      let key = hash zone req.checking_disabled in
      if-Keeps p (ltb level call.level) (keeps h) (
        if-Keeps p (bytes_eq nsrr.name rootzone) (keeps h) (
          result-Keeps p (NsCache.get s.now key s.ncache).1
            (λ ns. if-Keeps p (equal_servers ns.servers servers) (keeps h) (
              descend-Keeps env res rounds call asked_for res_keeps q req ns.servers level ns.dsrr _
                h))
            (λ e. gather-Keeps nsrr key level hosts req resp ds _ h)))

  received-Keeps :
      (req resp : Msg) (servers : AuthServers) (ds : List Rr) (s : State R)
      → p s.lqueue
      → Keeps p (received env res rounds call asked_for req resp servers ds s)
  unfolding received referred
  received-Keeps req resp servers ds s h =
      if-Keeps p (not (resp.rcode == rcode_success) && is_empty resp.answer)
        (rejected-Keeps env res rounds call asked_for res_keeps q resp s h)
        (if-Keeps p (not (is_empty resp.answer))
          (answered-Keeps env res rounds call asked_for res_keeps q req _ ds s h)
          (if-Keeps p (not (is_empty resp.ns))
            (option-Keeps p (ns_hosts none [] resp.ns).0
              (undelegated-Keeps env res rounds call asked_for res_keeps q resp s h)
              (λ nsrr. delegated-Keeps nsrr _ req resp servers ds s h))
            (keeps h)))

  asked-Keeps :
      (servers : AuthServers) (ds : List Rr) (s : State R)
      → p s.lqueue
      → Keeps p (asked env res rounds call asked_for servers ds s)
  unfolding asked
  asked-Keeps servers ds s h =
      pure-Keeps p (lookup env call.proto call.req servers s) _ (λ (t, c, outcome) e.
        let k = lookup_keeps env p call.proto call.req servers s h e in
        option-Keeps p outcome (keeps k)
          (λ m. if-Keeps p m.truncated (keeps k) (received-Keeps c.req _ servers ds t k)))

  started-Keeps : (s : State R) → p s.lqueue → Keeps p (started env res rounds call asked_for s)
  unfolding started
  started-Keeps s h =
      let cd = call.req.checking_disabled in
      if-Keeps p (call.root && not (asked_for.qtype == type_ds))
        (pure-Keeps p
          (search_cache s.now env.rootservers (suc (length asked_for.name)) asked_for cd s.ncache) _
          (λ (ncache, (servers, ds)) e. asked-Keeps servers ds _ h))
        (asked-Keeps call.servers call.parentdsrr s h)

module _ {R : Type 0} (env : Env R) where
  resolve_within :
      (fuel : ℕ) (q : LQueue) (call : Call) (s : State R)
      → IsKept q s.lqueue
      → Keeps (IsKept q) (resolve env fuel call s)
  unfolding resolve resolve_first
  resolve_within zero q call s h = stops
  resolve_within (suc fuel) q call s h = by_question call.req.question (resolve_within fuel)
    where
      by_question :
          (qs : List Question)
          → ((r : LQueue) (c : Call) (t : State R)
              → IsKept r t.lqueue
              → Keeps (IsKept r) (resolve env fuel c t))
          → Keeps (IsKept q) (resolve_first env (resolve env fuel) fuel call qs s)
      by_question [] ih = stops
      by_question (asked_for ∷ qs) ih =
          started-Keeps env (resolve env fuel) fuel call asked_for ih q s h

  -- On any fuel, with DNSSEC or without, and whatever the servers reply: when a resolution ends, with a
  -- message or an error, the queue of running lookups holds the keys that it held before, each with its
  -- channel. No lookup of a nameserver's address leaves its key behind.
  pub resolve-Keeps :
      (fuel : ℕ) (call : Call) (s : State R)
      → Map.IsDistinct s.lqueue.delay
      → Keeps (IsKept s.lqueue) (resolve env fuel call s)
  resolve-Keeps fuel call s d =
      resolve_within fuel s.lqueue call s (record { distinct = d; same = λ key. refl })
