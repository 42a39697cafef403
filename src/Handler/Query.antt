-- ===== src/Handler/Query.antt =====
-- handler.go, `query`: the checks of a request, the caches, the block list, and the resolution. A
-- panic is `none`. `again` is the recursive call with the transport "tcp".
pub mod Invariance
pub mod Totality
pub mod Refusals
pub mod Blocking
pub mod Failures
pub mod Filtering
use sdns.Base.{
  ℕ, Bool, true, false, not, ◌&&◌, ◌||◌, ◌==◌, List, [], ◌∷◌, ◌++◌, map, Bytes, codes, bytes_eq,
  Option, none, some, if◌then◌else◌, ◌>>=◌, ltb, is_some,
}
use sdns.Cache.BlockCache
use sdns.Cache.ErrorCache
use sdns.Cache.Key.{hash}
use sdns.Cache.LookupQueue
use sdns.Cache.NsCache
use sdns.Cache.Outcome.{ok, err}
use sdns.Cache.QueryCache
use sdns.Dns.{
  Question, Rr, Rdata, Msg, empty_msg, type_a, type_aaaa, type_ns, type_hinfo, type_any, class_inet,
  rootzone,
}
use sdns.Handler.Cname.{additional_answer, is_address_type}
use sdns.Handler.Env.{
  Env, State, Proto, udp, tcp, https, rcode_success, rcode_server_failure, rcode_name_error,
  rcode_not_implemented, rcode_bad_vers,
}
use sdns.Handler.Prepare.{prepare, handle_failed, Prepared, refused, ready}
use sdns.Records.{clear_dnssec, clear_opt, is_empty}

-- `resolverProto`
abbrev pub resolver_proto : Proto → Proto
resolver_proto https = udp
resolver_proto tcp = tcp
resolver_proto udp = udp

abbrev pub is_udp : Proto → Bool
is_udp udp = true
is_udp _ = false

abbrev pub is_https : Proto → Bool
is_https https = true
is_https _ = false

-- the HINFO records that name servers
abbrev pub hinfo_of : Question → ℕ → List Bytes → List Rr
hinfo_of q ttl [] = []
hinfo_of q ttl (text ∷ texts) =
    let rest = hinfo_of q ttl texts in
    record {
      name = q.name;
      rrtype = type_hinfo;
      rrclass = class_inet;
      ttl = ttl;
      rdata = Rdata.hinfo (codes "ns") text;
    }
    ∷ rest

abbrev pub set_ttl : ℕ → Rr → Rr
set_ttl ttl r = record r { ttl = ttl }

module _ {R : Type 0} (env : Env R) where
  abbrev pub Outcome : Type 0
  Outcome = Option (State R × Msg)

  -- the debug reply with the servers of a zone
  unfoldable pub debug_reply : Question → State R → Msg → State R × Msg
  debug_reply q s req =
      let msg = record (env.lib.set_reply empty_msg req) {
        authenticated_data = true;
        authoritative = false;
        recursion_available = true;
      } in
      if bytes_eq q.name rootzone
      then (
        s,
        record msg { ns = msg.ns ++ hinfo_of q 0 (env.server_text s.now env.config.rootservers) },
      )
      else (let key = hash (record { name = q.name; qtype = type_ns; qclass = class_inet }) false in
          let (ncache, found) = NsCache.get s.now key s.ncache in
          let s' = record s { ncache = ncache } in
          elim found [
            | err e ↦ (s', msg)
            | ok ns ↦ (
              s',
              record msg { ns = msg.ns ++ hinfo_of q ns.ttl (env.server_text s.now ns.servers) },
            )
          ])

  -- from `additionalAnswer` to the OPT record at the end of a reply
  unfoldable pub finish : Proto → Question → Bool → Rr → Bool → State R → Msg → Outcome
  finish proto q cd opt ds s msg =
      additional_answer env (resolver_proto proto) q cd s msg >>= λ (t, msg').
      let cleared = clear_opt (if not ds then clear_dnssec msg' else msg') in
      some (t, record cleared { extra = cleared.extra ++ env.opts.set_do ds opt ∷ [] })

  -- the answer to a blocked question
  unfoldable pub blocked_reply : Question → Msg → Msg
  blocked_reply q req =
      let m = env.lib.set_reply empty_msg req in
      let address =
        if q.qtype == type_a
        then Rdata.a env.config.nullroute
        else Rdata.aaaa env.config.nullroutev6 in
      let r : Rr = record {
        name = q.name;
        rrtype = q.qtype;
        rrclass = class_inet;
        ttl = env.config.expire;
        rdata = address;
      } in
      record m {
        answer = m.answer ++ r ∷ [];
        authenticated_data = true;
        authoritative = false;
        recursion_available = true;
      }

  -- The changes to a resolved message before it is cached. A text that `dns.NewRR` rejects gives a nil
  -- record, since its error is dropped, and then `dns.Copy` panics on it in `Qcache.Set`.
  unfoldable pub amend : Question → Msg → Option Msg
  amend q mesg =
      if mesg.rcode == rcode_success && is_empty mesg.answer && is_empty mesg.ns
      then (env.no_answer q.name env.config.expire >>= λ r.
          some (record mesg { ns = mesg.ns ++ r ∷ [] }))
      else some (
          if mesg.rcode == rcode_name_error
          then record mesg { ns = map (set_ttl env.config.expire) mesg.ns }
          else mesg)

  -- `Lqueue.Done`, deferred to the return
  unfoldable pub release : ℕ → State R × Msg → Outcome
  release key (s, msg) = LookupQueue.done key s.lqueue >>= λ q. some (record s { lqueue = q }, msg)

  -- a failure that is remembered in the error cache
  unfoldable pub remember : ℕ → State R → State R
  remember key s = record s { ecache = ErrorCache.set s.pick s.now key s.ecache }

  module _ (again : State R → Msg → Outcome) (proto : Proto) (q : Question) where
    -- what is done with a resolved message
    unfoldable pub respond : ℕ → Msg → Rr → Bool → State R → Msg → Outcome
    respond key req opt ds s mesg =
        if mesg.truncated && is_udp proto
        then some (s, mesg)
        else if mesg.truncated && is_https proto
        then (LookupQueue.done key s.lqueue >>= λ lqueue.
            again (record s { lqueue = lqueue }) (env.opts.put_edns0 (env.opts.set_do ds opt) req))
        else (amend q mesg >>= λ m.
            if not (m.rcode == rcode_success) && is_empty m.answer && is_empty m.ns
            then some (remember key s, handle_failed env req m.rcode ds)
            else finish proto q req.checking_disabled opt ds s m >>= λ (t, msg). some (
              record t {
                qcache = QueryCache.set env.lib env.new_limiter t.pick t.now key m t.qcache;
              },
              msg,
            ))

    -- what follows the resolution, up to the deferred call
    unfoldable pub settle : ℕ → Msg → Rr → Bool → State R → Option Msg → Outcome
    settle key req opt ds t none =
        some (remember key t, handle_failed env req rcode_server_failure ds)
    settle key req opt ds t (some mesg) = respond key req opt ds t mesg

    -- from `Lqueue.Add` to the end
    unfoldable pub resolve_query : ℕ → Msg → Rr → Bool → State R → Outcome
    resolve_query key req opt ds s =
        env.resolve (resolver_proto proto) req env.config.maxdepth
          (record s { lqueue = LookupQueue.add key s.lqueue })
        >>= λ (t, found). settle key req opt ds t found >>= release key

    -- from the error cache to the end
    unfoldable pub miss : ℕ → Msg → Rr → Bool → State R → Outcome
    miss key req opt ds s =
        let (ecache, e) = ErrorCache.get s.now key s.ecache in
        let s' = record s { ecache = ecache } in
        if not (is_some e)
        then some (s', handle_failed env req rcode_server_failure ds)
        else if is_address_type q.qtype && BlockCache.exists q.name s'.block_list
        then (let m = blocked_reply q req in
            some (
              record s' {
                qcache = QueryCache.set env.lib env.new_limiter s'.pick s'.now key m s'.qcache;
              },
              m,
            ))
        else resolve_query key req opt ds s'

    -- from the wait for a running lookup to the end
    unfoldable pub answer_query : Msg → Rr → Bool → State R → Outcome
    answer_query req opt ds s =
        let key = hash q req.checking_disabled in
        let w = env.wait key s in
        let (qcache, found) = QueryCache.get env.lib w.now key req w.qcache in
        let s' = record w { qcache = qcache } in
        elim found [
          | ok (mesg, rl) ↦
              if ltb 0 env.config.rate_limit && env.is_limited rl
              then some (s', handle_failed env req rcode_server_failure ds)
              else finish proto q req.checking_disabled opt ds s' (record mesg { id = req.id })
          | err e ↦ miss key req opt ds s'
        ]

    -- from the checks of the question to the end
    unfoldable pub query_checked : State R → Prepared → Outcome
    query_checked s (refused req) = some (s, handle_failed env req rcode_bad_vers false)
    query_checked s (ready req opt ds) =
        if q.qtype == type_any
        then some (s, handle_failed env req rcode_not_implemented ds)
        else if env.config.debugns && q.qtype == type_hinfo
        then some (debug_reply q s req)
        else if not (bytes_eq q.name rootzone) && not req.recursion_desired
        then some (s, handle_failed env req rcode_server_failure ds)
        else answer_query req opt ds s

    -- `query` after the first line
    unfoldable pub query_for : State R → Msg → Outcome
    query_for s req = query_checked s (prepare env req)

  -- `req.Question[0]`; a request without a question panics
  unfoldable pub query_first :
      (State R → Msg → Outcome) → Proto → State R → Msg → List Question → Outcome
  query_first again proto s req [] = none
  query_first again proto s req (q ∷ qs) = query_for again proto q s req

  -- `query` with the recursive call as a parameter
  unfoldable pub query_at : (State R → Msg → Outcome) → Proto → State R → Msg → Outcome
  unfolding query_first
  query_at again proto s req = query_first again proto s req req.question

  -- `query`: only a truncated answer over "https" asks again, over "tcp".
  unfoldable pub query : Proto → State R → Msg → Outcome
  query proto s req = query_at (query_at (λ t m. none) tcp) proto s req

  -- `handle`: a client that the access list does not contain gets no reply.
  unfoldable pub handle : Bool → Proto → State R → Msg → Option (State R × Option Msg)
  handle allowed proto s req =
      if not allowed then some (s, none) else (query proto s req >>= λ (t, msg). some (t, some msg))
