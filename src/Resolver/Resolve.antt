-- ===== src/Resolver/Resolve.antt =====
-- resolver.go, `Resolve`: from the servers of a zone, along its delegations, to an answer. `res` is the
-- recursive call, and `resolve` ties the knot on fuel, which also bounds the repetitions over TCP of
-- `lookupDS` and `lookupNSAddr`. `none` is a panic, or fuel that has run out.
pub mod Totality
use sdns.Base.{
  ℕ, zero, suc, ◌-◌, Bool, true, false, not, ◌&&◌, ◌||◌, ◌==◌, List, [], ◌∷◌, ◌++◌, Bytes, bytes_eq,
  bytes_Eq, to_lower, Option, none, some, if◌then◌else◌, ◌>>=◌, is_some, length, ltb, keep_map,
}
use sdns.Cache.Key.{hash}
use sdns.Cache.NsCache
use sdns.Cache.Outcome.{ok, err}
use sdns.Cache.Servers.{AuthServers}
use sdns.Dns.{
  Question, Rr, Rdata, Nsec3, Msg, empty_msg, as_nsec3, type_ds, type_ns, type_nsec, type_nsec3,
  rootzone,
}
use sdns.Dnssec.Nsec3.{verify_nodata, verify_delegation}
use sdns.Handler.Env.{State, Proto, rcode_success, rcode_name_error}
use sdns.Records.{is_empty, upper_name, extract_rr_set, mem_types, is_local_ip}
use sdns.Resolver.Addresses.{lookup, lookup_ns_addr}
use sdns.Resolver.Chain.{find_signer, signer_or_empty, signer_ds, verify_dnssec}
use sdns.Resolver.Env.{
  Env, Run, Call, Resolver, Attempt, done, failed, try, max_depth, parent_detection,
  root_servers_detection, loop_detection, not_exchanged, unreachable, unsigned, insecure,
}
use sdns.Resolver.Glue.{Glue, direct, filled, ns_hosts, fill, known_servers, auth_servers}
use sdns.Resolver.Hosts.{equal_servers}
use sdns.Resolver.Roots.{ds_rr_from_root_keys}
use sdns.Resolver.Zones.{search_cache}
use sdns.Resolver.Answers.{rejected, answered, undelegated}
use sdns.Resolver.Delegations.{delegated}

module _ {R : Type 0} (env : Env R) (res : Resolver R) (rounds : ℕ) (call : Call)
    (q : Question) where
  -- the branch of a reply without an answer
  unfoldable pub referred : Msg → Msg → AuthServers → List Rr → State R → Run R Msg
  referred req resp servers parentdsrr s = elim (ns_hosts none [] resp.ns).0 [
    | none ↦ undelegated env res rounds call q resp s
    | some nsrr ↦
        delegated env res rounds call q nsrr (ns_hosts none [] resp.ns).1 req resp servers
          parentdsrr s
  ]

  -- the reply without records
  abbrev pub empty_reply : Msg → Msg
  empty_reply req = record (env.set_rcode empty_msg req rcode_success) {
    recursion_available = true;
    extra = req.extra;
  }

  -- the branches on a reply that is not truncated
  unfoldable pub received : Msg → Msg → AuthServers → List Rr → State R → Run R Msg
  received req resp servers parentdsrr s =
      if not (resp.rcode == rcode_success) && is_empty resp.answer
      then rejected env res rounds call q resp s
      else if not (is_empty resp.answer)
      then answered env res rounds call q req (record resp { rcode = rcode_success }) parentdsrr s
      else if not (is_empty resp.ns)
      then referred req resp servers parentdsrr s
      else some (s, done (empty_reply req))

  -- from `lookup` to the end
  unfoldable pub asked : AuthServers → List Rr → State R → Run R Msg
  asked servers parentdsrr s = lookup env call.proto call.req servers s >>= λ (t, c, outcome).
      elim outcome [
        | none ↦ some (t, failed not_exchanged)
        | some reply ↦
            let resp = record reply { recursion_available = true; authoritative = false } in
            if resp.truncated then some (t, done resp) else received c.req resp servers parentdsrr t
      ]

  -- `Resolve` after the first line
  unfoldable pub started : State R → Run R Msg
  started s =
      if call.root && not (q.qtype == type_ds)
      then (search_cache s.now env.rootservers (suc (length q.name)) q call.req.checking_disabled
            s.ncache
          >>= λ (ncache, (servers, parentdsrr)).
              asked servers parentdsrr (record s { ncache = ncache }))
      else asked call.servers call.parentdsrr s

module _ {R : Type 0} (env : Env R) where
  -- `req.Question[0]`
  unfoldable pub resolve_first : Resolver R → ℕ → Call → List Question → State R → Run R Msg
  resolve_first res rounds call [] s = none
  resolve_first res rounds call (q ∷ qs) s = started env res rounds call q s

  -- `Resolve`
  unfoldable pub resolve : ℕ → Resolver R
  unfolding resolve_first
  resolve zero call s = none
  resolve (suc fuel) call s = resolve_first (resolve fuel) fuel call call.req.question s
