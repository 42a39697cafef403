-- ===== src/Resolver/Answers.antt =====
-- resolver.go, `Resolve`: the branches on a reply that ends the resolution. `res` is the recursive call;
-- `none` is a panic, or fuel that has run out.
pub mod Totality
pub mod Trust
use sdns.Base.{
  ℕ, zero, suc, ◌-◌, Bool, true, false, not, ◌&&◌, ◌||◌, ◌==◌, List, [], ◌∷◌, ◌++◌, Bytes, bytes_eq,
  bytes_Eq, to_lower, Option, none, some, if◌then◌else◌, ◌>>=◌, is_some, length, ltb, keep_map,
}
use sdns.Cache.Key.{hash}
use sdns.Cache.NsCache
use sdns.Cache.Outcome.{ok, err}
use sdns.Cache.Servers.{AuthServers}
use sdns.Dns.{
  Question, Rr, Rdata, Nsec3, Msg, empty_msg, as_nsec3, type_ds, type_ns, type_nsec, type_nsec3,
  rootzone,
}
use sdns.Dnssec.Nsec3.{verify_nodata, verify_delegation}
use sdns.Handler.Env.{State, Proto, rcode_success, rcode_name_error}
use sdns.Records.{is_empty, upper_name, extract_rr_set, mem_types, is_local_ip}
use sdns.Resolver.Addresses.{lookup, lookup_ns_addr}
use sdns.Resolver.Chain.{find_signer, signer_or_empty, signer_ds, verify_dnssec}
use sdns.Resolver.Env.{
  Env, Run, Call, Resolver, Attempt, done, failed, try, max_depth, parent_detection,
  root_servers_detection, loop_detection, not_exchanged, unreachable, unsigned, insecure,
}
use sdns.Resolver.Glue.{Glue, direct, filled, ns_hosts, fill, known_servers, auth_servers}
use sdns.Resolver.Hosts.{equal_servers}
use sdns.Resolver.Roots.{ds_rr_from_root_keys}
use sdns.Resolver.Zones.{search_cache}

-- the records of a set as NSEC3 records
abbrev pub nsec3_set : List Rr → List Nsec3
nsec3_set rs = keep_map as_nsec3 (extract_rr_set rs [] (type_nsec3 ∷ []))

-- the answer of a message that is passed on, with the OPT record of the request
unfoldable pub trim_answer : Bool → Option Rr → Msg → Msg
trim_answer true opt resp = record resp { ns = [] }
trim_answer false none resp = record resp { ns = []; extra = [] }
trim_answer false (some opt) resp = record resp { ns = []; extra = opt ∷ [] }

module _ {R : Type 0} (env : Env R) (res : Resolver R) (rounds : ℕ) (call : Call)
    (q : Question) where
  -- The reply is returned that has an error code and no answer. For a name error below the root the
  -- keys of the root are read; the check of its NSEC3 records is written to the log alone.
  unfoldable pub rejected : Msg → State R → Run R Msg
  rejected resp s =
      if resp.rcode == rcode_name_error && is_empty (upper_name q.name)
      then (ds_rr_from_root_keys env.to_ds env.rootkeys >>= λ _. some (s, done resp))
      else some (s, done resp)

  -- `verifyDNSSEC` for the records of a signer, if there are any; true without a check
  unfoldable pub check_signed : Option Bytes → Msg → List Rr → State R → Run R (Option Bool)
  check_signed signer resp parentdsrr s =
      if is_empty parentdsrr
      then some (s, done none)
      else if not (is_some signer)
      then some (s, failed unsigned)
      else try (verify_dnssec env res call.proto (signer_or_empty signer) resp parentdsrr s)
          (λ t verified. some (t, done (some verified)))

  -- the AD flag after the checks
  unfoldable pub flagged : Option Bool → Msg → Msg
  flagged none resp = resp
  flagged (some verified) resp = record resp { authenticated_data = verified }

  -- the branch of a reply with an answer
  unfoldable pub answered : Msg → Msg → List Rr → State R → Run R Msg
  answered req resp parentdsrr s =
      let named = λ (r : Rr). bytes_eq (to_lower r.name) (to_lower q.name) in
      let signer = find_signer named resp.answer in
      let opt = env.edns0 req in
      if req.checking_disabled
      then some (s, done (trim_answer call.extra opt resp))
      else try
          (signer_ds env res rounds true call.proto q.name (signer_or_empty signer) parentdsrr s)
          (λ t ds.
            try (check_signed signer resp ds t)
              (λ u verified. some (u, done (trim_answer call.extra opt (flagged verified resp)))))

  -- the branch of a reply with an authority section that names no server
  unfoldable pub undelegated : Msg → State R → Run R Msg
  undelegated resp s =
      if q.qtype == type_ds && not (is_empty (extract_rr_set resp.ns [] (type_nsec3 ∷ [])))
      then elim resp.question [
        | [] ↦ none
        | asked ∷ _ ↦ elim (verify_nodata env.nsec3 asked (nsec3_set resp.ns)) [
          | some e ↦ some (s, failed (insecure e))
          | none ↦ some (s, done resp)
        ]
      ]
      else some (s, done resp)
