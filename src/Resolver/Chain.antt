-- ===== src/Resolver/Chain.antt =====
-- resolver.go: `lookupDS`, the search for the DS records of a signer that `Resolve` makes, and
-- `verifyDNSSEC`. `res` is `Resolve`, which they call.
pub mod Retries
pub mod Trust
use sdns.Base.{
  ℕ, zero, suc, ◌-◌, Bool, true, false, not, ◌&&◌, ◌==◌, List, [], ◌∷◌, ◌++◌, Bytes, codes,
  bytes_eq, to_lower, Option, none, some, if◌then◌else◌, ◌>>=◌, is_some, length, ltb,
}
use sdns.Cache.ErrorCache
use sdns.Cache.Key.{hash}
use sdns.Cache.Outcome.{ok, err}
use sdns.Cache.QueryCache
use sdns.Dns.{Question, Rr, Msg, as_rrsig, type_ds, type_dnskey, class_inet, rootzone}
use sdns.Dnssec.Keys.{verify_ds}
use sdns.Dnssec.Signatures.{verify_rrsig}
use sdns.Handler.Env.{State, Proto, tcp, rcode_success}
use sdns.Records.{is_empty, extract_rr_set}
use sdns.Resolver.Env.{
  Env, Run, Call, Resolver, done, failed, try, cached_failure, max_depth, no_answer, no_dnskey,
  ds_empty, insecure,
}
use sdns.Resolver.Roots.{ds_rr_from_root_keys, meets_nil, starts_nil, zone_keys, verify_root_keys}

-- the question that `SetQuestion` makes
abbrev pub question_of : Bytes → ℕ → Question
question_of name qtype = record { name = name; qtype = qtype; qclass = class_inet }

-- `strings.Join(labels, ".")`
unfoldable pub join_labels : List Bytes → Bytes
join_labels [] = []
join_labels (l ∷ []) = l
join_labels (l ∷ m ∷ ls) = l ++ codes "." ++ join_labels (m ∷ ls)

unfoldable pub drop_labels : ℕ → List Bytes → List Bytes
drop_labels zero ls = ls
drop_labels (suc n) [] = []
drop_labels (suc n) (l ∷ ls) = drop_labels n ls

-- the first RRSIG record that passes a test: its signer
unfoldable pub find_signer : (Rr → Bool) → List Rr → Option Bytes
find_signer test [] = none
find_signer test (r ∷ rs) =
    let later = find_signer test rs in
    if not (test r)
    then later
    else elim (as_rrsig r) [ none ↦ later | some sig ↦ some sig.signer_name ]

abbrev pub signer_or_empty : Option Bytes → Bytes
signer_or_empty none = []
signer_or_empty (some signer) = signer

-- the name of the first DS record, in lower case
abbrev pub ds_name : List Rr → Bytes
ds_name [] = []
ds_name (r ∷ rs) = to_lower r.name

module _ {R : Type 0} (env : Env R) where
  -- a failure that the error cache remembers
  unfoldable pub remember : ℕ → State R → State R
  remember key s = record s { ecache = ErrorCache.set s.pick s.now key s.ecache }

  unfoldable pub store : ℕ → Msg → State R → State R
  store key msg s = record s {
    qcache = QueryCache.set env.lib env.new_limiter s.pick s.now key msg s.qcache;
  }

  -- a fresh call from the root servers
  abbrev pub from_root : Proto → Msg → ℕ → Bool → Call
  from_root proto req depth nsl = record {
    proto = proto;
    req = req;
    servers = env.rootservers;
    root = true;
    depth = depth;
    level = 0;
    nsl = nsl;
    parentdsrr = [];
    extra = false;
  }

  module _ (res : Resolver R) where
    -- `lookupDS`; `rounds` bounds the calls over TCP
    unfoldable pub lookup_ds : ℕ → Proto → Bytes → ℕ → State R → Run R Msg
    lookup_ds zero proto qname depth s = none
    lookup_ds (suc rounds) proto qname depth s =
        let req = env.new_query qname type_ds false in
        let key = hash (question_of qname type_ds) false in
        let (qcache, found) = QueryCache.get env.lib s.now key req s.qcache in
        let s1 = record s { qcache = qcache } in
        let (ecache, e) = ErrorCache.get s1.now key s1.ecache in
        let s2 = record s1 { ecache = ecache } in
        elim found [
          | ok (dsres, _) ↦ some (s1, done dsres)
          | err _ ↦
              if not (is_some e)
              then some (s2, failed cached_failure)
              else if depth == 0
              then some (s2, failed max_depth)
              else res (from_root proto req (depth - 1) true) s2 >>= λ (t, outcome). elim outcome [
                | failed x ↦ some (remember key t, failed x)
                | done dsres ↦
                    let again = lookup_ds rounds tcp qname depth t in
                    if dsres.truncated && dsres.rcode == rcode_success
                    then again
                    else if is_empty dsres.answer && is_empty dsres.ns
                    then some (t, failed no_answer)
                    else some (store key dsres t, done dsres)
              ]
        ]

    -- The loop over the names between the parent zone and `name`, for a reply without a signature; `n`
    -- labels are common, and `steps` bounds the loop.
    unfoldable pub walk_ds : ℕ → ℕ → Proto → Bytes → ℕ → List Rr → State R → Run R (List Rr)
    walk_ds rounds zero proto name n parentdsrr s = none
    walk_ds rounds (suc steps) proto name n parentdsrr s =
        let nsplit = env.names.split_domain_name name in
        let candidate = env.names.fqdn (join_labels (drop_labels (length nsplit - n - 1) nsplit)) in
        if not (ltb n (length nsplit))
        then some (s, done parentdsrr)
        else try (lookup_ds rounds proto candidate env.maxdepth s) (λ t resp.
          let found = extract_rr_set resp.answer candidate (type_ds ∷ []) in
          if is_empty found
          then some (t, done found)
          else walk_ds rounds steps proto name (env.names.compare_domain_name candidate name) found
              t)

    -- The DS records for the signer of a reply about `name`. `fetches` is whether they are looked up
    -- where the records of the parent zone are not those of the signer.
    unfoldable pub signer_ds :
        ℕ → Bool → Proto → Bytes → Bytes → List Rr → State R → Run R (List Rr)
    signer_ds rounds fetches proto name signer parentdsrr s =
        let dsname = ds_name parentdsrr in
        if bytes_eq signer rootzone && is_empty parentdsrr
        then (ds_rr_from_root_keys env.to_ds env.rootkeys >>= λ ds. some (s, done ds))
        else if not (is_empty parentdsrr) && fetches
        then (if starts_nil parentdsrr
            then none
            else if is_empty signer
            then walk_ds rounds (suc (length (env.names.split_domain_name name))) proto name
                (env.names.compare_domain_name dsname name) parentdsrr s
            else if not (bytes_eq dsname signer)
            then try (lookup_ds rounds proto signer env.maxdepth s)
                (λ t resp. some (t, done (extract_rr_set resp.answer signer (type_ds ∷ []))))
            else some (s, done parentdsrr))
        else some (s, done parentdsrr)

    -- the message with the keys of the signer: from the cache, or by `Resolve`, over UDP and then TCP
    unfoldable pub fetch_keys : Proto → Msg → State R → Run R Msg
    fetch_keys proto req s = try (res (from_root proto req env.maxdepth false) s) (λ t msg.
        if msg.truncated then res (from_root tcp req env.maxdepth false) t else some (t, done msg))

    -- the checks of `verifyDNSSEC` by the keys of `msg`
    unfoldable pub check_keys : ℕ → Msg → Msg → List Rr → State R → Run R Bool
    check_keys key msg resp parentdsrr s =
        let keys = zone_keys env.key_tag [] msg.answer in
        if is_empty keys
        then some (s, failed no_dnskey)
        else if is_empty parentdsrr
        then some (s, failed ds_empty)
        else if meets_nil env.to_ds keys parentdsrr
        then none
        else elim (verify_ds env.to_ds keys parentdsrr) [
          | some e ↦ some (s, failed (insecure e))
          | none ↦
              let (verified, e) = verify_rrsig env.signatures keys resp in
              elim e [
                | some x ↦ some (s, failed (insecure x))
                | none ↦ some (store key msg s, done verified)
              ]
        ]

    -- `verifyDNSSEC` for a reply to the question `q`
    unfoldable pub verify_for : Question → Proto → Bytes → Msg → List Rr → State R → Run R Bool
    verify_for q proto signer resp parentdsrr s =
        let req = env.new_query signer type_dnskey false in
        let key = hash (question_of signer type_dnskey) false in
        let (qcache, found) = QueryCache.get env.lib s.now key req s.qcache in
        let s' = record s { qcache = qcache } in
        if q.qtype == type_dnskey
        then (if bytes_eq q.name rootzone
            then (verify_root_keys env.to_ds env.key_tag env.signatures env.rootkeys resp >>= λ _.
                some (store key resp s', done true))
            else check_keys key resp resp parentdsrr s')
        else elim found [
          | ok (msg, _) ↦ check_keys key msg resp parentdsrr s'
          | err _ ↦ try (fetch_keys proto req s') (λ t msg. check_keys key msg resp parentdsrr t)
        ]

    -- `verifyDNSSEC`; a reply without a question panics
    unfoldable pub verify_dnssec : Proto → Bytes → Msg → List Rr → State R → Run R Bool
    verify_dnssec proto signer resp parentdsrr s = elim resp.question [
      | [] ↦ none
      | q ∷ qs ↦ verify_for q proto signer resp parentdsrr s
    ]
