-- ===== src/Resolver/Queue/Chain.antt =====
-- The lookup queue across the checks of DNSSEC (resolver.go, `lookupDS` and `verifyDNSSEC`).
use mathlib.Core.Path.{subst}
use sdns.Base.{
  ℕ, zero, suc, ◌-◌, ◌≡◌, Bool, false, not, ◌&&◌, ◌==◌, List, [], ◌∷◌, Bytes, bytes_eq, Option,
  none, some, is_some, length, ltb, ap, arith, Option-cases, inl, inr,
}
use sdns.Cache.ErrorCache
use sdns.Cache.Key.{hash}
use sdns.Cache.LookupQueue.{LQueue}
use sdns.Cache.QueryCache
use sdns.Cache.Servers.{AuthServers}
use sdns.Dns.{Question, Rr, Msg, type_ds, type_dnskey, rootzone}
use sdns.Dnssec.Keys.{verify_ds}
use sdns.Dnssec.Signatures.{verify_rrsig}
use sdns.Handler.Env.{State, Proto, tcp, rcode_success}
use sdns.Records.{is_empty, extract_rr_set}
use sdns.Resolver.Addresses.{lookup}
use sdns.Resolver.Chain.{
  question_of, remember, store, ds_name, join_labels, drop_labels, lookup_ds, walk_ds, signer_ds,
  fetch_keys, check_keys, verify_for, verify_dnssec,
}
use sdns.Resolver.Env.{Env, Call, Resolver}
use sdns.Resolver.Exchange
use sdns.Resolver.Exchange.{Client}
use sdns.Resolver.Queue.{
  Keeps, stops, keeps, bind-Keeps, try-Keeps, pure-Keeps, if-Keeps, option-Keeps, result-Keeps,
  attempt-Keeps,
}
use sdns.Resolver.Roots.{meets_nil, starts_nil, ds_rr_from_root_keys, zone_keys, verify_root_keys}

module _ {R : Type 0} (env : Env R) (p : LQueue → Type 0) where
  -- the queue after a lookup
  abbrev queue_of : LQueue → Option (State R × Client × Option Msg) → LQueue
  queue_of q none = q
  queue_of q (some (s, c, outcome)) = s.lqueue

  pub lookup_keeps :
      (proto : Proto) (req : Msg) (servers : AuthServers) (s : State R) {t : State R} {c : Client}
      {outcome : Option Msg}
      → p s.lqueue
      → lookup env proto req servers s ≡ some (t, c, outcome)
      → p t.lqueue
  unfolding lookup
  lookup_keeps proto req servers s {t} {c} {outcome} h e =
      elim (Option-cases (
        Exchange.lookup (Exchange.exchange env.edns0 (env.net.dial s.now) (env.net.rtt s.now) 3)
          (record { proto = proto; req = req; measured = [] }) servers)) [
            | inl f ↦ absurd (ground arith)
            | inr (x, f) ↦ subst p (ap (queue_of s.lqueue) (rw (f, lookup) at e)) h
          ]

  module _ (res : Resolver R)
      (res_keeps : (call : Call) (s : State R) → p s.lqueue → Keeps p (res call s)) where
    lookup_ds-Keeps :
        (rounds : ℕ) (proto : Proto) (qname : Bytes) (depth : ℕ) (s : State R)
        → p s.lqueue
        → Keeps p (lookup_ds env res rounds proto qname depth s)
    unfolding lookup_ds remember store
    lookup_ds-Keeps zero proto qname depth s h = stops
    lookup_ds-Keeps (suc rounds) proto qname depth s h =
        let req = env.new_query qname type_ds false in
        let key = hash (question_of qname type_ds) false in
        result-Keeps p (QueryCache.get env.lib s.now key req s.qcache).1 (λ x. keeps h)
          (λ x. if-Keeps p (not (is_some (ErrorCache.get s.now key s.ecache).1)) (keeps h) (
            if-Keeps p (depth == 0) (keeps h) (
              bind-Keeps p _ (res_keeps _ _ h) (λ t outcome k.
                attempt-Keeps p outcome
                  (λ dsres.
                    if-Keeps p (dsres.truncated && dsres.rcode == rcode_success)
                      (lookup_ds-Keeps rounds tcp qname depth t k)
                      (if-Keeps p (is_empty dsres.answer && is_empty dsres.ns) (keeps k) (keeps k)))
                  (λ e. keeps k)))))

    walk_ds-Keeps :
        (rounds steps : ℕ) (proto : Proto) (name : Bytes) (n : ℕ) (ds : List Rr) (s : State R)
        → p s.lqueue
        → Keeps p (walk_ds env res rounds steps proto name n ds s)
    unfolding walk_ds
    walk_ds-Keeps rounds zero proto name n ds s h = stops
    walk_ds-Keeps rounds (suc steps) proto name n ds s h =
        let nsplit = env.names.split_domain_name name in
        let candidate = env.names.fqdn (join_labels (drop_labels (length nsplit - n - 1) nsplit)) in
        if-Keeps p (not (ltb n (length nsplit))) (keeps h) (
          try-Keeps p _ _ (lookup_ds-Keeps rounds proto candidate env.maxdepth s h) (λ t resp k.
            if-Keeps p (is_empty (extract_rr_set resp.answer candidate (type_ds ∷ []))) (keeps k)
              (walk_ds-Keeps rounds steps proto name _ _ t k)))

    pub signer_ds-Keeps :
        (rounds : ℕ) (fetches : Bool) (proto : Proto) (name signer : Bytes) (ds : List Rr)
        (s : State R)
        → p s.lqueue
        → Keeps p (signer_ds env res rounds fetches proto name signer ds s)
    unfolding signer_ds
    signer_ds-Keeps rounds fetches proto name signer ds s h =
        if-Keeps p (bytes_eq signer rootzone && is_empty ds)
          (pure-Keeps p (ds_rr_from_root_keys env.to_ds env.rootkeys) _ (λ x e. keeps h))
          (if-Keeps p (not (is_empty ds) && fetches)
            (if-Keeps p (starts_nil ds) stops (
              if-Keeps p (is_empty signer) (walk_ds-Keeps rounds _ proto name _ ds s h) (
                if-Keeps p (not (bytes_eq (ds_name ds) signer))
                  (try-Keeps p _ _ (lookup_ds-Keeps rounds proto signer _ s h)
                    (λ t resp k. keeps k))
                  (keeps h))))
            (keeps h))

    fetch_keys-Keeps :
        (proto : Proto) (req : Msg) (s : State R)
        → p s.lqueue
        → Keeps p (fetch_keys env res proto req s)
    unfolding fetch_keys
    fetch_keys-Keeps proto req s h =
        try-Keeps p _ _ (res_keeps _ s h)
          (λ t msg k. if-Keeps p msg.truncated (res_keeps _ t k) (keeps k))

    check_keys-Keeps :
        (key : ℕ) (msg resp : Msg) (ds : List Rr) (s : State R)
        → p s.lqueue
        → Keeps p (check_keys env res key msg resp ds s)
    unfolding check_keys store
    check_keys-Keeps key msg resp ds s h =
        if-Keeps p (is_empty (zone_keys env.key_tag [] msg.answer)) (keeps h) (
          if-Keeps p (is_empty ds) (keeps h) (
            if-Keeps p (meets_nil env.to_ds (zone_keys env.key_tag [] msg.answer) ds) stops (
              option-Keeps p (verify_ds env.to_ds (zone_keys env.key_tag [] msg.answer) ds)
                (option-Keeps p
                  (verify_rrsig env.signatures (zone_keys env.key_tag [] msg.answer) resp).1
                  (keeps h) (λ x. keeps h))
                (λ e. keeps h))))

    verify_for-Keeps :
        (q : Question) (proto : Proto) (signer : Bytes) (resp : Msg) (ds : List Rr) (s : State R)
        → p s.lqueue
        → Keeps p (verify_for env res q proto signer resp ds s)
    unfolding verify_for store
    verify_for-Keeps q proto signer resp ds s h =
        let req = env.new_query signer type_dnskey false in
        let key = hash (question_of signer type_dnskey) false in
        if-Keeps p (q.qtype == type_dnskey)
          (if-Keeps p (bytes_eq q.name rootzone)
            (pure-Keeps p (verify_root_keys env.to_ds env.key_tag env.signatures env.rootkeys resp)
              _ (λ x e. keeps h))
            (check_keys-Keeps _ resp resp ds _ h))
          (result-Keeps p (QueryCache.get env.lib s.now key req s.qcache).1
            (λ x. check_keys-Keeps _ _ resp ds _ h)
            (λ x.
              try-Keeps p _ _ (fetch_keys-Keeps proto _ _ h)
                (λ t msg k. check_keys-Keeps _ msg resp ds t k)))

    pub verify_dnssec-Keeps :
        (proto : Proto) (signer : Bytes) (resp : Msg) (ds : List Rr) (s : State R)
        → p s.lqueue
        → Keeps p (verify_dnssec env res proto signer resp ds s)
    unfolding verify_dnssec
    verify_dnssec-Keeps proto signer resp ds s h = by_question resp.question
      where
        by_question :
            (qs : List Question)
            → Keeps p
                (elim qs [ [] ↦ none | q ∷ rest ↦ verify_for env res q proto signer resp ds s ])
        by_question [] = stops
        by_question (q ∷ rest) = verify_for-Keeps q proto signer resp ds s h
