-- ===== src/Resolver/Queue/Delegations.antt =====
-- The lookup queue across the branches of `Resolve` (resolver.go).
use sdns.Base.{ℕ, Bool, true, not, ◌&&◌, ◌==◌, List, [], ◌∷◌, Bytes, Option, none, some, is_some}
use sdns.Cache.LookupQueue.{LQueue}
use sdns.Cache.Servers.{AuthServers}
use sdns.Dns.{Question, Rr, Msg, type_ds, type_nsec, type_nsec3}
use sdns.Dnssec.Nsec3.{verify_nodata, verify_delegation}
use sdns.Handler.Env.{State, rcode_name_error}
use sdns.Records.{is_empty, upper_name, extract_rr_set}
use sdns.Resolver.Answers.{rejected, check_signed, answered, undelegated, nsec3_set}
use sdns.Resolver.Chain.{signer_or_empty}
use sdns.Resolver.Delegations.{
  verify_nsec, delegated_ds, check_delegation, look_up_hosts, descend, store_zone, zone_ds,
  delegate,
}
use sdns.Resolver.Env.{Env, Call, Resolver, done, failed, insecure}
use sdns.Resolver.Queue.{
  IsKept, Keeps, stops, keeps, bind-Keeps, try-Keeps, pure-Keeps, if-Keeps, option-Keeps,
  attempt-Keeps,
}
use sdns.Resolver.Queue.Addresses.{lookup_ns_addr-Keeps}
use sdns.Resolver.Queue.Chain.{signer_ds-Keeps, verify_dnssec-Keeps}
use sdns.Resolver.Resolve.{asked}
use sdns.Resolver.Roots.{ds_rr_from_root_keys}

module _ {R : Type 0} (env : Env R) (res : Resolver R) (rounds : ℕ) (call : Call)
    (asked_for : Question)
    (res_keeps : (q : LQueue) (c : Call) (s : State R)
      → IsKept q s.lqueue
      → Keeps (IsKept q) (res c s))
    (q : LQueue) where
  abbrev p : LQueue → Type 0
  p = IsKept q

  pub rejected-Keeps :
      (resp : Msg) (s : State R)
      → p s.lqueue
      → Keeps p (rejected env res rounds call asked_for resp s)
  unfolding rejected
  rejected-Keeps resp s h =
      if-Keeps p (resp.rcode == rcode_name_error && is_empty (upper_name asked_for.name))
        (pure-Keeps p (ds_rr_from_root_keys env.to_ds env.rootkeys) _ (λ x e. keeps h)) (keeps h)

  check_signed-Keeps :
      (signer : Option Bytes) (resp : Msg) (ds : List Rr) (s : State R)
      → p s.lqueue
      → Keeps p (check_signed env res rounds call asked_for signer resp ds s)
  unfolding check_signed
  check_signed-Keeps signer resp ds s h = if-Keeps p (is_empty ds) (keeps h) (
      if-Keeps p (not (is_some signer)) (keeps h) (
        try-Keeps p _ _
          (verify_dnssec-Keeps env p res (res_keeps q) call.proto (signer_or_empty signer) resp ds s
            h)
          (λ t verified k. keeps k)))

  pub answered-Keeps :
      (req resp : Msg) (ds : List Rr) (s : State R)
      → p s.lqueue
      → Keeps p (answered env res rounds call asked_for req resp ds s)
  unfolding answered
  answered-Keeps req resp ds s h = if-Keeps p req.checking_disabled (keeps h) (
      try-Keeps p _ _ (signer_ds-Keeps env p res (res_keeps q) rounds true call.proto _ _ ds s h)
        (λ t ds' k. try-Keeps p _ _ (check_signed-Keeps _ resp ds' t k) (λ u verified l. keeps l)))

  pub undelegated-Keeps :
      (resp : Msg) (s : State R)
      → p s.lqueue
      → Keeps p (undelegated env res rounds call asked_for resp s)
  unfolding undelegated
  undelegated-Keeps resp s h =
      if-Keeps p
        (asked_for.qtype == type_ds && not (is_empty (extract_rr_set resp.ns [] (type_nsec3 ∷ []))))
        (by_question resp.question) (keeps h)
    where
      by_question :
          (qs : List Question)
          → Keeps p (elim qs [
            | [] ↦ none
            | asked ∷ _ ↦ elim (verify_nodata env.nsec3 asked (nsec3_set resp.ns)) [
              | some e ↦ some (s, failed (insecure e))
              | none ↦ some (s, done resp)
            ]
          ])
      by_question [] = stops
      by_question (asked ∷ rest) =
          option-Keeps p (verify_nodata env.nsec3 asked (nsec3_set resp.ns)) (keeps h)
            (λ e. keeps h)

  delegated_ds-Keeps :
      (nsrr : Rr) (resp : Msg) (s : State R)
      → p s.lqueue
      → Keeps p (delegated_ds env res rounds call asked_for nsrr resp s)
  unfolding delegated_ds
  delegated_ds-Keeps nsrr resp s h =
      let nsec_set = extract_rr_set resp.ns nsrr.name (type_nsec ∷ []) in
      if-Keeps p (not (is_empty (extract_rr_set resp.ns [] (type_nsec3 ∷ []))))
        (option-Keeps p (verify_delegation env.nsec3 nsrr.name (nsec3_set resp.ns)) (keeps h)
          (λ e. keeps h))
        (if-Keeps p (not (is_empty nsec_set))
          (if-Keeps p (not (verify_nsec nsrr.rrtype nsec_set)) stops (keeps h)) (keeps h))

  zone_ds-Keeps :
      (nsrr : Rr) (req resp : Msg) (ds : List Rr) (s : State R)
      → p s.lqueue
      → Keeps p (zone_ds env res rounds call asked_for nsrr req resp ds s)
  unfolding zone_ds check_delegation
  zone_ds-Keeps nsrr req resp ds s h = if-Keeps p req.checking_disabled (keeps h) (
      try-Keeps p _ _ (signer_ds-Keeps env p res (res_keeps q) rounds _ call.proto _ _ ds s h)
        (λ t ds' k. try-Keeps p _ _ (check_signed-Keeps _ resp ds' t k) (λ u verified l.
          option-Keeps p verified (keeps l) (λ b. delegated_ds-Keeps nsrr resp u l))))

  pub look_up_hosts-Keeps :
      (cd : Bool) (nsmap : List (Bytes × Bytes)) (hosts : List Bytes) (s : State R)
      → p s.lqueue
      → Keeps p (look_up_hosts env res rounds call asked_for cd nsmap hosts s)
  unfolding look_up_hosts
  look_up_hosts-Keeps cd [] hosts s h = keeps h
  look_up_hosts-Keeps cd ((host, addr) ∷ nsmap) hosts s h =
      if-Keeps p (not (is_empty addr)) (look_up_hosts-Keeps cd nsmap hosts s h) (
        bind-Keeps p _
          (lookup_ns_addr-Keeps env res res_keeps rounds call.proto host call.depth cd q s h)
          (λ t outcome k.
            attempt-Keeps p outcome (λ found. look_up_hosts-Keeps cd nsmap _ t k)
              (λ e. look_up_hosts-Keeps cd nsmap hosts t k)))

  pub descend-Keeps :
      (req : Msg) (servers : AuthServers) (level : ℕ) (ds : List Rr) (s : State R)
      → p s.lqueue
      → Keeps p (descend env res rounds call asked_for req servers level ds s)
  unfolding descend
  descend-Keeps req servers level ds s h =
      if-Keeps p (call.depth == 0) (keeps h) (res_keeps q _ s h)

  pub delegate-Keeps :
      (nsrr : Rr) (key level : ℕ) (req resp : Msg) (ds : List Rr) (hosts : List Bytes) (s : State R)
      → p s.lqueue
      → Keeps p (delegate env res rounds call asked_for nsrr key level req resp ds hosts s)
  unfolding delegate store_zone
  delegate-Keeps nsrr key level req resp ds hosts s h = if-Keeps p (is_empty hosts) (keeps h) (
      try-Keeps p _ _ (zone_ds-Keeps nsrr req resp ds s h)
        (λ t ds' k. descend-Keeps req _ level ds' _ k))
