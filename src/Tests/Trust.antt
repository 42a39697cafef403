-- ===== src/Tests/Trust.antt =====
-- Examples for the checks of DNSSEC in resolver.go: a signed answer below a zone with a DS record.
use sdns.Base.{ℕ, ◌≡◌, refl, true, false, [], ◌∷◌, List, none, some, codes, lower_byte, to_lower}
use sdns.Base.Map
use sdns.Cache.Clock.{truncate}
use sdns.Cache.ErrorCache
use sdns.Cache.Key.{continuation, hash, key_bytes, fnv1, range_bytes}
use sdns.Cache.QueryCache
use sdns.Cache.Shard
use sdns.Cache.Sharded
use sdns.Dns
use sdns.Dns.{Rr, Rdata, Msg, type_ds, type_ns, type_dnskey}
use sdns.Dnssec.Keys
use sdns.Dnssec.Signatures
use sdns.Handler.Env.{State}
use sdns.Records
use sdns.Resolver.Answers
use sdns.Resolver.Answers.{answered}
use sdns.Resolver.Answers.Trust
use sdns.Resolver.Chain
use sdns.Resolver.Chain.Trust as Chains
use sdns.Resolver.Delegations
use sdns.Resolver.Delegations.Trust as Delegated
use sdns.Resolver.Env.{Resolver, Run, try, done}
use sdns.Resolver.Roots
use sdns.Tests.Data.{a_question, a_record, signature_record, request, found}
use sdns.Tests.Queries.{idle}
use sdns.Tests.Servers.{env, call}

program : Unit {0}
unfolding Dns.msg_lib Map.lookup Map.insert Map.remove lower_byte to_lower truncate continuation
    range_bytes key_bytes fnv1 hash Shard.new_shard Shard.get Sharded.index Sharded.size_each
    Sharded.new_shards Sharded.get ErrorCache.new_error_cache QueryCache.new_query_cache
    QueryCache.get Records.extract_rr_set Records.mem_types Keys.verify_ds Keys.check_exponent
    Signatures.as_rrsigs Signatures.covered_count Signatures.has_suffix Signatures.is_skipped
    Signatures.check_with Signatures.check_one Signatures.check_all Signatures.verify_rrsig
    Chain.find_signer Chain.signer_ds Chain.fetch_keys Chain.check_keys Roots.meets_nil
    Chain.verify_for Chain.verify_dnssec Chain.store Roots.zone_keys Roots.verify_root_keys try
    Answers.trim_answer Answers.check_signed Answers.flagged Answers.answered
program = tt

abbrev zone_key : Rr
zone_key = record a_record {
  name = codes "com.";
  rrtype = type_dnskey;
  rdata = Rdata.dnskey 257 8 (codes "key");
}

-- the DS record of com., with the digest of its key
abbrev zone_ds : Rr
zone_ds = record a_record {
  name = codes "com.";
  rrtype = type_ds;
  rdata = Rdata.ds 1 5 (codes "digest");
}

abbrev signed : Msg
signed = record found { answer = a_record ∷ signature_record ∷ [] }

-- every question is for the key
abbrev keys : Resolver ℕ
keys c s = some (s, done (record found { answer = zone_key ∷ [] }))

abbrev result : Run ℕ Msg
result = answered env keys 2 call a_question request signed (zone_ds ∷ []) idle

abbrev state_of : Run ℕ Msg → State ℕ
state_of none = idle
state_of (some (s, a)) = s

abbrev message_of : Run ℕ Msg → Msg
message_of (some (s, done m)) = m
message_of _ = found

result_is : result ≡ some (state_of result, done (message_of result))
unfolding program
result_is = refl

authenticated : (message_of result).authenticated_data ≡ true
unfolding program
authenticated = refl

-- A configured key that does not pack leaves a nil pointer, on which the check of the keys panics.
nil_panics :
    Chain.check_keys env keys 0
      (record found { answer = zone_key ∷ [] })
      signed
      (Roots.ds_set (λ key kind. none) (zone_key ∷ []))
      idle
    ≡ none
unfolding program Roots.ds_set
nil_panics = refl

answered_authenticated_example :
    (u : State ℕ) × (ds : List Rr) × (Chain.signer_ds env keys 2 true call.proto a_question.name
        (Chain.signer_or_empty (Trust.answer_signer env keys 2 call a_question signed))
        (zone_ds ∷ [])
        idle
      ≡ some (u, done ds))
    × (Records.is_empty ds ≡ false)
    × Chains.IsTrusted env ds signed
answered_authenticated_example =
    Trust.answered_authenticated env keys 2 call a_question request signed (message_of result)
      (zone_ds ∷ []) idle (state_of result) refl refl result_is authenticated

-- A reply that comes with the AD flag keeps it where nothing is checked.
flag_passed_on :
    (message_of (
      answered env keys 2 call a_question
        (record request { checking_disabled = true })
        (record found { authenticated_data = true })
        []
        idle)).authenticated_data
    ≡ true
unfolding program
flag_passed_on = refl

-- the signed delegation of a.com.
abbrev delegation : Rr
delegation = record a_record { rrtype = type_ns; rdata = Rdata.ns (codes "b.net.") }

abbrev lower_ds : Rr
lower_ds = record zone_ds { name = codes "a.com." }

abbrev signed_delegation : Msg
signed_delegation = record found {
  answer = [];
  ns =
      delegation
      ∷ lower_ds
      ∷ record signature_record { rdata = Rdata.rrsig type_ds 1 (codes "com.") (codes "good") }
      ∷ [];
}

abbrev delegation_ds : Run ℕ (List Rr)
delegation_ds =
    Delegations.zone_ds env keys 2 call a_question delegation request signed_delegation
      (zone_ds ∷ []) idle

abbrev delegation_state : Run ℕ (List Rr) → State ℕ
delegation_state none = idle
delegation_state (some (s, a)) = s

delegation_is : delegation_ds ≡ some (delegation_state delegation_ds, done (lower_ds ∷ []))
unfolding program Delegations.zone_ds Delegations.check_delegation Delegations.delegated_ds
delegation_is = refl

zone_ds-IsChecked_example :
    (u : State ℕ) × (parent : List Rr) × (Chain.signer_ds env keys 2 true call.proto delegation.name
        (Chain.signer_or_empty
          (Delegated.delegation_signer env keys 2 call a_question signed_delegation))
        (zone_ds ∷ [])
        idle
      ≡ some (u, done parent))
    × Delegated.IsChecked env keys 2 call a_question delegation signed_delegation u parent
        (lower_ds ∷ [])
zone_ds-IsChecked_example =
    Delegated.zone_ds-IsChecked env keys 2 call a_question delegation request signed_delegation
      (zone_ds ∷ []) (lower_ds ∷ []) idle (delegation_state delegation_ds) refl delegation_is
