-- ===== src/Tests/Proofs.antt =====
-- Examples for the DNSSEC checks of utils.go and nsec3.go. A name is split at its labels by hand,
-- and a signature is good when its text says so.
use sdns.Base.{
  ℕ, ◌≡◌, ◌↔◌, ◌⊎◌, refl, true, false, [], ◌∷◌, List, Bytes, codes, some, none, nat_eq, bytes_eq,
  if◌then◌else◌, to_lower, lower_byte, arith,
}
use sdns.Base.Map
use sdns.Dns.{
  Question, Rr, Rdata, Dnskey, Rrsig, Nsec3, Msg, type_a, type_ns, type_ds, type_soa, type_cname,
}
use sdns.Dnssec.Keys.{ToDs, verify_ds, check_exponent}
use sdns.Dnssec.Keys.Anchors
use sdns.Dnssec.Nsec3.{
  NsecLib, suffix, types_set, find_matching, find_coverer, encloser_from, find_closest_encloser,
  verify_opt_out, verify_nodata, verify_name_error, verify_delegation,
}
use sdns.Dnssec.Nsec3.Verdicts
use sdns.Dnssec.Signatures
use sdns.Dnssec.Signatures.{SigLib, verify_rrsig, signed_section}
use sdns.Dnssec.Signatures.Acceptance
use sdns.Records
use sdns.Tests.Data.{a_question, a_record, found, signature_record}

program : Unit {0}
unfolding Map.lookup to_lower lower_byte Records.extract_rr_set Records.mem_types suffix types_set
    find_matching find_coverer encloser_from find_closest_encloser verify_opt_out verify_nodata
    verify_name_error verify_delegation verify_ds check_exponent Signatures.as_rrsigs
    Signatures.covered_count Signatures.has_suffix Signatures.is_skipped Signatures.check_with
    Signatures.check_one Signatures.check_all verify_rrsig
program = tt

-- the zone com. with a hashed name for each text
abbrev nsec_lib : NsecLib
nsec_lib = record {
  split = λ name. 0 ∷ 2 ∷ [];
  is_match = λ n name. bytes_eq n.hashes name;
  is_cover = λ n name. bytes_eq n.owner name;
}

-- matches com. and covers a.com. with Opt-Out
abbrev apex : Nsec3
apex = record {
  owner = codes "a.com.";
  flags = 1;
  type_bit_map = type_ns ∷ type_soa ∷ [];
  hashes = codes "com.";
}

abbrev ds_question : Question
ds_question = record a_question { qtype = type_ds }

verify_nodata_iff_example : (verify_nodata nsec_lib ds_question (apex ∷ []) ≡ none) ↔ (
    ((types : List ℕ) × (find_matching nsec_lib ds_question.name (apex ∷ []) ≡ some types)
      × (types_set types (ds_question.qtype ∷ type_cname ∷ []) ≡ false))
    ⊎ ((find_matching nsec_lib ds_question.name (apex ∷ []) ≡ none)
        × (ds_question.qtype ≡ type_ds)
        × Verdicts.OptsOut nsec_lib (apex ∷ []) ds_question.name))
verify_nodata_iff_example = Verdicts.verify_nodata_iff nsec_lib (apex ∷ []) ds_question

nodata_accepted : verify_nodata nsec_lib ds_question (apex ∷ []) ≡ none
unfolding program
nodata_accepted = refl

verify_delegation_iff_example : (verify_delegation nsec_lib (codes "com.") (apex ∷ []) ≡ none) ↔ (
    ((types : List ℕ) × (find_matching nsec_lib (codes "com.") (apex ∷ []) ≡ some types)
      × (types_set types (type_ns ∷ []) ≡ true)
      × (types_set types (type_ds ∷ type_soa ∷ []) ≡ false))
    ⊎ ((find_matching nsec_lib (codes "com.") (apex ∷ []) ≡ none)
        × Verdicts.OptsOut nsec_lib (apex ∷ []) (codes "com.")))
verify_delegation_iff_example = Verdicts.verify_delegation_iff nsec_lib (apex ∷ []) (codes "com.")

abbrev key : Dnskey
key = record { owner = codes "com."; flags = 257; algorithm = 13; public_key = codes "key" }

abbrev to_ds : ToDs
to_ds k digest_type =
    some
      (record { owner = k.owner; key_tag = 1; digest_type = digest_type; digest = codes "digest" })

abbrev ds_record : Rr
ds_record = record a_record { rrtype = type_ds; rdata = Rdata.ds 1 2 (codes "digest") }

verify_ds_iff_example :
    (verify_ds to_ds ((1, key) ∷ []) (ds_record ∷ []) ≡ none)
    ↔ (Anchors.any_anchored to_ds ((1, key) ∷ []) (ds_record ∷ []) ≡ true)
verify_ds_iff_example = Anchors.verify_ds_iff to_ds ((1, key) ∷ []) (ds_record ∷ [])

ds_accepted : verify_ds to_ds ((1, key) ∷ []) (ds_record ∷ []) ≡ none
unfolding program
ds_accepted = refl

abbrev sig_lib : SigLib
sig_lib = record {
  verify = λ sig k rs. if bytes_eq sig.signature (codes "good") then none else some 1;
  is_valid_period = λ sig. true;
  from_base64 = λ s. none;
}

abbrev signed : Msg
signed = record found { answer = a_record ∷ signature_record ∷ [] }

abbrev sig : Rrsig
sig = record {
  owner = codes "a.com.";
  type_covered = type_a;
  key_tag = 1;
  signer_name = codes "com.";
  signature = codes "good";
}

verify_rrsig_sound_example : Acceptance.IsSigned sig_lib signed.answer sig key
unfolding program
verify_rrsig_sound_example =
    Acceptance.verify_rrsig_sound sig_lib ((1, key) ∷ []) signed [] [] sig key refl refl
      (omega arith) refl refl

-- a forged signature, and a key whose zone is not the signer's name
abbrev forged : Msg
forged = record found {
  answer =
      a_record
      ∷ record signature_record { rdata = Rdata.rrsig type_a 1 (codes "net.") (codes "bad") }
      ∷ [];
}

verify_rrsig_skipped_example : verify_rrsig sig_lib ((1, key) ∷ []) forged ≡ (true, none)
unfolding program
verify_rrsig_skipped_example =
    Acceptance.verify_rrsig_skipped sig_lib ((1, key) ∷ []) forged
      (record sig { signer_name = codes "net."; signature = codes "bad" } ∷ []) refl refl (refl, tt)

-- 65537 as the exponent, before a modulus of 64 bytes
abbrev key_buffer : Bytes
key_buffer =
    3 ∷ 1 ∷ 0 ∷ 1 ∷ codes "1234567890123456789012345678901234567890123456789012345678901234"
