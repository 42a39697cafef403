-- ===== src/Dnssec/Signatures.antt =====
-- utils.go: the signature check `verifyRRSIG`. The library's `Verify`
-- and `ValidityPeriod` and the decoding of base64 are parameters.
pub mod Acceptance
use sdns.Base.{
  ℕ, suc, ◌+◌, Bool, true, false, not, ◌&&◌, ◌||◌, ◌==◌, List, [], ◌∷◌, ◌++◌, Bytes, bytes_eq,
  to_lower, codes, Option, none, some, if◌then◌else◌, length, ltb, nat_eq, ◌>>=◌,
}
use sdns.Base.Map
use sdns.Dns.{Rr, Msg, Rrsig, Dnskey, as_rrsig, type_rrsig}
use sdns.Dnssec.Errors.{
  SecError, no_signatures, missing_signed, missing_dnskey, invalid_signature_period, signature,
  type_assertion,
}
use sdns.Dnssec.Keys.{check_exponent}
use sdns.Records.{extract_rr_set, is_empty, mem_types}

-- `RRSIG.Verify`, with the code of its error, `RRSIG.ValidityPeriod` at the time of the call, and
-- `fromBase64`
pub record SigLib : Type 0 where
  pub verify : Rrsig → Dnskey → List Rr → Option ℕ
  pub is_valid_period : Rrsig → Bool
  pub from_base64 : Bytes → Option Bytes

-- the type assertions of the first loop; one that fails panics
unfoldable pub as_rrsigs : List Rr → Option (List Rrsig)
as_rrsigs [] = some []
as_rrsigs (r ∷ rs) = as_rrsig r >>= λ sig. as_rrsigs rs >>= λ sigs. some (sig ∷ sigs)

-- `types[sig.TypeCovered]` after the first loop
unfoldable pub covered_count : ℕ → List Rrsig → ℕ
covered_count t [] = 0
covered_count t (sig ∷ sigs) =
    if sig.type_covered == t then suc (covered_count t sigs) else covered_count t sigs

-- `strings.HasSuffix`
unfoldable pub has_suffix : Bytes → Bytes → Bool
has_suffix [] suffix = is_empty suffix
has_suffix (c ∷ s) suffix = bytes_eq (c ∷ s) suffix || has_suffix s suffix

-- the loop over the keys that skips a signature: some key is of another zone, or not the signer
unfoldable pub is_skipped : Rrsig → List (ℕ × Dnskey) → Bool
unfolding has_suffix
is_skipped sig [] = false
is_skipped sig ((tag, k) ∷ keys) =
    not (has_suffix sig.owner k.owner)
    || not (bytes_eq sig.signer_name k.owner)
    || is_skipped sig keys

-- the algorithms of the switch: RSASHA1, RSASHA1NSEC3SHA1, RSASHA256, RSASHA512, RSAMD5
abbrev pub is_rsa : ℕ → Bool
is_rsa algorithm = mem_types algorithm (5 ∷ 7 ∷ 8 ∷ 10 ∷ 1 ∷ [])

module _ (lib : SigLib) (keys : List (ℕ × Dnskey)) (rr : List Rr) (sigs : List Rrsig) where
  -- What one round decides: to return, or to go on with a new `typesErrors`.
  abbrev pub Verdict : Type 0
  Verdict = Option (Bool × Option SecError)

  -- `typesErrors[t] = b`
  abbrev pub mark : ℕ → Bool → (ℕ → Bool) → ℕ → Bool
  mark t b errors u = if t == u then b else errors u

  -- the check of one signature by its key, with whether it counts as an error of its type
  unfoldable pub check_with : Rrsig → Dnskey → List Rr → (ℕ → Bool) → Verdict × (ℕ → Bool)
  unfolding covered_count mem_types
  check_with sig k rest errors =
      let several = ltb 1 (covered_count sig.type_covered sigs) in
      if is_rsa k.algorithm && not (check_exponent (lib.from_base64 k.public_key))
      then (some (false, none), errors)
      else elim (lib.verify sig k rest) [
        | some e ↦
            if not (errors sig.type_covered) && several
            then (none, mark sig.type_covered true errors)
            else (some (false, some (signature e)), errors)
        | none ↦
            if not (lib.is_valid_period sig)
            then (if several
                then (none, errors)
                else (some (false, some invalid_signature_period), errors))
            else (none, mark sig.type_covered false errors)
      ]

  -- one round of the loop over the signatures; `is_last` is `i == len(sigs)-1`
  unfoldable pub check_one : Rrsig → Bool → (ℕ → Bool) → Verdict × (ℕ → Bool)
  unfolding check_with is_skipped extract_rr_set
  check_one sig is_last errors =
      let rest = extract_rr_set rr (to_lower sig.owner) (sig.type_covered ∷ []) in
      if is_skipped sig keys
      then (none, errors)
      else if is_empty rest
      then (some (false, some missing_signed), errors)
      else elim (Map.lookup sig.key_tag keys) [
        | none ↦ if not is_last then (none, errors) else (some (false, some missing_dnskey), errors)
        | some k ↦ check_with sig k rest errors
      ]

  unfoldable pub check_all : (ℕ → Bool) → List Rrsig → Bool × Option SecError
  check_all errors [] = (true, none)
  check_all errors (sig ∷ later) =
      let (verdict, errors') = check_one sig (is_empty later) errors in
      let rest = check_all errors' later in elim verdict [ some result ↦ result | none ↦ rest ]

-- the records that are checked: the answer, or the authority section if that is empty
abbrev pub signed_section : Msg → List Rr
signed_section msg = if is_empty msg.answer then msg.ns else msg.answer

-- `verifyRRSIG`
unfoldable pub verify_rrsig : SigLib → List (ℕ × Dnskey) → Msg → Bool × Option SecError
unfolding extract_rr_set as_rrsigs
verify_rrsig lib keys msg =
    let rr = signed_section msg in
    let found = extract_rr_set rr [] (type_rrsig ∷ []) in
    if is_empty found then (false, some no_signatures) else elim (as_rrsigs found) [
      | none ↦ (false, some type_assertion)
      | some sigs ↦ check_all lib keys rr sigs (λ t. false) sigs
    ]
