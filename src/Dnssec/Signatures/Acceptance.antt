-- ===== src/Dnssec/Signatures/Acceptance.antt =====
-- What `verifyRRSIG` has checked when it accepts, and what it has not (utils.go).
use sdns.Base.{
  ℕ, ◌≤◌, ◌≡◌, ◌≢◌, ◌∙◌, ap, inl, inr, refl, Bool, true, false, List, [], ◌∷◌, ◌++◌, All_at,
  to_lower, none, some, nat_eq, All, arith, Bool-cases, Option-cases,
}
use sdns.Base.Map
use sdns.Dns.{Rr, Msg, Rrsig, Dnskey, type_rrsig}
use sdns.Dnssec.Signatures.{
  SigLib, as_rrsigs, covered_count, is_skipped, check_one, check_all, verify_rrsig, signed_section,
}
use sdns.Records.{extract_rr_set, is_empty}

module _ (lib : SigLib) (rr : List Rr) where
  -- the key has signed the records that the signature covers, and the signature is in its period
  pub record IsSigned (sig : Rrsig) (k : Dnskey) : Type 0 where
    pub present : is_empty (extract_rr_set rr (to_lower sig.owner) (sig.type_covered ∷ [])) ≡ false
    pub verified :
        lib.verify sig k (extract_rr_set rr (to_lower sig.owner) (sig.type_covered ∷ [])) ≡ none
    pub in_period : lib.is_valid_period sig ≡ true

module _ (lib : SigLib) (keys : List (ℕ × Dnskey)) (rr : List Rr) (sigs : List Rrsig) where
  -- a signature that is alone for its type, is not skipped, and names a known key, is good
  abbrev IsChecked : Rrsig → Type 0
  IsChecked sig =
      (k : Dnskey)
      → covered_count sig.type_covered sigs ≤ 1
      → is_skipped sig keys ≡ false
      → Map.lookup sig.key_tag keys ≡ some k
      → IsSigned lib rr sig k

  check_one-IsChecked :
      (sig : Rrsig) (is_last : Bool) (errors : ℕ → Bool)
      → (check_one lib keys rr sigs sig is_last errors).0 ≡ none
      → IsChecked sig
  unfolding check_one
  check_one-IsChecked sig is_last errors h k alone kept known = record {
    present = ground arith;
    verified = ground arith;
    in_period = ground arith;
  }

  -- a round that ends the loop does so with an error or a failure
  check_one_refuses :
      (sig : Rrsig) (is_last : Bool) (errors : ℕ → Bool)
      → (check_one lib keys rr sigs sig is_last errors).0 ≢ some (true, none)
  unfolding check_one
  check_one_refuses sig is_last errors = ground arith

  check_all-IsChecked :
      (errors : ℕ → Bool) (later : List Rrsig)
      → check_all lib keys rr sigs errors later ≡ (true, none)
      → All IsChecked later
  unfolding check_all
  check_all-IsChecked errors [] h = tt
  check_all-IsChecked errors (sig ∷ later) h =
      elim (Option-cases (check_one lib keys rr sigs sig (is_empty later) errors).0) [
        | inl e ↦ (
          check_one-IsChecked sig (is_empty later) errors e,
          check_all-IsChecked (check_one lib keys rr sigs sig (is_empty later) errors).1 later
              (rw (e, check_all) at h),
        )
        | inr (result, e) ↦
            absurd
              (check_one_refuses sig (is_empty later) errors (e ∙ ap some (rw (e, check_all) at h)))
      ]

  check_one_skipped :
      (sig : Rrsig) (is_last : Bool) (errors : ℕ → Bool)
      → is_skipped sig keys ≡ true
      → check_one lib keys rr sigs sig is_last errors ≡ (none, errors)
  unfolding check_one
  check_one_skipped sig is_last errors h = rw h

  check_all_skipped :
      (errors : ℕ → Bool) (later : List Rrsig)
      → All (λ sig. is_skipped sig keys ≡ true) later
      → check_all lib keys rr sigs errors later ≡ (true, none)
  unfolding check_all
  check_all_skipped errors [] h = refl
  check_all_skipped errors (sig ∷ later) h =
      let e = check_one_skipped sig (is_empty later) errors h.0 in
      rw (ap (λ p. p.0) e, check_all) (rw (ap (λ p. p.1) e) (check_all_skipped errors later h.1))

All-IsChecked :
    (lib : SigLib) (keys : List (ℕ × Dnskey)) (msg : Msg) (sigs : List Rrsig)
    → verify_rrsig lib keys msg ≡ (true, none)
    → as_rrsigs (extract_rr_set (signed_section msg) [] (type_rrsig ∷ [])) ≡ some sigs
    → All (IsChecked lib keys (signed_section msg) sigs) sigs
unfolding verify_rrsig
All-IsChecked lib keys msg sigs h e =
    elim (Bool-cases (is_empty (extract_rr_set (signed_section msg) [] (type_rrsig ∷ [])))) [
      | inl nothing ↦ absurd (ground arith)
      | inr something ↦
          check_all-IsChecked lib keys _ sigs _ sigs (rw (something, e, verify_rrsig) at h)
    ]

-- When `verifyRRSIG` accepts, each signature of the message that is alone for its type, that no key
-- excludes by its name, and that names a known key, has been verified with that key over a set of
-- records that is not empty, in its period.
pub verify_rrsig_sound :
    (lib : SigLib) (keys : List (ℕ × Dnskey)) (msg : Msg) (before after : List Rrsig) (sig : Rrsig)
    (k : Dnskey)
    → let rr = signed_section msg in
      verify_rrsig lib keys msg ≡ (true, none)
      → as_rrsigs (extract_rr_set rr [] (type_rrsig ∷ [])) ≡ some (before ++ sig ∷ after)
      → covered_count sig.type_covered (before ++ sig ∷ after) ≤ 1
      → is_skipped sig keys ≡ false
      → Map.lookup sig.key_tag keys ≡ some k
      → IsSigned lib rr sig k
verify_rrsig_sound lib keys msg before after sig k h e =
    All_at (IsChecked lib keys (signed_section msg) (before ++ sig ∷ after)) before after
      (All-IsChecked lib keys msg (before ++ sig ∷ after) h e) k

-- A message that `verifyRRSIG` accepts holds a signature.
pub verify_rrsig_signed :
    (lib : SigLib) (keys : List (ℕ × Dnskey)) (msg : Msg)
    → verify_rrsig lib keys msg ≡ (true, none)
    → is_empty (extract_rr_set (signed_section msg) [] (type_rrsig ∷ [])) ≡ false
unfolding verify_rrsig
verify_rrsig_signed lib keys msg h = ground arith

-- Signatures that some key excludes by its name are passed over: when a message has signatures and
-- all of them are excluded, it is accepted though nothing was verified.
pub verify_rrsig_skipped :
    (lib : SigLib) (keys : List (ℕ × Dnskey)) (msg : Msg) (sigs : List Rrsig)
    → let found = extract_rr_set (signed_section msg) [] (type_rrsig ∷ []) in
      is_empty found ≡ false
      → as_rrsigs found ≡ some sigs
      → All (λ sig. is_skipped sig keys ≡ true) sigs
      → verify_rrsig lib keys msg ≡ (true, none)
unfolding verify_rrsig
verify_rrsig_skipped lib keys msg sigs some_found e h =
    rw (some_found, e, verify_rrsig) (check_all_skipped lib keys _ sigs _ sigs h)
