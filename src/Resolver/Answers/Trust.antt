-- ===== src/Resolver/Answers/Trust.antt =====
-- When an answer is marked as authenticated (resolver.go, `Resolve`).
use sdns.Base.{
  ℕ, ◌≡◌, refl, ◌∙◌, ap, sym, Bool, true, false, not, List, Bytes, bytes_eq, to_lower, Option, none,
  some, is_some, arith, Bool-cases, inl, inr,
}
use sdns.Dns.{Question, Rr, Msg}
use sdns.Handler.Env.{State}
use sdns.Records.{is_empty}
use sdns.Resolver.Answers.{trim_answer, check_signed, flagged, answered}
use sdns.Resolver.Chain.{find_signer, signer_or_empty, signer_ds, verify_dnssec}
use sdns.Resolver.Chain.Trust.{IsTrusted, through_try, verify_dnssec-IsTrusted}
use sdns.Resolver.Env.{Env, Run, Call, Resolver, done, try}

-- trimming leaves the AD flag alone
trim_answer_flag :
    (extra : Bool) (opt : Option Rr) (m : Msg)
    → (trim_answer extra opt m).authenticated_data ≡ m.authenticated_data
unfolding trim_answer
trim_answer_flag true opt m = refl
trim_answer_flag false none m = refl
trim_answer_flag false (some opt) m = refl

-- what a computation returned
abbrev verified_of : {R : Type 0} → Run R (Option Bool) → Bool
verified_of (some (s, done (some b))) = b
verified_of _ = false

abbrev flag_of : {R : Type 0} → Run R Msg → Bool
flag_of (some (s, done m)) = m.authenticated_data
flag_of _ = false

module _ {R : Type 0} (env : Env R) (res : Resolver R) (rounds : ℕ) (call : Call)
    (q : Question) where
  -- the AD flag is set only after a check
  flagged_set :
      (verified : Option Bool) (m : Msg)
      → m.authenticated_data ≡ false
      → (flagged env res rounds call q verified m).authenticated_data ≡ true
      → verified ≡ some true
  unfolding flagged
  flagged_set none m h e = absurd (ground arith)
  flagged_set (some b) m h e = ap some e

  returned_set :
      (extra : Bool) (opt : Option Rr) (verified : Option Bool) (resp m : Msg) (v t : State R)
      → ◌≡◌ {A = Run R Msg}
          (some (v, done (trim_answer extra opt (flagged env res rounds call q verified resp))))
          (some (t, done m))
      → resp.authenticated_data ≡ false
      → m.authenticated_data ≡ true
      → verified ≡ some true
  returned_set extra opt verified resp m v t h unset set =
      let same = trim_answer_flag extra opt (flagged env res rounds call q verified resp) in
      flagged_set verified resp unset (sym same ∙ ap flag_of h ∙ set)

  -- the signer of the answer to the question
  abbrev pub answer_signer : Msg → Option Bytes
  answer_signer resp = find_signer (λ r. bytes_eq (to_lower r.name) (to_lower q.name)) resp.answer

  -- the checks of an answer
  abbrev checked_answer : Msg → Msg → State R → List Rr → Run R Msg
  checked_answer req resp t ds =
      try (check_signed env res rounds call q (answer_signer resp) resp ds t) (λ u verified. some (
        u,
        done (trim_answer call.extra (env.edns0 req) (flagged env res rounds call q verified resp)),
      ))

  answered_checked :
      (req resp : Msg) (ds : List Rr) (s : State R)
      → req.checking_disabled ≡ false
      → answered env res rounds call q req resp ds s
        ≡ try
            (signer_ds env res rounds true call.proto q.name
              (signer_or_empty (answer_signer resp))
              ds
              s)
            (checked_answer req resp)
  unfolding answered
  answered_checked req resp ds s cd = ground arith

  check_signed_set :
      (signer : Option Bytes) (resp : Msg) (ds : List Rr) (s : State R) {t : State R}
      → check_signed env res rounds call q signer resp ds s ≡ some (t, done (some true))
      → (is_empty ds ≡ false) × IsTrusted env ds resp
  unfolding check_signed
  check_signed_set signer resp ds s h = elim (Bool-cases (is_empty ds)) [
    | inl e ↦ absurd (ground arith)
    | inr e ↦ elim (Bool-cases (not (is_some signer))) [
      | inl f ↦ absurd (ground arith)
      | inr f ↦
          let (u, b, i, j) =
            through_try (verify_dnssec env res call.proto (signer_or_empty signer) resp ds s) _
              (rw (e, f, check_signed) at h) in
          (
            e,
            verify_dnssec-IsTrusted env res call.proto (signer_or_empty signer) resp ds s
                (i ∙ ap (λ c. some (u, done c)) (ap verified_of j)),
          )
    ]
  ]

  -- Where the request has no CD flag and the reply came without the AD flag: an answer that is returned
  -- with the AD flag has been checked. The DS records for the signer of the answer were found, some of
  -- them has the digest of a key of the zone, and `verifyRRSIG` accepts the reply with these keys; or the
  -- reply has the keys of the root, of which a configured key is one. `verifyRRSIG` also accepts a reply
  -- of which it passes over every signature.
  pub answered_authenticated :
      (req resp m : Msg) (ds : List Rr) (s t : State R)
      → req.checking_disabled ≡ false
      → resp.authenticated_data ≡ false
      → answered env res rounds call q req resp ds s ≡ some (t, done m)
      → m.authenticated_data ≡ true
      → (u : State R) × (ds' : List Rr) × (signer_ds env res rounds true call.proto q.name
            (signer_or_empty (answer_signer resp))
            ds
            s
          ≡ some (u, done ds'))
        × (is_empty ds' ≡ false)
        × IsTrusted env ds' resp
  answered_authenticated req resp m ds s t cd unset h set =
      let signer = answer_signer resp in
      let (u, ds', e, f) =
        through_try (signer_ds env res rounds true call.proto q.name (signer_or_empty signer) ds s)
          (checked_answer req resp) (sym (answered_checked req resp ds s cd) ∙ h) in
      let (v, verified, i, j) =
        through_try (check_signed env res rounds call q signer resp ds' u) _ f in
      let checked = returned_set call.extra (env.edns0 req) verified resp m v t j unset set in
      let (n, k) = check_signed_set signer resp ds' u (i ∙ ap (λ b. some (v, done b)) checked) in
      (u, ds', e, n, k)
