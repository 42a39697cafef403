-- ===== src/Resolver/Delegations/Trust.antt =====
-- What holds of a delegation below which the resolution goes on (resolver.go, `Resolve`).
use mathlib.Core.Path.{subst}
use sdns.Base.{
  ℕ, ◌≡◌, ap, Bool, true, false, not, ◌==◌, List, [], ◌∷◌, Bytes, Option, none, some, is_some,
  arith, Bool-cases, Option-cases, inl, inr,
}
use sdns.Dns.{Question, Rr, Msg, type_ds, type_nsec, type_nsec3}
use sdns.Dnssec.Nsec3.{verify_delegation}
use sdns.Handler.Env.{State}
use sdns.Records.{is_empty, extract_rr_set}
use sdns.Resolver.Answers.{nsec3_set, check_signed}
use sdns.Resolver.Chain.{find_signer, signer_or_empty, signer_ds, verify_dnssec}
use sdns.Resolver.Chain.Trust.{through_try}
use sdns.Resolver.Delegations.{verify_nsec, delegated_ds, check_delegation, zone_ds}
use sdns.Resolver.Env.{Env, Run, Call, Resolver, done}

module _ {R : Type 0} (env : Env R) where
  -- where the DS records for a delegated zone come from: the reply, or a proof that there are none
  pub data IsProved (nsrr : Rr) (resp : Msg) : List Rr → Type 0 where
    by_reply : IsProved nsrr resp (extract_rr_set resp.ns nsrr.name (type_ds ∷ []))
    by_nsec3 :
        verify_delegation env.nsec3 nsrr.name (nsec3_set resp.ns) ≡ none → IsProved nsrr resp []
    by_nsec :
        verify_nsec nsrr.rrtype (extract_rr_set resp.ns nsrr.name (type_nsec ∷ [])) ≡ true
        → IsProved nsrr resp []

  module _ (res : Resolver R) (rounds : ℕ) (call : Call) (q : Question) where
    -- the signer of a delegation
    abbrev pub delegation_signer : Msg → Option Bytes
    delegation_signer resp = find_signer (λ r. true) resp.ns

    abbrev ds_of : List Rr → Run R (List Rr) → List Rr
    ds_of ds (some (s, done found)) = found
    ds_of ds _ = ds

    delegated_ds-IsProved :
        (nsrr : Rr) (resp : Msg) (ds : List Rr) (s t : State R)
        → delegated_ds env res rounds call q nsrr resp s ≡ some (t, done ds)
        → IsProved nsrr resp ds
    unfolding delegated_ds
    delegated_ds-IsProved nsrr resp ds s t h =
        let nsec_set = extract_rr_set resp.ns nsrr.name (type_nsec ∷ []) in
        elim (Bool-cases (not (is_empty (extract_rr_set resp.ns [] (type_nsec3 ∷ []))))) [
          | inl e ↦
              elim (Option-cases (verify_delegation env.nsec3 nsrr.name (nsec3_set resp.ns))) [
                | inl f ↦ from_nothing (ap (ds_of ds) (rw (e, f, delegated_ds) at h)) (by_nsec3 f)
                | inr (x, f) ↦ absurd (ground arith)
              ]
          | inr e ↦ elim (Bool-cases (not (is_empty nsec_set))) [
            | inl f ↦ elim (Bool-cases (verify_nsec nsrr.rrtype nsec_set)) [
              | inl g ↦ from_nothing (ap (ds_of ds) (rw (e, f, g, delegated_ds) at h)) (by_nsec g)
              | inr g ↦ absurd (ground arith)
            ]
            | inr f ↦ from_reply (ap (ds_of ds) (rw (e, f, delegated_ds) at h))
          ]
        ]
      where
        from_nothing : [] ≡ ds → IsProved nsrr resp [] → IsProved nsrr resp ds
        from_nothing e p = subst (IsProved nsrr resp) e p

        from_reply : extract_rr_set resp.ns nsrr.name (type_ds ∷ []) ≡ ds → IsProved nsrr resp ds
        from_reply e = subst (IsProved nsrr resp) e by_reply

    -- what the checks of a delegation leave: a parent zone without DS records, or a proof after
    -- `verifyDNSSEC` has returned without an error
    pub data IsChecked (nsrr : Rr) (resp : Msg) (u : State R) (parent : List Rr)
        : List Rr → Type 0 where
      unsigned_parent : is_empty parent ≡ true → IsChecked nsrr resp u parent parent
      signed_parent :
          {ds : List Rr} (v : State R) (verified : Bool)
          → is_empty parent ≡ false
          → verify_dnssec env res call.proto
              (signer_or_empty (delegation_signer resp))
              resp
              parent
              u
            ≡ some (v, done verified)
          → IsProved nsrr resp ds
          → IsChecked nsrr resp u parent ds

    after_check :
        (nsrr : Rr) (resp : Msg) (parent ds : List Rr) (u v t : State R) (verified : Option Bool)
        → check_signed env res rounds call q (delegation_signer resp) resp parent u
          ≡ some (v, done verified)
        → ◌≡◌ {A = Run R (List Rr)}
            (elim verified [
              | none ↦ some (v, done parent)
              | some _ ↦ delegated_ds env res rounds call q nsrr resp v
            ])
            (some (t, done ds))
        → IsChecked nsrr resp u parent ds
    unfolding check_signed
    after_check nsrr resp parent ds u v t none h k = elim (Bool-cases (is_empty parent)) [
      | inl e ↦ subst (IsChecked nsrr resp u parent) (ap (ds_of parent) k) (unsigned_parent e)
      | inr e ↦ elim (Bool-cases (not (is_some (delegation_signer resp)))) [
        | inl f ↦ absurd (ground arith)
        | inr f ↦
            let (w, b, i, j) =
              through_try
                (verify_dnssec env res call.proto (signer_or_empty (delegation_signer resp)) resp
                  parent u)
                _ (rw (e, f, check_signed) at h) in
            absurd (ground arith)
      ]
    ]
    after_check nsrr resp parent ds u v t (some verified) h k =
        elim (Bool-cases (is_empty parent)) [
          | inl e ↦ absurd (ground arith)
          | inr e ↦ elim (Bool-cases (not (is_some (delegation_signer resp)))) [
            | inl f ↦ absurd (ground arith)
            | inr f ↦
                let (w, b, i, j) =
                  through_try
                    (verify_dnssec env res call.proto (signer_or_empty (delegation_signer resp))
                      resp parent u)
                    _ (rw (e, f, check_signed) at h) in
                signed_parent w b e i (delegated_ds-IsProved nsrr resp ds v t k)
          ]
        ]

    -- Where the request has no CD flag: the DS records for a delegated zone are found only after those
    -- for the signer of the delegation. If there are none of the latter, there are none for the zone.
    -- Otherwise `verifyDNSSEC` has returned for the delegation without an error, and the DS records are
    -- those of the reply, or none where its NSEC3 records, or an NSEC record, show that there are none.
    pub zone_ds-IsChecked :
        (nsrr : Rr) (req resp : Msg) (ds ds' : List Rr) (s t : State R)
        → req.checking_disabled ≡ false
        → zone_ds env res rounds call q nsrr req resp ds s ≡ some (t, done ds')
        → (u : State R) × (parent : List Rr) × (signer_ds env res rounds
              (not (q.qtype == type_ds))
              call.proto
              nsrr.name
              (signer_or_empty (delegation_signer resp))
              ds
              s
            ≡ some (u, done parent))
          × IsChecked nsrr resp u parent ds'
    unfolding zone_ds check_delegation
    zone_ds-IsChecked nsrr req resp ds ds' s t cd h =
        let signer = delegation_signer resp in
        let checked : check_delegation env res rounds call q nsrr resp ds s ≡ some (t, done ds') =
          ground arith in
        let (u, parent, e, f) =
          through_try
            (signer_ds env res rounds (not (q.qtype == type_ds)) call.proto nsrr.name
              (signer_or_empty signer) ds s)
            _ checked in
        let (v, verified, i, j) =
          through_try (check_signed env res rounds call q signer resp parent u) _ f in
        (u, parent, e, after_check nsrr resp parent ds' u v t verified i j)
