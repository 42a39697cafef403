-- ===== src/Resolver/Chain/Trust.antt =====
-- What `verifyDNSSEC` has checked when it returns true (resolver.go).
use sdns.Base.{
  ℕ, ◌≡◌, refl, Bool, true, false, ◌==◌, List, [], ◌∷◌, Bytes, bytes_eq, none, some, arith,
  Bool-cases, Option-cases, inl, inr,
}
use sdns.Cache.Key.{hash}
use sdns.Cache.Outcome.{Result-cases}
use sdns.Cache.QueryCache
use sdns.Dns.{Question, Rr, Msg, type_dnskey, rootzone}
use sdns.Dnssec.Keys.{verify_ds}
use sdns.Dnssec.Keys.Anchors.{any_anchored, verify_ds_iff}
use sdns.Dnssec.Signatures.{verify_rrsig}
use sdns.Handler.Env.{State, Proto}
use sdns.Records.{is_empty}
use sdns.Resolver.Chain.{question_of, fetch_keys, check_keys, verify_for, verify_dnssec}
use sdns.Resolver.Env.{Env, Run, Resolver, done, failed, try}
use sdns.Resolver.Roots.{ds_set, zone_keys, verify_root_keys}

-- a result of `try` comes from a result of both steps
pub through_try :
    {R A B : Type 0} (m : Run R A) (f : State R → A → Run R B) {t : State R} {b : B}
    → try m f ≡ some (t, done b)
    → (u : State R) × (a : A) × (m ≡ some (u, done a)) × (f u a ≡ some (t, done b))
unfolding try
through_try none f h = absurd (ground arith)
through_try (some (u, failed e)) f h = absurd (ground arith)
through_try (some (u, done a)) f h = (u, a, refl, h)

module _ {R : Type 0} (env : Env R) where
  -- Keys of a message, one of which a DS record of the parent has the digest of, and with which
  -- `verifyRRSIG` accepts the reply; or a reply to the question for the keys of the root, of which a configured key is one.
  pub data IsTrusted (ds : List Rr) (resp : Msg) : Type 0 where
    by_keys :
        (msg : Msg)
        → any_anchored env.to_ds (zone_keys env.key_tag [] msg.answer) ds ≡ true
        → verify_rrsig env.signatures (zone_keys env.key_tag [] msg.answer) resp ≡ (true, none)
        → IsTrusted ds resp
    by_root :
        (q : Question) (later : List Question)
        → resp.question ≡ q ∷ later
        → (q.qtype == type_dnskey) ≡ true
        → bytes_eq q.name rootzone ≡ true
        → any_anchored env.to_ds
            (zone_keys env.key_tag [] resp.answer)
            (ds_set env.to_ds env.rootkeys)
          ≡ true
        → (verify_rrsig env.signatures (zone_keys env.key_tag [] resp.answer) resp).1 ≡ none
        → IsTrusted ds resp

  module _ (res : Resolver R) where
    check_keys-IsTrusted :
        (key : ℕ) (msg resp : Msg) (ds : List Rr) (s : State R) {t : State R}
        → check_keys env res key msg resp ds s ≡ some (t, done true)
        → IsTrusted ds resp
    unfolding check_keys
    check_keys-IsTrusted key msg resp ds s h =
        let keys = zone_keys env.key_tag [] msg.answer in
        elim (Bool-cases (is_empty keys)) [
          | inl e ↦ absurd (ground arith)
          | inr e ↦ elim (Bool-cases (is_empty ds)) [
            | inl f ↦ absurd (ground arith)
            | inr f ↦ elim (Option-cases (verify_ds env.to_ds keys ds)) [
              | inr (x, g) ↦ absurd (ground arith)
              | inl g ↦ elim (Option-cases (verify_rrsig env.signatures keys resp).1) [
                | inr (x, i) ↦ absurd (ground arith)
                | inl i ↦ by_keys msg ((verify_ds_iff env.to_ds keys ds).0 g) (ground arith)
              ]
            ]
          ]
        ]

    root-IsTrusted :
        (q : Question) (later : List Question) (ds : List Rr) (resp : Msg) {b : Bool}
        → resp.question ≡ q ∷ later
        → (q.qtype == type_dnskey) ≡ true
        → bytes_eq q.name rootzone ≡ true
        → verify_root_keys env.to_ds env.key_tag env.signatures env.rootkeys resp ≡ some b
        → IsTrusted ds resp
    unfolding verify_root_keys
    root-IsTrusted q later ds resp asked is_dnskey is_root h =
        let keys = zone_keys env.key_tag [] resp.answer in
        let dsset = ds_set env.to_ds env.rootkeys in
        elim (Option-cases (verify_ds env.to_ds keys dsset)) [
          | inr (x, g) ↦ absurd (ground arith)
          | inl g ↦ elim (Option-cases (verify_rrsig env.signatures keys resp).1) [
            | inr (x, i) ↦ absurd (ground arith)
            | inl i ↦
                by_root q later asked is_dnskey is_root ((verify_ds_iff env.to_ds keys dsset).0 g) i
          ]
        ]

    verify_for-IsTrusted :
        (q : Question) (later : List Question) (proto : Proto) (signer : Bytes) (resp : Msg)
        (ds : List Rr) (s : State R) {t : State R}
        → resp.question ≡ q ∷ later
        → verify_for env res q proto signer resp ds s ≡ some (t, done true)
        → IsTrusted ds resp
    unfolding verify_for
    verify_for-IsTrusted q later proto signer resp ds s asked h =
        let req = env.new_query signer type_dnskey false in
        let key = hash (question_of signer type_dnskey) false in
        elim (Bool-cases (q.qtype == type_dnskey)) [
          | inl e ↦ elim (Bool-cases (bytes_eq q.name rootzone)) [
            | inl f ↦
                elim (Option-cases
                  (verify_root_keys env.to_ds env.key_tag env.signatures env.rootkeys resp)) [
                    | inl g ↦ absurd (ground arith)
                    | inr (b, g) ↦ root-IsTrusted q later ds resp asked e f g
                  ]
            | inr f ↦ check_keys-IsTrusted key resp resp ds _ (rw (e, f, verify_for) at h)
          ]
          | inr e ↦ elim (Result-cases (QueryCache.get env.lib s.now key req s.qcache).1) [
            | inl (x, g) ↦ check_keys-IsTrusted key x.0 resp ds _ (rw (e, g, verify_for) at h)
            | inr (x, g) ↦
                let (u, msg, i, j) =
                  through_try (fetch_keys env res proto req _) _ (rw (e, g, verify_for) at h) in
                check_keys-IsTrusted key msg resp ds u j
          ]
        ]

    pub verify_dnssec-IsTrusted :
        (proto : Proto) (signer : Bytes) (resp : Msg) (ds : List Rr) (s : State R) {t : State R}
        → verify_dnssec env res proto signer resp ds s ≡ some (t, done true)
        → IsTrusted ds resp
    unfolding verify_dnssec
    verify_dnssec-IsTrusted proto signer resp ds s {t} h = by_question resp.question refl h
      where
        by_question :
            (qs : List Question)
            → resp.question ≡ qs
            → elim qs [ [] ↦ none | q ∷ rest ↦ verify_for env res q proto signer resp ds s ]
              ≡ some (t, done true)
            → IsTrusted ds resp
        by_question [] asked e = absurd (ground arith)
        by_question (q ∷ rest) asked e = verify_for-IsTrusted q rest proto signer resp ds s asked e
