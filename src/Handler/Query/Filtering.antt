-- ===== src/Handler/Query/Filtering.antt =====
-- What the end of `query` (handler.go) leaves in a reply when the DO flag is off.
use mathlib.Core.Path.{subst}
use sdns.Base.{
  ap, ◌≡◌, refl, Bool, false, not, List, [], ◌∷◌, ◌++◌, Option, none, some, arith, Option-cases,
  Bool-cases, inl, inr, All, keep,
}
use sdns.Dns.{Question, Rr, Msg}
use sdns.Handler.Cname.{additional_answer}
use sdns.Handler.Cname.Chains.{additional_answer_extends}
use sdns.Handler.Env.{Env, State, Proto}
use sdns.Handler.Query.{finish, resolver_proto}
use sdns.Records.{is_opt, is_dnssec, clear_opt, clear_dnssec}
use sdns.Records.Sections.{clear_dnssec-eq-keep, clear_opt-eq-keep}

All-keep : (p : Rr → Bool) (rs : List Rr) → All (λ r. p r ≡ false) (keep (λ r. not (p r)) rs)
All-keep p [] = tt
All-keep p (r ∷ rs) = elim (Bool-cases (p r)) [
  | inl e ↦ rw e (All-keep p rs)
  | inr e ↦ rw e (e, All-keep p rs)
]

-- a reply without RRSIG, NSEC and NSEC3 records in its answer and authority, whose additional section
-- holds the records of the given one that are not OPT, and then one OPT record
pub record IsFiltered (opt : Rr) (extra : List Rr) (m : Msg) : Type 0 where
  pub answer : All (λ r. is_dnssec r ≡ false) m.answer
  pub authority : All (λ r. is_dnssec r ≡ false) m.ns
  pub additional : m.extra ≡ keep (λ r. not (is_opt r)) extra ++ opt ∷ []

-- the message of an outcome
from_some : {R : Type 0} → Msg → Option (State R × Msg) → Msg
from_some d none = d
from_some d (some (t, m)) = m

module _ {R : Type 0} (env : Env R) where
  cleared-IsFiltered :
      (opt : Rr) (msg : Msg)
      → let cleared = clear_opt (clear_dnssec msg) in
        IsFiltered opt msg.extra (record cleared { extra = cleared.extra ++ opt ∷ [] })
  cleared-IsFiltered opt msg =
      rw (clear_dnssec-eq-keep msg, clear_opt-eq-keep)
        (record {
          answer = All-keep is_dnssec msg.answer;
          authority = All-keep is_dnssec msg.ns;
          additional = refl;
        })

  -- Where the DO flag is off, the last part of a query, from `additionalAnswer` to the OPT record, leaves
  -- no RRSIG, NSEC or NSEC3 record in the answer and the authority section, not even one that the chain
  -- of CNAME records brought in. It leaves the additional section as it is, but for its OPT records,
  -- which give way to the server's own. A truncated reply over UDP does not come to this part.
  pub finish-IsFiltered :
      (proto : Proto) (q : Question) (cd : Bool) (opt : Rr) (s t : State R) (msg m : Msg)
      → finish env proto q cd opt false s msg ≡ some (t, m)
      → IsFiltered (env.opts.set_do false opt) msg.extra m
  unfolding finish from_some
  finish-IsFiltered proto q cd opt s t msg m h =
      elim (Option-cases (additional_answer env (resolver_proto proto) q cd s msg)) [
        | inl e ↦ absurd (ground arith)
        | inr ((u, msg'), e) ↦
            let (more, p) =
              additional_answer_extends env (resolver_proto proto) q cd s u msg msg' e in
            let opt' = env.opts.set_do false opt in
            let cleared = clear_opt (clear_dnssec msg') in
            let same : record cleared { extra = cleared.extra ++ opt' ∷ [] } ≡ m =
              ap (from_some m) (rw (e, finish) at h) in
            subst (IsFiltered opt' msg.extra) same (
              subst
                (λ extra.
                  IsFiltered opt' extra (record cleared { extra = cleared.extra ++ opt' ∷ [] }))
                (ap (λ x. x.extra) p) (cleared-IsFiltered opt' msg'))
      ]
