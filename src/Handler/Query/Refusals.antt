-- ===== src/Handler/Query/Refusals.antt =====
-- The refusals of a request (handler.go, `query`).
use sdns.Base.{
  ℕ, ◌≡◌, refl, ap, ◌∙◌, Bool, true, false, not, ◌&&◌, ◌==◌, List, ◌∷◌, bytes_eq, Option, none,
  some, if◌then◌else◌, arith, Option-cases, Bool-cases, inl, inr,
}
use sdns.Dns.{Question, Rr, Msg, type_any, rootzone}
use sdns.Handler.Env.{
  Env, State, Proto, default_msg_size, rcode_bad_vers, rcode_not_implemented, rcode_server_failure,
  tcp,
}
use sdns.Handler.Prepare.{prepare, handle_failed, Prepared, refused, ready}
use sdns.Handler.Prepare.Replies.{ReplyLaws, IsFailure, handle_failed-IsFailure}
use sdns.Handler.Query.{query, query_at, query_first, query_for, query_checked}

module _ {R : Type 0} (env : Env R) where
  -- the request has an OPT record with a version other than 0
  abbrev pub has_bad_version : Option Rr → Bool
  has_bad_version none = false
  has_bad_version (some opt) =
      not (env.opts.version (env.opts.set_udp_size default_msg_size opt) == 0)

  -- the code with which a request is refused, if it is
  abbrev pub refusal : Question → Msg → Option ℕ
  refusal q req =
      if has_bad_version (env.opts.edns0 req)
      then some rcode_bad_vers
      else if q.qtype == type_any
      then some rcode_not_implemented
      else if not (bytes_eq q.name rootzone) && not req.recursion_desired
      then some rcode_server_failure
      else none

  IsPrepared : (laws : ReplyLaws env) (req : Msg) → Prepared → Type 0
  IsPrepared laws req (refused req') =
      (has_bad_version (env.opts.edns0 req) ≡ true) × (req'.id ≡ req.id)
  IsPrepared laws req (ready req' opt ds) =
      (has_bad_version (env.opts.edns0 req) ≡ false)
      × (req'.id ≡ req.id)
      × (req'.recursion_desired ≡ req.recursion_desired)

  prepare_lem : (laws : ReplyLaws env) (req : Msg) → IsPrepared laws req (prepare env req)
  unfolding prepare IsPrepared
  prepare_lem laws req = elim (Option-cases (env.opts.edns0 req)) [
    | inl e ↦ rw (e, prepare) (rw e refl, refl, refl)
    | inr (opt, e) ↦ elim (Bool-cases (has_bad_version (some opt))) [
      | inl bad ↦ rw (e, prepare, bad) (rw e bad, laws.put_id _ req)
      | inr good ↦
          rw (e, prepare, good) (rw e good, laws.put_id _ req, laws.put_recursion_desired _ req)
    ]
  ]

  transfer :
      (laws : ReplyLaws env) (req req' : Msg) (rcode : ℕ) (dsf : Bool)
      → req'.id ≡ req.id
      → IsFailure req rcode (handle_failed env req' rcode dsf)
  transfer laws req req' rcode dsf i =
      let f = handle_failed-IsFailure env laws req' rcode dsf in
      record { code = f.code; same_id = f.same_id ∙ i; available = f.available }

  query_checked_refuses :
      (laws : ReplyLaws env) (again : State R → Msg → Option (State R × Msg)) (proto : Proto)
      (q : Question) (s : State R) (req : Msg) (rcode : ℕ) (p : Prepared)
      → env.config.debugns ≡ false
      → IsPrepared laws req p
      → refusal q req ≡ some rcode
      → (msg : Msg) × (query_checked env again proto q s p ≡ some (s, msg))
        × IsFailure req rcode msg
  unfolding query_checked IsPrepared
  query_checked_refuses laws again proto q s req rcode (refused req') d (bad, i) r =
      (handle_failed env req' rcode false, ground arith, transfer laws req req' rcode false i)
  query_checked_refuses laws again proto q s req rcode (ready req' opt ds) d (good, i, same) r =
      (handle_failed env req' rcode ds, ground arith, transfer laws req req' rcode ds i)

  -- With the debugging of nameservers off, and a library whose writes keep the fields of a message:
  -- a request with an unknown EDNS version, for the type ANY, or for a name other than the root
  -- with no recursion desired, gets a failure reply with the code for it, and no part of the state
  -- changes.
  pub query_refuses :
      (laws : ReplyLaws env) (proto : Proto) (q : Question) (qs : List Question) (s : State R)
      (req : Msg) (rcode : ℕ)
      → env.config.debugns ≡ false
      → req.question ≡ q ∷ qs
      → refusal q req ≡ some rcode
      → (msg : Msg) × (query env proto s req ≡ some (s, msg)) × IsFailure req rcode msg
  unfolding query query_at query_for
  query_refuses laws proto q qs s req rcode d asked r =
      let (msg, e, f) =
        query_checked_refuses laws (query_at env (λ t m. none) tcp) proto q s req rcode
          (prepare env req) d (prepare_lem laws req) r in
      (msg, ap (query_first env (query_at env (λ t m. none) tcp) proto s req) asked ∙ e, f)
