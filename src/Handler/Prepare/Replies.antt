-- ===== src/Handler/Prepare/Replies.antt =====
-- What a failure reply holds (handler.go, `handleFailed`).
use sdns.Base.{ℕ, ◌≡◌, refl, ◌∙◌, Bool, true, Option-cases, inl, inr}
use sdns.Dns.{Rr, Msg, empty_msg}
use sdns.Handler.Env.{Env}
use sdns.Handler.Prepare.{handle_failed}

-- What the library documents of `SetRcode` and of a write to an OPT record.
pub record ReplyLaws {R : Type 0} (env : Env R) : Type 0 where
  pub set_rcode_rcode : (m req : Msg) (rcode : ℕ) → (env.set_rcode m req rcode).rcode ≡ rcode
  pub set_rcode_id : (m req : Msg) (rcode : ℕ) → (env.set_rcode m req rcode).id ≡ req.id
  pub put_rcode : (opt : Rr) (m : Msg) → (env.opts.put_edns0 opt m).rcode ≡ m.rcode
  pub put_id : (opt : Rr) (m : Msg) → (env.opts.put_edns0 opt m).id ≡ m.id
  pub put_recursion_desired :
      (opt : Rr) (m : Msg) → (env.opts.put_edns0 opt m).recursion_desired ≡ m.recursion_desired
  pub put_recursion_available :
      (opt : Rr) (m : Msg) → (env.opts.put_edns0 opt m).recursion_available ≡ m.recursion_available

-- a reply to the request with the code, from a server that offers recursion
pub record IsFailure (req : Msg) (rcode : ℕ) (m : Msg) : Type 0 where
  pub code : m.rcode ≡ rcode
  pub same_id : m.id ≡ req.id
  pub available : m.recursion_available ≡ true

-- `handleFailed` makes a reply with the code, whether or not the request has an OPT record.
pub handle_failed-IsFailure :
    {R : Type 0} (env : Env R) (laws : ReplyLaws env) (req : Msg) (rcode : ℕ) (dsf : Bool)
    → IsFailure req rcode (handle_failed env req rcode dsf)
unfolding handle_failed
handle_failed-IsFailure env laws req rcode dsf =
    let m = env.set_rcode (record empty_msg { extra = req.extra }) req rcode in
    let m' = record m { recursion_available = true } in
    elim (Option-cases (env.opts.edns0 m')) [
      | inl e ↦
          rw (e, handle_failed)
            (record {
              code = laws.set_rcode_rcode _ req rcode;
              same_id = laws.set_rcode_id _ req rcode;
              available = refl;
            })
      | inr (opt, e) ↦
          let put = env.opts.set_do dsf opt in
          rw (e, handle_failed)
            (record {
              code = laws.put_rcode put m' ∙ laws.set_rcode_rcode _ req rcode;
              same_id = laws.put_id put m' ∙ laws.set_rcode_id _ req rcode;
              available = laws.put_recursion_available put m';
            })
    ]
