-- ===== src/Handler/Query/Invariance.antt =====
-- A query keeps an invariant of the state (handler.go, `query`).
use mathlib.Core.Path.{subst}
use sdns.Base.{
  ℕ, ◌≡◌, ◌≢◌, refl, ◌∙◌, Bool, true, false, not, ◌&&◌, List, [], ◌∷◌, ◌++◌, bytes_eq, Option, none,
  some, arith, Option-cases, Bool-cases, inl, inr, ◌==◌, map, if◌then◌else◌, is_some,
}
use sdns.Cache.Key.{hash}
use sdns.Cache.NsCache
use sdns.Cache.Outcome.{Result-cases}
use sdns.Cache.QueryCache
use sdns.Dns.{Question, Rr, Msg, type_any, type_hinfo, type_ns, class_inet, rootzone}
use sdns.Handler.Cname.Chains.{additional_answer-Gives}
use sdns.Handler.Env.{
  Env, State, Proto, tcp, default_msg_size, rcode_not_implemented, rcode_server_failure,
  rcode_success, rcode_name_error,
}
use sdns.Records.{is_empty}
use sdns.Handler.Invariant.{
  Gives, gives, anything, bind-Gives, if-Gives, fits_found, notes, Invariant,
}
use sdns.Handler.Prepare.{prepare, handle_failed, Prepared, refused, ready, new_opt}
use sdns.Handler.Query.{
  finish, debug_reply, release, remember, respond, resolve_query, miss, answer_query, query_checked,
  settle, query_for, query_first, set_ttl, query_at, query, resolver_proto, is_udp, is_https, amend,
  blocked_reply,
}

module _ {R : Type 0} (env : Env R) {Inv : State R → Type 0} {asks : Msg → Bool}
    {allowed : ℕ → Bool → Bool} {fit : List Rr → Bool}
    (inv : Invariant env Inv asks allowed fit) where
  -- a request that the resolver takes, where the targets of an answer to `q` can be asked
  pub record IsAsked (q : Question) (req : Msg) : Type 0 where
    pub some_question : req.question ≢ []
    pub asked : asks req ≡ true
    pub may : allowed q.qtype req.checking_disabled ≡ true
    pub noted : is_some (env.no_answer q.name env.config.expire) ≡ true
    pub noted_again : notes env req.question ≡ true

  pub is_asked :
      (q : Question) (qs : List Question) (req : Msg)
      → req.question ≡ q ∷ qs
      → asks req ≡ true
      → is_some (env.no_answer q.name env.config.expire) ≡ true
      → IsAsked q req
  is_asked q qs req e a n = record {
    some_question = rw e (λ n. absurd (cc));
    asked = a;
    may = inv.asks_first q qs req e a;
    noted = n;
    noted_again = rw e n;
  }

  -- the requests that `prepare` passes on ask what the request asks
  prepare-IsAsked :
      (q : Question) (qs : List Question) (req req' : Msg) (opt : Rr) (ds : Bool)
      → prepare env req ≡ ready req' opt ds
      → req.question ≡ q ∷ qs
      → asks req ≡ true
      → is_some (env.no_answer q.name env.config.expire) ≡ true
      → IsAsked q req'
  unfolding prepare
  prepare-IsAsked q qs req req' opt ds h first a n = elim (Option-cases (env.opts.edns0 req)) [
    | inl e ↦
        let more = req.extra ++ new_opt env ∷ [] in
        let same : record req { extra = more } ≡ req' = ground arith in
        subst (IsAsked q) same (is_asked q qs _ first (inv.asks_more more req a) n)
    | inr (old, e) ↦
        let version = env.opts.version (env.opts.set_udp_size default_msg_size old) in
        elim (Bool-cases (not (version == 0))) [
          | inl bad ↦ absurd (ground arith)
          | inr good ↦
              let same : env.opts.put_edns0 opt req ≡ req' = ground arith in
              let kept = inv.question_kept opt req ∙ first in
              subst (IsAsked q) same (is_asked q qs _ kept (inv.asks_kept opt req a) n)
        ]
  ]

  release-Gives :
      (key : ℕ) (s : State R) (msg : Msg) → Inv s → Gives Inv anything (release env key (s, msg))
  unfolding release
  release-Gives key s msg h =
      let (lqueue, e, k) = inv.lqueue_done key s h in rw e (gives {a = msg} k refl)

  remember-Inv : (key : ℕ) (s : State R) → Inv s → Inv (remember env key s)
  unfolding remember
  remember-Inv key s h = inv.ecache_set key s h

  amend_lem :
      (q : Question) (mesg : Msg)
      → is_some (env.no_answer q.name env.config.expire) ≡ true
      → (m : Msg) × (amend env q mesg ≡ some m) × (m.answer ≡ mesg.answer)
  unfolding amend
  amend_lem q mesg n =
      elim (Bool-cases (mesg.rcode == rcode_success && is_empty mesg.answer && is_empty mesg.ns)) [
        | inl e ↦ elim (Option-cases (env.no_answer q.name env.config.expire)) [
          | inl f ↦ absurd (ground arith)
          | inr (r, f) ↦ (record mesg { ns = mesg.ns ++ r ∷ [] }, rw (e, f, amend) refl, refl)
        ]
        | inr e ↦
            let later =
              if mesg.rcode == rcode_name_error
              then record mesg { ns = map (set_ttl env.config.expire) mesg.ns }
              else mesg in
            (later, rw (e, amend) refl, ground arith)
      ]

  finish-Gives :
      (proto : Proto) (q : Question) (cd : Bool) (opt : Rr) (ds : Bool) (s : State R) (msg : Msg)
      → fit msg.answer ≡ true
      → allowed q.qtype cd ≡ true
      → Inv s
      → Gives Inv anything (finish env proto q cd opt ds s msg)
  unfolding finish
  finish-Gives proto q cd opt ds s msg f a h =
      bind-Gives Inv anything anything _
        (additional_answer-Gives env inv (resolver_proto proto) q cd s msg f a h)
        (λ t msg' k w. gives k refl)

  debug_reply-Inv :
      (q : Question) (s : State R) (req : Msg) → Inv s → Inv (debug_reply env q s req).0
  unfolding debug_reply
  debug_reply-Inv q s req h = elim (Bool-cases (bytes_eq q.name rootzone)) [
    | inl e ↦ rw e h
    | inr e ↦
        let key = hash (record { name = q.name; qtype = type_ns; qclass = class_inet }) false in
        let k = inv.ncache_get key s h in
        elim (Result-cases (NsCache.get s.now key s.ncache).1) [
          | inl (ns, f) ↦ rw (e, f, debug_reply) k
          | inr (x, f) ↦ rw (e, f, debug_reply) k
        ]
  ]

  module _ (again : State R → Msg → Option (State R × Msg)) (proto : Proto) (q : Question)
      (again_gives : is_https proto ≡ true
        → (t : State R) (m : Msg) → Inv t
        → m.question ≢ []
        → asks m ≡ true
        → notes env m.question ≡ true
        → Gives Inv anything (again t m)) where
    respond-Gives :
        (key : ℕ) (req : Msg) (opt : Rr) (ds : Bool) (s : State R) (mesg : Msg)
        → IsAsked q req
        → fit mesg.answer ≡ true
        → Inv s
        → Gives Inv anything (respond env again proto q key req opt ds s mesg)
    unfolding respond
    respond-Gives key req opt ds s mesg a f h =
        let (lqueue, e, k) = inv.lqueue_done key s h in
        let (m, amended, same) = amend_lem q mesg a.noted in
        let fits : fit m.answer ≡ true = rw same f in
        let kept = inv.question_kept (env.opts.set_do ds opt) req in
        if-Gives Inv anything (mesg.truncated && is_udp proto) (gives h refl)
          (elim (Bool-cases (mesg.truncated && is_https proto)) [
            | inl retry ↦
                rw (retry, e)
                  (again_gives (ground arith) _ _ k (rw kept a.some_question)
                    (inv.asks_kept (env.opts.set_do ds opt) req a.asked) (rw kept a.noted_again))
            | inr on ↦
                rw (on, amended)
                  (if-Gives Inv anything _ (gives (remember-Inv key s h) refl) (
                    bind-Gives Inv anything anything _
                      (finish-Gives proto q req.checking_disabled opt ds s m fits a.may h)
                      (λ t msg i w. gives (inv.qcache_set key m t fits i) refl)))
          ])

    pub settle-Gives :
        (key : ℕ) (req : Msg) (opt : Rr) (ds : Bool) (t : State R) (found : Option Msg)
        → IsAsked q req
        → fits_found fit found ≡ true
        → Inv t
        → Gives Inv anything (settle env again proto q key req opt ds t found)
    unfolding settle
    settle-Gives key req opt ds t none a f h = gives (remember-Inv key t h) refl
    settle-Gives key req opt ds t (some mesg) a f h = respond-Gives key req opt ds t mesg a f h

    resolve_query-Gives :
        (key : ℕ) (req : Msg) (opt : Rr) (ds : Bool) (s : State R)
        → IsAsked q req
        → Inv s
        → Gives Inv anything (resolve_query env again proto q key req opt ds s)
    unfolding resolve_query
    resolve_query-Gives key req opt ds s a h =
        bind-Gives Inv (fits_found fit) anything _
          (inv.resolves (resolver_proto proto) req _ a.asked (inv.lqueue_add key s h))
          (λ t found k f.
            bind-Gives Inv anything anything _ (settle-Gives key req opt ds t found a f k)
              (λ u msg k' w. release-Gives key u msg k'))

    miss-Gives :
        (key : ℕ) (req : Msg) (opt : Rr) (ds : Bool) (s : State R)
        → IsAsked q req
        → Inv s
        → Gives Inv anything (miss env again proto q key req opt ds s)
    unfolding miss
    miss-Gives key req opt ds s a h =
        let k = inv.ecache_get key s h in
        if-Gives Inv anything _ (gives k refl) (
          if-Gives Inv anything _
            (gives (inv.qcache_set key (blocked_reply env q req) _ (inv.blocked_fits q req) k) refl)
            (resolve_query-Gives key req opt ds _ a k))

    answer_query-Gives :
        (req : Msg) (opt : Rr) (ds : Bool) (s : State R)
        → IsAsked q req
        → Inv s
        → Gives Inv anything (answer_query env again proto q req opt ds s)
    unfolding answer_query
    answer_query-Gives req opt ds s a h =
        let key = hash q req.checking_disabled in
        let w = env.wait key s in
        let h' = inv.waits key s h in
        let k = inv.qcache_get key req w h' in
        elim (Result-cases (QueryCache.get env.lib w.now key req w.qcache).1) [
          | inl ((mesg, rl), e) ↦
              rw (e, answer_query)
                (if-Gives Inv anything _ (gives k refl) (
                  finish-Gives proto q req.checking_disabled opt ds _ (record mesg { id = req.id })
                    (inv.qcache_hit key req mesg rl w h' e) a.may k))
          | inr (x, e) ↦ rw (e, answer_query) (miss-Gives key req opt ds _ a k)
        ]

    query_checked-Gives :
        (s : State R) (p : Prepared)
        → ((req : Msg) (opt : Rr) (ds : Bool) → p ≡ ready req opt ds → IsAsked q req)
        → Inv s
        → Gives Inv anything (query_checked env again proto q s p)
    unfolding query_checked
    query_checked-Gives s (refused req) a h = gives h refl
    query_checked-Gives s (ready req opt ds) a h =
        if-Gives Inv anything (q.qtype == type_any)
          (gives {a = handle_failed env req rcode_not_implemented ds} h refl)
          (if-Gives Inv anything (env.config.debugns && q.qtype == type_hinfo)
            (gives {a = (debug_reply env q s req).1} (debug_reply-Inv q s req h) refl)
            (if-Gives Inv anything (not (bytes_eq q.name rootzone) && not req.recursion_desired)
              (gives {a = handle_failed env req rcode_server_failure ds} h refl)
              (answer_query-Gives req opt ds s (a req opt ds refl) h)))

  query_first-Gives :
      (again : State R → Msg → Option (State R × Msg)) (proto : Proto) (s : State R) (req : Msg)
      (qs : List Question)
      → (is_https proto ≡ true
          → (t : State R) (m : Msg) → Inv t
          → m.question ≢ []
          → asks m ≡ true
          → notes env m.question ≡ true
          → Gives Inv anything (again t m))
      → req.question ≡ qs
      → qs ≢ []
      → asks req ≡ true
      → notes env qs ≡ true
      → Inv s
      → Gives Inv anything (query_first env again proto s req qs)
  unfolding query_first query_for
  query_first-Gives again proto s req [] r e n a w h = absurd (n refl)
  query_first-Gives again proto s req (q ∷ qs) r e n a w h =
      query_checked-Gives again proto q r s (prepare env req)
        (λ req' opt ds p. prepare-IsAsked q qs req req' opt ds p e a w) h

  -- the call over "tcp", which does not ask again
  pub tcp-Gives :
      (s : State R) (req : Msg)
      → req.question ≢ []
      → asks req ≡ true
      → notes env req.question ≡ true
      → Inv s
      → Gives Inv anything (query_at env (λ t m. none) tcp s req)
  unfolding query_at
  tcp-Gives s req n a w h =
      query_first-Gives (λ t m. none) tcp s req req.question (λ p. absurd (cc)) refl n a w h

  -- over every transport
  pub query-Gives :
      (proto : Proto) (s : State R) (req : Msg)
      → req.question ≢ []
      → asks req ≡ true
      → notes env req.question ≡ true
      → Inv s
      → Gives Inv anything (query env proto s req)
  unfolding query query_at
  query-Gives proto s req n a w h =
      query_first-Gives (query_at env (λ t m. none) tcp) proto s req req.question
        (λ p t m k n' a' w'. tcp-Gives t m n' a' w' k) refl n a w h
