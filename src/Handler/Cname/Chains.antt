-- ===== src/Handler/Cname/Chains.antt =====
-- The chain of CNAME records (handler.go, `additionalAnswer`).
use mathlib.Core.List.{append_assoc, append-nil}
use sdns.Base.{
  refl, true, Bytes, [], ℕ, zero, suc, ◌≡◌, ◌∙◌, Bool, List, [], ◌++◌, map, Option, none, some,
  arith, Option-cases, Bool-cases, inl, inr,
}
use sdns.Cache.Key.{hash}
use sdns.Cache.Outcome.{Result-cases}
use sdns.Cache.QueryCache
use sdns.Dns.{Question, Rr, Msg}
use sdns.Handler.Cname.{
  keep_found, lookup_cname, follow, additional_answer, answer_found, last_target, cname_depth,
}
use sdns.Handler.Env.{Env, State, Proto}
use sdns.Handler.Invariant.{Gives, gives, anything, bind-Gives, if-Gives, fits_found, Invariant}
use sdns.Records.{is_empty}

module _ {R : Type 0} (env : Env R) where
  module _ {Inv : State R → Type 0} {asks : Msg → Bool} {allowed : ℕ → Bool → Bool}
      {fit : List Rr → Bool} (inv : Invariant env Inv asks allowed fit) where
    keep_found-Gives :
        (key : ℕ) (t : State R) (found : Option Msg)
        → fit [] ≡ true
        → fits_found fit found ≡ true
        → Inv t
        → Gives Inv fit (keep_found env key t found)
    unfolding keep_found
    keep_found-Gives key t none n f h = gives h n
    keep_found-Gives key t (some resp) n f h =
        if-Gives Inv fit (is_empty resp.answer) (gives h n)
          (gives (inv.qcache_set key resp t f h) f)

    lookup_cname-Gives :
        (proto : Proto) (target : Bytes) (q : Question) (cd : Bool) (s : State R) (answer : List Rr)
        → q.name ≡ target
        → last_target none answer ≡ some target
        → fit answer ≡ true
        → allowed q.qtype cd ≡ true
        → Inv s
        → Gives Inv fit (lookup_cname env proto q cd s)
    unfolding lookup_cname
    lookup_cname-Gives proto target q cd s answer n e f a h =
        let key = hash q cd in
        let req = env.new_query q.name q.qtype cd in
        let h' = inv.qcache_get key req s h in
        elim (Result-cases (QueryCache.get env.lib s.now key req s.qcache).1) [
          | inl ((found, rl), g) ↦
              rw (g, lookup_cname) (gives h' (inv.qcache_hit key req found rl s h g))
          | inr (failed, g) ↦
              rw (g, lookup_cname)
                (bind-Gives Inv (fits_found fit) fit _
                  (inv.resolves proto req _ (rw n (inv.asks_target answer target q.qtype cd f e a))
                    h')
                  (λ t found k fits. keep_found-Gives key t found inv.nothing_fits fits k))
        ]

    follow-Gives :
        (depth : ℕ) (proto : Proto) (target : Bytes) (q : Question) (cd : Bool) (s : State R)
        (last answer : List Rr)
        → q.name ≡ target
        → last_target none last ≡ some target
        → fit last ≡ true
        → allowed q.qtype cd ≡ true
        → Inv s
        → Gives Inv anything (follow env depth proto q cd s answer)
    unfolding follow
    follow-Gives zero proto target q cd s last answer n e f a h = gives h refl
    follow-Gives (suc depth) proto target q cd s last answer n e f a h =
        bind-Gives Inv fit anything _ (lookup_cname-Gives proto target q cd s last n e f a h)
          (λ t found k fits. elim (Option-cases (last_target none found)) [
            | inl g ↦ rw g (gives k refl)
            | inr (next, g) ↦ rw g (
                follow-Gives depth proto next (record q { name = next }) cd t found _ refl g fits a
                  k)
          ])

    pub additional_answer-Gives :
        (proto : Proto) (q : Question) (cd : Bool) (s : State R) (msg : Msg)
        → fit msg.answer ≡ true
        → allowed q.qtype cd ≡ true
        → Inv s
        → Gives Inv anything (additional_answer env proto q cd s msg)
    unfolding additional_answer
    additional_answer-Gives proto q cd s msg f a h =
        if-Gives Inv anything (answer_found q.qtype msg.answer) (gives h refl)
          (elim (Option-cases (last_target none msg.answer)) [
            | inl e ↦ rw e (gives h refl)
            | inr (target, e) ↦ rw e (
                bind-Gives Inv anything anything _
                  (follow-Gives cname_depth proto target (record q { name = target; qclass = 1 }) cd
                    s msg.answer msg.answer refl e f a h)
                  (λ t answer k w. gives k refl))
          ])

  -- The answer of the chain begins with the answer that it started from.
  follow_extends :
      (depth : ℕ) (proto : Proto) (q : Question) (cd : Bool) (s t : State R)
      (answer answer' : List Rr)
      → follow env depth proto q cd s answer ≡ some (t, answer')
      → (more : List Rr) × (answer' ≡ answer ++ more)
  unfolding follow
  follow_extends zero proto q cd s t answer answer' h = ([], cc (append-nil answer))
  follow_extends (suc depth) proto q cd s t answer answer' h =
      elim (Option-cases (lookup_cname env proto q cd s)) [
        | inl e ↦ absurd (ground arith)
        | inr ((u, found), e) ↦ elim (Option-cases (last_target none found)) [
          | inl f ↦ (map env.lib.copy found, ground arith)
          | inr (target, f) ↦
              let (more, p) =
                follow_extends depth proto (record q { name = target }) cd u t
                  (answer ++ map env.lib.copy found) answer' (ground arith) in
              (
                map env.lib.copy found ++ more,
                p ∙ append_assoc answer (map env.lib.copy found) more,
              )
        ]
      ]

  -- The records of the reply begin with the answer that was there before, and the rest of the
  -- message is unchanged.
  pub additional_answer_extends :
      (proto : Proto) (q : Question) (cd : Bool) (s t : State R) (msg msg' : Msg)
      → additional_answer env proto q cd s msg ≡ some (t, msg')
      → (more : List Rr) × (msg' ≡ record msg { answer = msg.answer ++ more })
  unfolding additional_answer
  additional_answer_extends proto q cd s t msg msg' h =
      elim (Bool-cases (answer_found q.qtype msg.answer)) [
        | inl e ↦ ([], ground (arith, append-nil msg.answer))
        | inr e ↦ elim (Option-cases (last_target none msg.answer)) [
          | inl f ↦ ([], ground (arith, append-nil msg.answer))
          | inr (target, f) ↦
              let q' = record q { name = target; qclass = 1 } in
              elim (Option-cases (follow env cname_depth proto q' cd s msg.answer)) [
                | inl g ↦ absurd (ground arith)
                | inr ((u, answer), g) ↦
                    let (more, p) =
                      follow_extends cname_depth proto q' cd s u msg.answer answer g in
                    (more, ground arith)
              ]
        ]
      ]
