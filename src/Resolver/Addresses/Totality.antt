-- ===== src/Resolver/Addresses/Totality.antt =====
-- The lookup of an address ends, where `Resolve` does (resolver.go, `lookupNSAddr`).
use sdns.Base.{
  ℕ, zero, suc, ◌-◌, ◌<◌, ◌≤◌, ◌≡◌, refl, Bool, true, false, not, ◌&&◌, ◌||◌, ◌==◌, List, [], ◌∷◌,
  Bytes, some, if◌then◌else◌, is_some, arith, Option-cases, inl, inr,
}
use sdns.Cache.ErrorCache
use sdns.Cache.ErrorCache.Reads as ErrorReads
use sdns.Cache.Key.{hash}
use sdns.Cache.LookupQueue
use sdns.Cache.LookupQueue.Safety as QueueSafety
use sdns.Cache.QueryCache
use sdns.Dns.{Question, Msg, type_a, type_ds}
use sdns.Handler.Env.{State, Proto, tcp, rcode_success}
use sdns.Records.{is_empty, search_addr}
use sdns.Resolver.Addresses.{
  fall_back, release, keep_addr, settle_addr, find_addr, queued_addr, missed_addr, cached_addr,
  lookup_ns_addr,
}
use sdns.Resolver.Chain.{question_of, remember, from_root}
use sdns.Resolver.Env.{Env, Run, Call, Resolver, Attempt, done, failed}
use sdns.Resolver.Network.{Reliable, is_tcp, is_closed, closed_targets}
use sdns.Resolver.Network.Lookups.{lookup-Leaves}
use sdns.Resolver.Soundness.{
  IsSound, Ends, ends, bind-Ends, if-Ends, get-IsSound, ecache-IsSound, lqueue-IsSound, now-IsSound,
  remember-IsSound, store-IsSound,
}

-- the first question is not for a DS record, and can be searched from the root if it has to be
abbrev pub can_ask : Bool → List Question → Bool
can_ask root [] = false
can_ask root (q ∷ qs) = not (q.qtype == type_ds) && (not root || is_closed q.name)

-- the request asks something, without DNSSEC
abbrev pub goes_on : Msg → Bool
goes_on req = req.checking_disabled && can_ask false req.question

-- a call without DNSSEC for a question, with a server to ask
abbrev pub is_ready : Call → Bool
is_ready call =
    call.req.checking_disabled
    && not (is_empty call.servers.list)
    && can_ask call.root call.req.question

-- its targets are closed names, and over TCP the message is whole
abbrev pub is_whole : Proto → Attempt Msg → Bool
is_whole proto (failed e) = true
is_whole proto (done m) = closed_targets m.answer && not (is_tcp proto && m.truncated)

abbrev closed_outcome : Attempt Msg → Bool
closed_outcome (failed e) = true
closed_outcome (done m) = closed_targets m.answer

closed_whole : (proto : Proto) (o : Attempt Msg) → is_whole proto o ≡ true → closed_outcome o ≡ true
closed_whole proto (failed e) h = refl
closed_whole proto (done m) h = ground arith

abbrev pub anything : {A : Type 0} → A → Bool
anything a = true

module _ {R : Type 0} (env : Env R) (reliable : Reliable env) (res : Resolver R) (d : ℕ)
    (res_ends : (call : Call) (s : State R)
      → is_ready call ≡ true
      → call.depth < d
      → IsSound s
      → Ends (is_whole call.proto) (res call s)) where
  fall_back-Ends :
      (proto : Proto) (req : Msg) (before : Attempt Msg) (s : State R)
      → is_whole proto before ≡ true
      → IsSound s
      → Ends (is_whole proto) (fall_back env proto req before s)
  unfolding fall_back
  fall_back-Ends proto req before s w h =
      if-Ends (is_whole proto) (is_empty env.fallbackservers.list) (λ e. ends h w)
        (λ e.
          let (c, outcome, f, l) = lookup-Leaves env reliable proto req env.fallbackservers s e in
          elim (Option-cases outcome) [
            | inl g ↦ rw (f, g) (ends (now-IsSound _ h) refl)
            | inr (m, g) ↦
                rw (f, g) (ends (now-IsSound _ h) (let k = l.outcome_regular in ground arith))
          ])

  keep_addr-Ends :
      (key : ℕ) (m : Msg) (s : State R)
      → closed_targets m.answer ≡ true
      → IsSound s
      → Ends anything (keep_addr env key m s)
  unfolding keep_addr
  keep_addr-Ends key m s c h = elim (Option-cases (search_addr m)) [
    | inl e ↦ rw (e, keep_addr) (ends (remember-IsSound env key h) refl)
    | inr (addr, e) ↦ rw (e, keep_addr) (ends (store-IsSound env key m c h) refl)
  ]

  keep_fallen-Ends :
      (key : ℕ) (s : State R) (outcome : Attempt Msg)
      → closed_outcome outcome ≡ true
      → IsSound s
      → Ends anything (elim outcome [
        | failed e ↦ some (remember env key s, failed e)
        | done m ↦ keep_addr env key m s
      ])
  keep_fallen-Ends key s (failed e) c h = ends (remember-IsSound env key h) refl
  keep_fallen-Ends key s (done m) c h = keep_addr-Ends key m s c h

  settle_addr-Ends :
      (again : State R → Run R Bytes) (key : ℕ) (proto : Proto) (req : Msg) (s : State R)
      (outcome : Attempt Msg)
      → (is_tcp proto ≡ false → (t : State R) → IsSound t → Ends anything (again t))
      → is_whole proto outcome ≡ true
      → IsSound s
      → Ends anything (settle_addr env again key proto req s outcome)
  unfolding settle_addr
  settle_addr-Ends again key proto req s (failed e) a w h = ends (remember-IsSound env key h) refl
  settle_addr-Ends again key proto req s (done m) a w h =
      let (q, e, v) = QueueSafety.done-IsValid key h.lqueue in
      if-Ends anything (m.truncated && m.rcode == rcode_success)
        (λ f. rw e (a (ground arith) _ (lqueue-IsSound q v h)))
        (λ f.
          if-Ends anything (is_empty m.answer && is_empty m.ns)
            (λ g.
              bind-Ends (is_whole proto) anything _ (fall_back-Ends proto req (done m) s w h)
                (λ t o k w'. keep_fallen-Ends key t o (closed_whole proto o w') k))
            (λ g. keep_addr-Ends key m s (ground arith) h))

  find_addr-Ends :
      (proto : Proto) (req : Msg) (depth : ℕ) (s : State R)
      → is_ready (from_root env proto req depth true) ≡ true
      → depth < d
      → IsSound s
      → Ends (is_whole proto) (find_addr env res proto req depth s)
  unfolding find_addr
  find_addr-Ends proto req depth s r lt h =
      bind-Ends (is_whole proto) (is_whole proto) _
        (res_ends (from_root env proto req depth true) s r lt h) (λ t o k w. go t o k w)
    where
      go :
          (t : State R) (o : Attempt Msg)
          → IsSound t
          → is_whole proto o ≡ true
          → Ends (is_whole proto) (elim o [
            | done m ↦ some (t, done m)
            | failed e ↦ fall_back env proto req (failed e) t
          ])
      go t (done m) k w = ends k w
      go t (failed e) k w = fall_back-Ends proto req (failed e) t refl k

  release-Ends :
      (key : ℕ) (s : State R) (outcome : Attempt Bytes)
      → IsSound s
      → Ends anything (release env key (s, outcome))
  unfolding release
  release-Ends key s outcome h =
      let (q, e, v) = QueueSafety.done-IsValid key h.lqueue in
      rw e (ends (lqueue-IsSound q v h) refl)

  queued_addr-Ends :
      (again : State R → Run R Bytes) (key : ℕ) (proto : Proto) (req : Msg) (depth : ℕ)
      (s : State R)
      → (is_tcp proto ≡ false → (t : State R) → IsSound t → Ends anything (again t))
      → is_ready (from_root env proto req 0 true) ≡ true
      → depth ≤ d
      → IsSound s
      → Ends anything (queued_addr env res again key proto req depth s)
  unfolding queued_addr
  queued_addr-Ends again key proto req depth s a r le h =
      if-Ends anything (depth == 0) (λ e. ends h refl)
        (λ e.
          bind-Ends (is_whole proto) anything _
            (find_addr-Ends proto req (depth - 1) s r (ground arith) h)
            (λ t o k w. settle_addr-Ends again key proto req t o a w k))

  missed_addr-Ends :
      (again : State R → Run R Bytes) (key : ℕ) (proto : Proto) (req : Msg) (depth : ℕ)
      (s : State R)
      → (is_tcp proto ≡ false → (t : State R) → IsSound t → Ends anything (again t))
      → is_ready (from_root env proto req 0 true) ≡ true
      → depth ≤ d
      → IsSound s
      → Ends anything (missed_addr env res again key proto req depth s)
  unfolding missed_addr
  missed_addr-Ends again key proto req depth s a r le h =
      let k = ecache-IsSound _ (ErrorReads.get-IsValid s.now key s.ecache h.ecache) h in
      if-Ends anything (not (is_some (ErrorCache.get s.now key s.ecache).1)) (λ e. ends k refl)
        (λ e.
          bind-Ends anything anything _
            (queued_addr-Ends again key proto req depth _ a r le
              (lqueue-IsSound _ (QueueSafety.add-IsValid key k.lqueue) k))
            (λ t o k' w. release-Ends key t o k'))

  from_root_ready :
      (proto : Proto) (ns : Bytes)
      → is_closed ns ≡ true
      → is_ready (from_root env proto (env.new_query ns type_a true) 0 true) ≡ true
  from_root_ready proto ns c =
      rw (reliable.asks ns type_a true, reliable.asks_cd ns type_a true)
        (let k = reliable.roots in ground arith)

  -- `lookupNSAddr` ends for a closed name, with two rounds, or with one over TCP.
  pub lookup_ns_addr-Ends :
      (rounds : ℕ) (proto : Proto) (ns : Bytes) (depth : ℕ) (s : State R)
      → (if is_tcp proto then 1 else 2) ≤ rounds
      → is_closed ns ≡ true
      → depth ≤ d
      → IsSound s
      → Ends anything (lookup_ns_addr env res rounds proto ns depth true s)
  unfolding lookup_ns_addr
  lookup_ns_addr-Ends zero proto ns depth s n c le h = absurd (ground arith)
  lookup_ns_addr-Ends (suc rounds) proto ns depth s n c le h =
      let req = env.new_query ns type_a true in
      let key = hash (question_of ns type_a) true in
      let k = get-IsSound env.lib key req h in
      let ready = from_root_ready proto ns c in
      if-Ends anything (is_some (LookupQueue.get key s.lqueue)) (λ e. ends h refl)
        (λ e.
          elim (Option-cases (cached_addr env (QueryCache.get env.lib s.now key req s.qcache).1)) [
            | inl f ↦ rw f (
                missed_addr-Ends _ key proto req depth _
                  (λ p t k'. lookup_ns_addr-Ends rounds tcp ns depth t (ground arith) c le k') ready
                  le k)
            | inr (addr, f) ↦ rw f (ends k refl)
          ])
