-- ===== src/Handler/Invariant.antt =====
-- The interface between a query (handler.go) and an invariant of the state that it works on: what
-- each cache, the queue, a wait and the resolver do to a state that has it.
use sdns.Base.{
  ℕ, ◌≡◌, refl, Bool, true, false, List, [], ◌∷◌, Bytes, Option, none, some, if◌then◌else◌, ◌>>=◌,
  is_some,
}
use sdns.Cache.ErrorCache
use sdns.Cache.LookupQueue
use sdns.Cache.LookupQueue.{LQueue}
use sdns.Cache.NsCache
use sdns.Cache.Outcome.{ok}
use sdns.Cache.QueryCache
use sdns.Dns.{Question, Rr, Msg}
use sdns.Handler.Cname.{last_target}
use sdns.Handler.Env.{Env, State, Proto}
use sdns.Handler.Query.{blocked_reply}

-- it returns, in a state with the invariant, and with a result that passes a test
pub data Gives {R A : Type 0} (Inv : State R → Type 0) (test : A → Bool)
    : Option (State R × A) → Type 0 where
  gives : {s : State R} {a : A} → Inv s → test a ≡ true → Gives Inv test (some (s, a))

-- the result, the state and what they have
pub given :
    {R : Type 0} {Inv : State R → Type 0} {A : Type 0} {test : A → Bool} {o : Option (State R × A)}
    → Gives Inv test o
    → (s : State R) × (a : A) × (o ≡ some (s, a)) × Inv s × (test a ≡ true)
given (gives {s} {a} h t) = (s, a, refl, h, t)

abbrev pub anything : {A : Type 0} → A → Bool
anything a = true

module _ {R : Type 0} (Inv : State R → Type 0) where
  pub bind-Gives :
      {A B : Type 0} (p : A → Bool) (t : B → Bool) {m : Option (State R × A)}
      (f : State R × A → Option (State R × B))
      → Gives Inv p m
      → ((s : State R) (a : A) → Inv s → p a ≡ true → Gives Inv t (f (s, a)))
      → Gives Inv t (m >>= f)
  bind-Gives p t f (gives {s} {a} h g) k = k s a h g

  pub if-Gives :
      {A : Type 0} (t : A → Bool) (b : Bool) {x y : Option (State R × A)}
      → Gives Inv t x
      → Gives Inv t y
      → Gives Inv t (if b then x else y)
  if-Gives t true h k = h
  if-Gives t false h k = k

-- The note that there is no answer parses for the name of the first question.
abbrev pub notes : {R : Type 0} → Env R → List Question → Bool
notes env [] = true
notes env (q ∷ qs) = is_some (env.no_answer q.name env.config.expire)

-- a test of the answer of a message, if there is one
abbrev pub fits_found : (List Rr → Bool) → Option Msg → Bool
fits_found fit none = true
fits_found fit (some m) = fit m.answer

-- `asks` says which requests the resolver takes, `fit` which answers it gives and the cache holds, and
-- `allowed` for which types and CD flags the target of a CNAME record in such an answer can be asked.
pub record Invariant {R : Type 0} (env : Env R) (Inv : State R → Type 0) (asks : Msg → Bool)
    (allowed : ℕ → Bool → Bool) (fit : List Rr → Bool) : Type 0 where
  pub qcache_get :
      (key : ℕ) (req : Msg) (s : State R)
      → Inv s
      → Inv (record s { qcache = (QueryCache.get env.lib s.now key req s.qcache).0 })
  pub qcache_hit :
      (key : ℕ) (req m : Msg) (limiter : R) (s : State R)
      → Inv s
      → (QueryCache.get env.lib s.now key req s.qcache).1 ≡ ok (m, limiter)
      → fit m.answer ≡ true
  pub qcache_set :
      (key : ℕ) (m : Msg) (s : State R)
      → fit m.answer ≡ true
      → Inv s
      → Inv
          (record s { qcache = QueryCache.set env.lib env.new_limiter s.pick s.now key m s.qcache })
  pub ecache_get :
      (key : ℕ) (s : State R)
      → Inv s
      → Inv (record s { ecache = (ErrorCache.get s.now key s.ecache).0 })
  pub ecache_set :
      (key : ℕ) (s : State R)
      → Inv s
      → Inv (record s { ecache = ErrorCache.set s.pick s.now key s.ecache })
  pub ncache_get :
      (key : ℕ) (s : State R)
      → Inv s
      → Inv (record s { ncache = (NsCache.get s.now key s.ncache).0 })
  pub lqueue_add :
      (key : ℕ) (s : State R) → Inv s → Inv (record s { lqueue = LookupQueue.add key s.lqueue })
  pub lqueue_done :
      (key : ℕ) (s : State R)
      → Inv s
      → (q : LQueue) × (LookupQueue.done key s.lqueue ≡ some q) × Inv (record s { lqueue = q })
  pub waits : (key : ℕ) (s : State R) → Inv s → Inv (env.wait key s)
  pub resolves :
      (proto : Proto) (req : Msg) (s : State R)
      → asks req ≡ true
      → Inv s
      → Gives Inv (fits_found fit) (env.resolve proto req env.config.maxdepth s)
  pub nothing_fits : fit [] ≡ true
  pub blocked_fits : (q : Question) (req : Msg) → fit (blocked_reply env q req).answer ≡ true
  pub question_kept : (opt : Rr) (m : Msg) → (env.opts.put_edns0 opt m).question ≡ m.question
  pub asks_kept : (opt : Rr) (m : Msg) → asks m ≡ true → asks (env.opts.put_edns0 opt m) ≡ true
  pub asks_more :
      (extra : List Rr) (m : Msg) → asks m ≡ true → asks (record m { extra = extra }) ≡ true
  pub asks_first :
      (q : Question) (qs : List Question) (m : Msg)
      → m.question ≡ q ∷ qs
      → asks m ≡ true
      → allowed q.qtype m.checking_disabled ≡ true
  pub asks_target :
      (answer : List Rr) (target : Bytes) (qtype : ℕ) (cd : Bool)
      → fit answer ≡ true
      → last_target none answer ≡ some target
      → allowed qtype cd ≡ true
      → asks (env.new_query target qtype cd) ≡ true
