-- ===== src/Resolver/Soundness.antt =====
-- The invariant of the caches that a resolution works on, and when a computation ends with it.
use sdns.Base.{arith, [], ◌∷◌, ℕ, Bool, true, false, ◌≡◌, refl, Option, some, if◌then◌else◌, ◌>>=◌}
use sdns.Cache.BlockCache.{BlockCache}
use sdns.Cache.ErrorCache.{ErrorCache}
use sdns.Cache.ErrorCache.Reads as ErrorReads
use sdns.Cache.LookupQueue.{LQueue}
use sdns.Cache.LookupQueue.Safety as QueueSafety
use sdns.Cache.NsCache.{NsCache}
use sdns.Cache.QueryCache.{QueryCache, age_records}
use sdns.Cache.QueryCache
use sdns.Cache.QueryCache.Answers as QueryAnswers
use sdns.Cache.QueryCache.Reads as QueryReads
use sdns.Dns.{Msg, MsgLib}
use sdns.Handler.Env.{State}
use sdns.Resolver.Env.{Env}
use sdns.Resolver.Chain.{remember, store}
use sdns.Resolver.Network.{closed_targets}
use sdns.Resolver.Zones.Served.{IsServed}

-- aging keeps the targets of the records
pub closed_targets-IsAgeless : QueryAnswers.IsAgeless closed_targets
unfolding closed_targets age_records
closed_targets-IsAgeless e [] rs' a h = ground arith
closed_targets-IsAgeless e (r ∷ rs) [] a h = absurd (ground arith)
closed_targets-IsAgeless e (r ∷ rs) (r' ∷ rs') a h =
    ground (arith, closed_targets-IsAgeless e rs rs')

-- the invariants of the caches, where every cached zone has a server, and every CNAME record of a
-- cached answer a closed name
pub record IsSound {R : Type 0} (s : State R) : Type 0 where
  pub qcache : QueryReads.IsValid s.qcache
  pub ecache : ErrorReads.IsValid s.ecache
  pub ncache : IsServed s.ncache
  pub lqueue : QueueSafety.IsValid s.lqueue
  pub targets : QueryAnswers.Holds closed_targets s.qcache

-- it ends in a sound state, with a result that passes a test
pub data Ends {R A : Type 0} (test : A → Bool) : Option (State R × A) → Type 0 where
  ends : {s : State R} {a : A} → IsSound s → test a ≡ true → Ends test (some (s, a))

module _ {R A B : Type 0} (p : A → Bool) (t : B → Bool) where
  pub bind-Ends :
      {m : Option (State R × A)} (f : State R × A → Option (State R × B))
      → Ends p m
      → ((s : State R) (a : A) → IsSound s → p a ≡ true → Ends t (f (s, a)))
      → Ends t (m >>= f)
  bind-Ends f (ends {s} {a} h g) k = k s a h g

pub if-Ends :
    {R A : Type 0} (t : A → Bool) (b : Bool) {x y : Option (State R × A)}
    → (b ≡ true → Ends t x)
    → (b ≡ false → Ends t y)
    → Ends t (if b then x else y)
if-Ends t true h k = h refl
if-Ends t false h k = k refl

-- The state stays sound under a change of one cache.
module _ {R : Type 0} where
  pub qcache-IsSound :
      (c : QueryCache R) {s : State R}
      → QueryReads.IsValid c
      → QueryAnswers.Holds closed_targets c
      → IsSound s
      → IsSound (record s { qcache = c })
  qcache-IsSound c v t h = record {
    qcache = v;
    ecache = h.ecache;
    ncache = h.ncache;
    lqueue = h.lqueue;
    targets = t;
  }

  pub ecache-IsSound :
      (c : ErrorCache) {s : State R}
      → ErrorReads.IsValid c
      → IsSound s
      → IsSound (record s { ecache = c })
  ecache-IsSound c v h = record {
    qcache = h.qcache;
    ecache = v;
    ncache = h.ncache;
    lqueue = h.lqueue;
    targets = h.targets;
  }

  pub ncache-IsSound :
      (c : NsCache) {s : State R} → IsServed c → IsSound s → IsSound (record s { ncache = c })
  ncache-IsSound c v h = record {
    qcache = h.qcache;
    ecache = h.ecache;
    ncache = v;
    lqueue = h.lqueue;
    targets = h.targets;
  }

  pub lqueue-IsSound :
      (q : LQueue) {s : State R}
      → QueueSafety.IsValid q
      → IsSound s
      → IsSound (record s { lqueue = q })
  lqueue-IsSound q v h = record {
    qcache = h.qcache;
    ecache = h.ecache;
    ncache = h.ncache;
    lqueue = v;
    targets = h.targets;
  }

  pub now-IsSound : (now : ℕ) {s : State R} → IsSound s → IsSound (record s { now = now })
  now-IsSound now h = record {
    qcache = h.qcache;
    ecache = h.ecache;
    ncache = h.ncache;
    lqueue = h.lqueue;
    targets = h.targets;
  }

  -- the invariant does not read the time, the start of an iteration, and the block list
  pub unread-IsSound :
      (now pick : ℕ) (block_list : BlockCache) {s : State R}
      → IsSound s
      → IsSound (record s { now = now; pick = pick; block_list = block_list })
  unread-IsSound now pick block_list h = record {
    qcache = h.qcache;
    ecache = h.ecache;
    ncache = h.ncache;
    lqueue = h.lqueue;
    targets = h.targets;
  }

  pub remember-IsSound :
      (env : Env R) (key : ℕ) {s : State R} → IsSound s → IsSound (remember env key s)
  unfolding remember
  remember-IsSound env key {s} h =
      ecache-IsSound _ (ErrorReads.set-IsValid s.pick s.now key s.ecache h.ecache) h

  pub store-IsSound :
      (env : Env R) (key : ℕ) (msg : Msg) {s : State R}
      → closed_targets msg.answer ≡ true
      → IsSound s
      → IsSound (store env key msg s)
  unfolding store
  store-IsSound env key msg {s} c h =
      qcache-IsSound _
        (QueryReads.set-IsValid env.lib env.new_limiter s.pick s.now key msg s.qcache h.qcache)
        (QueryAnswers.set-Holds closed_targets env.lib env.new_limiter s.pick s.now key msg s.qcache
          h.qcache c h.targets)
        h

  -- a lookup in the cache of answers
  pub get-IsSound :
      (lib : MsgLib) (key : ℕ) (req : Msg) {s : State R}
      → IsSound s
      → IsSound (record s { qcache = (QueryCache.get lib s.now key req s.qcache).0 })
  get-IsSound lib key req {s} h =
      qcache-IsSound _ (QueryReads.get-IsValid lib s.now key req s.qcache h.qcache)
        (QueryAnswers.get-Holds closed_targets lib s.now key req s.qcache closed_targets-IsAgeless
          h.qcache h.targets)
        h
