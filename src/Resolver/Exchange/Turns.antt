-- ===== src/Resolver/Exchange/Turns.antt =====
-- Which server's reply `lookup` returns (resolver.go).
use sdns.Base.{
  ◌≡◌, refl, Bool-cases, Bool, true, false, ◌==◌, List, [], ◌∷◌, ◌++◌, Option, none, some, All,
  arith, Option-cases, inl, inr, Bytes,
}
use mathlib.Core.List.{Mem, not-mem-nil, eq-or-mem_of_mem-cons}
use mathlib.Core.List.Perm
use mathlib.Core.Logic.{∥∥₁_elim}
use sdns.Cache.Servers.{AuthServer, AuthServers, try_sort}
use sdns.Cache.Servers.Sorting.{hosts, try_sort-perm}
use sdns.Dns.{Msg}
use sdns.Handler.Env.{rcode_success}
use sdns.Records.{is_empty}
use sdns.Resolver.Exchange.{ask, lookup}

-- a reply without an error
abbrev pub is_success : Option Msg → Bool
is_success none = false
is_success (some resp) = resp.rcode == rcode_success

module _ {W : Type 0} (exchange : W → AuthServer → W × Option Msg) where
  -- a server that replies without an error, and one that does not, whatever was passed on to it
  abbrev pub Serves : AuthServer → Type 0
  Serves s = (w : W) → is_success (exchange w s).1 ≡ true

  abbrev pub Fails : AuthServer → Type 0
  Fails s = (w : W) → is_success (exchange w s).1 ≡ false

  -- The first server that replies without an error is the one whose reply is returned: a failure, or a
  -- reply with an error code, leads on to the next.
  pub ask_first :
      (before : List AuthServer) (server : AuthServer) (after : List AuthServer) (w : W)
      → All Fails before
      → Serves server
      → (w' : W) × (ask exchange w (before ++ server ∷ after) ≡ some (exchange w' server))
  unfolding ask
  ask_first [] server after w none_before good = elim (Option-cases (exchange w server).1) [
    | inl e ↦ absurd (ground (arith, good w))
    | inr (resp, e) ↦ (w, rw (e, ask) (ground (arith, good w)))
  ]
  ask_first (s ∷ []) server after w none_before good =
      let (w', e) = ask_first [] server after (exchange w s).0 tt good in
      (w', ground (arith, none_before.0 w))
  ask_first (s ∷ t ∷ before) server after w none_before good =
      let (w', e) = ask_first (t ∷ before) server after (exchange w s).0 none_before.1 good in
      (w', ground (arith, none_before.0 w))

  -- When no server replies without an error, the outcome of the last is returned.
  pub ask_last :
      (before : List AuthServer) (server : AuthServer) (w : W)
      → All Fails before
      → (w' : W) × ((ask exchange w (before ++ server ∷ [])) ≡ some (exchange w' server))
  unfolding ask
  ask_last [] server w none_before = (w, ground arith)
  ask_last (s ∷ []) server w none_before =
      let (w', e) = ask_last [] server (exchange w s).0 tt in (w', ground (arith, none_before.0 w))
  ask_last (s ∷ t ∷ before) server w none_before =
      let (w', e) = ask_last (t ∷ before) server (exchange w s).0 none_before.1 in
      (w', ground (arith, none_before.0 w))

  -- As long as there is a server, somebody is asked.
  pub ask_asks :
      (servers : List AuthServer) (w : W)
      → is_empty servers ≡ false
      → (w' : W) × (s : AuthServer) × (ask exchange w servers ≡ some (exchange w' s))
  unfolding ask
  ask_asks [] w h = absurd (ground arith)
  ask_asks (s ∷ []) w h = (w, s, ground arith)
  ask_asks (s ∷ t ∷ servers) w h = elim (Bool-cases (is_success (exchange w s).1)) [
    | inl good ↦ (w, s, ground arith)
    | inr bad ↦
        let (w', u, e) = ask_asks (t ∷ servers) (exchange w s).0 refl in (w', u, ground arith)
  ]

-- `lookup` returned a reply without an error
abbrev pub succeeded : {W : Type 0} → Option (W × Option Msg) → Bool
succeeded none = false
succeeded (some (w, outcome)) = is_success outcome

module _ {W : Type 0} (exchange : W → Bytes → W × Option Msg) where
  ask_succeeds :
      (servers : List AuthServer) (host : Bytes) (w : W)
      → Mem host (hosts servers)
      → Serves (λ w s. exchange w s.host) (record { host = host; rtt = 0; count = 0 })
      → succeeded (ask (λ w s. exchange w s.host) w servers) ≡ true
  unfolding ask
  ask_succeeds [] host w m good = absurd (not-mem-nil m)
  ask_succeeds (s ∷ later) host w m good = ∥∥₁_elim (eq-or-mem_of_mem-cons m) (hlevel) (λ c.
      elim c [
        | inl e ↦ first later (λ v. rw (← e) (good v))
        | inr m' ↦ next later m' (ask_succeeds later host (exchange w s.host).0 m' good)
      ])
    where
      first :
          (later : List AuthServer)
          → ((v : W) → is_success (exchange v s.host).1 ≡ true)
          → succeeded (ask (λ w s. exchange w s.host) w (s ∷ later)) ≡ true
      first [] g = ground (arith, g w)
      first (t ∷ later) g = ground (arith, g w)

      next :
          (later : List AuthServer)
          → Mem host (hosts later)
          → succeeded (ask (λ w s. exchange w s.host) (exchange w s.host).0 later) ≡ true
          → succeeded (ask (λ w s. exchange w s.host) w (s ∷ later)) ≡ true
      next [] m' h = absurd (not-mem-nil m')
      next (t ∷ later) m' h = ground arith

  -- As long as one of the servers replies without an error, so does `lookup`, whatever the order that
  -- sorting gives the servers.
  pub lookup_available :
      (servers : AuthServers) (host : Bytes) (w : W)
      → Mem host (hosts servers.list)
      → ((v : W) → is_success (exchange v host).1 ≡ true)
      → succeeded (lookup (λ w s. exchange w s.host) w servers) ≡ true
  unfolding lookup
  lookup_available servers host w m good =
      ask_succeeds (try_sort servers).list host w ((Perm.mem_iff (try_sort-perm servers)).1 m) good
