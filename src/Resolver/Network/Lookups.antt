-- ===== src/Resolver/Network/Lookups.antt =====
-- The replies of the servers to a lookup (resolver.go, `lookup`).
use sdns.Base.{
  ℕ, zero, suc, ◌≡◌, refl, Bool, true, false, ◌&&◌, ◌==◌, List, [], ◌∷◌, Option, none, some, map,
  ◌⊎◌, ◌∙◌, is_some, arith, Bool-cases, Option-cases, inl, inr,
}
use sdns.Cache.Servers.{AuthServer, AuthServers, average, insert, sort_by_rtt, try_sort}
use sdns.Dns.{Msg}
use sdns.Handler.Env.{State, Proto, tcp, rcode_success}
use sdns.Records.{is_empty, clear_opt}
use sdns.Resolver.Addresses.{lookup}
use sdns.Resolver.Env.{Env}
use sdns.Resolver.Exchange.{
  Dialed, reply, no_route, socket_error, Client, measure, attempt, exchange, is_udp,
  rcode_format_error,
}
use sdns.Resolver.Exchange
use sdns.Resolver.Network.{Reliable, is_tcp, is_regular}

-- the outcome of an exchange is regular for a transport
abbrev pub regular_outcome : Proto → Option Msg → Bool
regular_outcome proto none = true
regular_outcome proto (some m) = is_regular proto m

-- what an exchange leaves: the question and the CD flag, and TCP
pub record Leaves (c d : Client) (outcome : Option Msg) : Type 0 where
  pub question : d.req.question ≡ c.req.question
  pub checking : d.req.checking_disabled ≡ c.req.checking_disabled
  pub still_tcp : is_tcp c.proto ≡ true → is_tcp d.proto ≡ true
  pub outcome_regular : regular_outcome c.proto outcome ≡ true

Leaves-refl :
    (c : Client) (outcome : Option Msg)
    → regular_outcome c.proto outcome ≡ true
    → Leaves c c outcome
Leaves-refl c outcome h = record {
  question = refl;
  checking = refl;
  still_tcp = λ e. e;
  outcome_regular = h;
}

clear_opt_keeps :
    (m : Msg)
    → ((clear_opt m).question ≡ m.question)
      × ((clear_opt m).checking_disabled ≡ m.checking_disabled)
unfolding clear_opt
clear_opt_keeps m = (refl, refl)

Dialed-cases : (d : Dialed) → ((m : Msg) × (d ≡ reply m)) ⊎ ((d ≡ no_route) ⊎ (d ≡ socket_error))
Dialed-cases (reply m) = inl (m, refl)
Dialed-cases no_route = inr (inl refl)
Dialed-cases socket_error = inr (inr refl)

regular_from :
    (p q : Proto) (o : Option Msg)
    → (is_tcp p ≡ true → is_tcp q ≡ true)
    → regular_outcome q o ≡ true
    → regular_outcome p o ≡ true
regular_from p q none h k = refl
regular_from p q (some m) h k = ground arith

Leaves-trans :
    {c d e : Client} {first outcome : Option Msg}
    → Leaves c d first
    → Leaves d e outcome
    → Leaves c e outcome
Leaves-trans {c} {d} {e} {first} {outcome} l k = record {
  question = k.question ∙ l.question;
  checking = k.checking ∙ l.checking;
  still_tcp = λ h. k.still_tcp (l.still_tcp h);
  outcome_regular = regular_from c.proto d.proto outcome l.still_tcp k.outcome_regular;
}

-- what is measured changes nothing else
measure-Leaves :
    (c : Client) (rtt : ℕ) (r : Client × Option Msg)
    → Leaves c r.0 r.1
    → Leaves c (measure rtt r).0 (measure rtt r).1
measure-Leaves c rtt r h = record {
  question = h.question;
  checking = h.checking;
  still_tcp = h.still_tcp;
  outcome_regular = h.outcome_regular;
}

length_insert : (s : AuthServer) (ts : List AuthServer) → is_empty (insert s ts) ≡ false
unfolding insert
length_insert s [] = refl
length_insert s (t ∷ ts) = ground arith

try_sort_nonempty :
    (servers : AuthServers)
    → is_empty servers.list ≡ false
    → is_empty (try_sort servers).list ≡ false
unfolding try_sort sort_by_rtt
try_sort_nonempty servers h = go servers.list refl
  where
    go : (ss : List AuthServer) → servers.list ≡ ss → is_empty (try_sort servers).list ≡ false
    go [] e = absurd (ground arith)
    go (s ∷ ss) e =
        rw (e, try_sort) (ground (arith, length_insert (average s) (sort_by_rtt (map average ss))))

regular_tcp :
    (p : Proto) (o : Option Msg) → regular_outcome tcp o ≡ true → regular_outcome p o ≡ true
regular_tcp p none h = refl
regular_tcp p (some m) h = ground arith

module _ {R : Type 0} (env : Env R) (reliable : Reliable env) where
  -- one attempt, if what comes after it leaves the same
  attempt-Leaves :
      (now : ℕ) (again : Client → Client × Option Msg) (c : Client) (server : AuthServer)
      → ((d : Client) → Leaves d (again d).0 (again d).1)
      → let r = attempt env.edns0 (env.net.dial now) again c server in Leaves c r.0 r.1
  unfolding attempt
  attempt-Leaves now again c server h =
      let (same, checked) = clear_opt_keeps c.req in
      elim (Dialed-cases (env.net.dial now c.proto c.req server.host)) [
        | inl (m, e) ↦
            elim (Bool-cases (m.rcode == rcode_format_error && is_some (env.edns0 c.req))) [
              | inl f ↦
                  rw (e, attempt, f)
                    (Leaves-trans {first = none}
                      (record {
                        question = same;
                        checking = checked;
                        still_tcp = λ h. h;
                        outcome_regular = refl;
                      })
                      (h (record c { req = clear_opt c.req })))
              | inr f ↦
                  rw (e, attempt, f)
                    (Leaves-refl c (some m) (reliable.regular now c.proto c.req server.host e))
            ]
        | inr (inl e) ↦ elim (Bool-cases (is_udp c.proto)) [
          | inl f ↦
              rw (e, attempt, f)
                (Leaves-trans {first = none}
                  (record {
                    question = refl;
                    checking = refl;
                    still_tcp = λ h. refl;
                    outcome_regular = refl;
                  })
                  (h (record c { proto = tcp })))
          | inr f ↦ rw (e, attempt, f) (Leaves-refl c none refl)
        ]
        | inr (inr e) ↦ rw (e, attempt) (Leaves-refl c none refl)
      ]

  exchange-Leaves :
      (now n : ℕ) (c : Client) (server : AuthServer)
      → let r = exchange env.edns0 (env.net.dial now) (env.net.rtt now) n c server in
        Leaves c r.0 r.1
  unfolding exchange
  exchange-Leaves now zero c server = Leaves-refl c none refl
  exchange-Leaves now (suc n) c server =
      measure-Leaves c _ _ (attempt-Leaves now _ c server (λ d. exchange-Leaves now n d server))

  -- what is asked of the servers at a time
  abbrev exchange_at : ℕ → Client → AuthServer → Client × Option Msg
  exchange_at now = exchange env.edns0 (env.net.dial now) (env.net.rtt now) 3

  ask-Leaves :
      (now : ℕ) (c : Client) (servers : List AuthServer)
      → is_empty servers ≡ false
      → (d : Client) × (outcome : Option Msg) × (Exchange.ask (exchange_at now) c servers
          ≡ some (d, outcome))
        × Leaves c d outcome
  unfolding Exchange.ask
  ask-Leaves now c [] h = absurd (ground arith)
  ask-Leaves now c (s ∷ []) h =
      ((exchange_at now c s).0, (exchange_at now c s).1, ground arith, exchange-Leaves now 3 c s)
  ask-Leaves now c (s ∷ t ∷ servers) h =
      let first = exchange-Leaves now 3 c s in
      let (d, outcome, e, l) = ask-Leaves now (exchange_at now c s).0 (t ∷ servers) refl in
      elim (Option-cases (exchange_at now c s).1) [
        | inl f ↦ (d, outcome, rw (f, Exchange.ask) e, Leaves-trans first l)
        | inr (m, f) ↦ elim (Bool-cases (m.rcode == rcode_success)) [
          | inl good ↦ (
            (exchange_at now c s).0,
            (exchange_at now c s).1,
            rw (f, Exchange.ask, good) refl,
            first,
          )
          | inr bad ↦ (d, outcome, rw (f, Exchange.ask, bad) e, Leaves-trans first l)
        ]
      ]

  -- A lookup among servers ends at a later time with an outcome that is regular for its transport.
  pub lookup-Leaves :
      (proto : Proto) (req : Msg) (servers : AuthServers) (s : State R)
      → is_empty servers.list ≡ false
      → (d : Client) × (outcome : Option Msg) × (lookup env proto req servers s
          ≡ some (record s { now = env.net.later s.now }, d, outcome))
        × Leaves (record { proto = proto; req = req; measured = [] }) d outcome
  unfolding lookup Exchange.lookup
  lookup-Leaves proto req servers s h =
      let (d, outcome, e, l) =
        ask-Leaves s.now (record { proto = proto; req = req; measured = [] })
          (try_sort servers).list (try_sort_nonempty servers h) in
      (d, outcome, rw e refl, l)
