-- ===== src/Resolver/Exchange/Measured.antt =====
-- The round-trip times that an exchange adds to its server (resolver.go, `exchange`).
use sdns.Base.{
  ℕ, zero, suc, ◌+◌, ◌/◌, ◌≤◌, ◌≡◌, refl, List, [], ◌∷◌, Bytes, Option, none, arith, length, false,
}
use sdns.Cache.Servers.{AuthServer, average, new_auth_server, to_string}
use sdns.Dns.{Rr, Msg}
use sdns.Handler.Env.{Proto, tcp}
use sdns.Records.{clear_opt}
use sdns.Resolver.Exchange.{Dialed, Client, attempt, exchange, is_udp, credit}

count-credit : (times : List ℕ) (s : AuthServer) → (credit times s).count ≡ s.count + length times
unfolding credit
count-credit [] s = omega arith
count-credit (rtt ∷ times) s = omega (arith, count-credit times s)

module _ (edns0 : Msg → Option Rr) (dial : Proto → Msg → Bytes → Dialed)
    (rtt : Proto → Msg → Bytes → ℕ) (cleared : (m : Msg) → edns0 (clear_opt m) ≡ none) where
  -- the number of attempts that an exchange records
  abbrev pub attempts : ℕ → Client → AuthServer → ℕ
  attempts n c s = length (exchange edns0 dial rtt n c s).0.measured

  tcp_plain :
      (n : ℕ) (c : Client) (s : AuthServer)
      → is_udp c.proto ≡ false
      → edns0 c.req ≡ none
      → attempts n c s ≤ 1 + length c.measured
  unfolding exchange attempt
  tcp_plain zero c s t e = omega arith
  tcp_plain (suc n) c s t e = ground arith

  plain :
      (n : ℕ) (c : Client) (s : AuthServer)
      → edns0 c.req ≡ none
      → attempts n c s ≤ 2 + length c.measured
  unfolding exchange attempt
  plain zero c s e = omega arith
  plain (suc n) c s e = ground (arith, tcp_plain n (record c { proto = tcp }) s refl e)

  over_tcp :
      (n : ℕ) (c : Client) (s : AuthServer)
      → is_udp c.proto ≡ false
      → attempts n c s ≤ 2 + length c.measured
  unfolding exchange attempt
  over_tcp zero c s t = omega arith
  over_tcp (suc n) c s t =
      ground (arith, tcp_plain n (record c { req = clear_opt c.req }) s t (cleared c.req))

  all_attempts : (n : ℕ) (c : Client) (s : AuthServer) → attempts n c s ≤ 3 + length c.measured
  unfolding exchange attempt
  all_attempts zero c s = omega arith
  all_attempts (suc n) c s = ground (
    arith,
    over_tcp n (record c { proto = tcp }) s refl,
    plain n (record c { req = clear_opt c.req }) s (cleared c.req),
  )

  some_attempt : (n : ℕ) (c : Client) (s : AuthServer) → length c.measured ≤ attempts n c s
  unfolding exchange attempt
  some_attempt zero c s = omega arith
  some_attempt (suc n) c s = ground (
    arith,
    some_attempt n (record c { proto = tcp }) s,
    some_attempt n (record c { req = clear_opt c.req }) s,
  )

  first_attempt :
      (n : ℕ) (c : Client) (s : AuthServer) → 1 + length c.measured ≤ attempts (suc n) c s
  unfolding exchange attempt
  first_attempt n c s = ground (
    arith,
    some_attempt n (record c { proto = tcp }) s,
    some_attempt n (record c { req = clear_opt c.req }) s,
  )

  -- Where `clearOPT` removes the OPT record, an exchange makes at least one attempt and at most three,
  -- on any fuel, and each of them adds one to the count of its server: a server never counts more than
  -- three for one exchange, and never nothing.
  pub exchange-credit :
      (n : ℕ) (proto : Proto) (req : Msg) (s : AuthServer)
      → let c : Client = record { proto = proto; req = req; measured = [] } in
        let times = (exchange edns0 dial rtt (suc n) c s).0.measured in
        (s.count + 1 ≤ (credit times s).count) × ((credit times s).count ≤ s.count + 3)
  exchange-credit n proto req s =
      let c : Client = record { proto = proto; req = req; measured = [] } in
      let k = count-credit (exchange edns0 dial rtt (suc n) c s).0.measured s in
      let low = first_attempt n c s in
      let high = all_attempts (suc n) c s in (omega arith, omega arith)

-- A server that cannot be dialed, where the client gives the time zero, has one attempt more and the
-- same sum of times, so that its mean falls.
exchange_undialed :
    (edns0 : Msg → Option Rr) (dial : Proto → Msg → Bytes → Dialed) (rtt : Proto → Msg → Bytes → ℕ)
    (n : ℕ) (proto : Proto) (req : Msg) (s : AuthServer)
    → dial proto req s.host ≡ Dialed.socket_error
    → rtt proto req s.host ≡ 0
    → let c : Client = record { proto = proto; req = req; measured = [] } in
      credit (exchange edns0 dial rtt (suc n) c s).0.measured s ≡ record s { count = s.count + 1 }
unfolding exchange attempt credit
exchange_undialed edns0 dial rtt n proto req s e z = rw (e, exchange, attempt) (ground arith)

-- A server that `String` has printed before its first exchange has half of its time for its mean.
average-credit_printed :
    (text : ℕ → Bytes) (host : Bytes) (rtt : ℕ)
    → (average (credit (rtt ∷ []) (to_string text (new_auth_server host)).0)).rtt ≡ rtt / 2
unfolding average credit to_string new_auth_server
average-credit_printed text host rtt = ground arith
