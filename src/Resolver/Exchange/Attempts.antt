-- ===== src/Resolver/Exchange/Attempts.antt =====
-- The attempts of one exchange (resolver.go, `exchange`).
use sdns.Base.{ℕ, suc, ◌+◌, ◌≡◌, refl, false, Bytes, Option, none, arith}
use sdns.Cache.Servers.{AuthServer}
use sdns.Dns.{Rr, Msg}
use sdns.Handler.Env.{Proto, tcp}
use sdns.Records.{clear_opt}
use sdns.Resolver.Exchange.{Dialed, Client, attempt, exchange, is_udp}

module _ (edns0 : Msg → Option Rr) (dial : Proto → Msg → Bytes → Dialed)
    (rtt : Proto → Msg → Bytes → ℕ) (cleared : (m : Msg) → edns0 (clear_opt m) ≡ none) where
  -- the request has no OPT record, so that it is not asked without it again
  tcp_plain :
      (n : ℕ) (c : Client) (server : AuthServer)
      → is_udp c.proto ≡ false
      → edns0 c.req ≡ none
      → exchange edns0 dial rtt (suc n) c server ≡ exchange edns0 dial rtt 1 c server
  unfolding exchange attempt
  tcp_plain n c server t e = ground arith

  plain :
      (n : ℕ) (c : Client) (server : AuthServer)
      → edns0 c.req ≡ none
      → exchange edns0 dial rtt (suc (suc n)) c server ≡ exchange edns0 dial rtt 2 c server
  unfolding exchange attempt
  plain n c server e = ground (arith, tcp_plain n (record c { proto = tcp }) server refl e)

  over_tcp :
      (n : ℕ) (c : Client) (server : AuthServer)
      → is_udp c.proto ≡ false
      → exchange edns0 dial rtt (suc (suc n)) c server ≡ exchange edns0 dial rtt 2 c server
  unfolding exchange attempt
  over_tcp n c server t =
      ground (arith, tcp_plain n (record c { req = clear_opt c.req }) server t (cleared c.req))

  -- An exchange ends after at most three attempts, over UDP, over TCP and without EDNS0: a higher bound
  -- on the attempts changes nothing.
  pub exchange_bounded :
      (n : ℕ) (c : Client) (server : AuthServer)
      → exchange edns0 dial rtt (3 + n) c server ≡ exchange edns0 dial rtt 3 c server
  unfolding exchange attempt
  exchange_bounded n c server = ground (
    arith,
    over_tcp n (record c { proto = tcp }) server refl,
    plain n (record c { req = clear_opt c.req }) server (cleared c.req),
  )
