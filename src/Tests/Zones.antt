-- ===== src/Tests/Zones.antt =====
-- Examples for resolver.go.
use mathlib.Core.List.{mem-cons_self}
use sdns.Base.{
  ℕ, ◌+◌, ◌≤◌, suc, ◌≡◌, refl, true, [], ◌∷◌, Bytes, codes, bytes_eq, Option, some, none,
  if◌then◌else◌,
}
use sdns.Cache.NsCache
use sdns.Cache.Servers.{AuthServer, average, insert, sort_by_rtt, try_sort}
use sdns.Dns.{Msg}
use sdns.Handler.Env.{Proto, udp}
use sdns.Resolver.Exchange.{
  Dialed, reply, socket_error, Client, attempt, exchange, credit, ask, lookup,
}
use sdns.Resolver.Exchange.Measured
use sdns.Resolver.Exchange.Turns
use sdns.Tests.Data.{found, servers}

program : Unit {0}
unfolding exchange attempt credit ask lookup average insert sort_by_rtt try_sort
    NsCache.new_ns_cache
program = tt

-- the first server does not reply
abbrev reply_of : Bytes → Option Msg
reply_of host = if bytes_eq host (codes "192.0.2.3:53") then some found else none

abbrev second : AuthServer
second = record { host = codes "192.0.2.3:53"; rtt = 200; count = 1 }

abbrev first : AuthServer
first = record second { host = codes "192.0.2.2:53" }

-- the exchange counts the servers that were asked
abbrev count_asked : ℕ → Bytes → ℕ × Option Msg
count_asked n host = (suc n, reply_of host)

lookup_available_example :
    Turns.succeeded
      (lookup (λ n s. count_asked n s.host) 0 (record servers { list = second ∷ first ∷ [] }))
    ≡ true
lookup_available_example =
    Turns.lookup_available count_asked (record servers { list = second ∷ first ∷ [] })
      (codes "192.0.2.3:53") 0 mem-cons_self (λ n. refl)

-- the first server is asked first, and then the second
asked_twice :
    ask (λ m s. count_asked m s.host) 0 (first ∷ second ∷ first ∷ []) ≡ some (2, some found)
unfolding program
asked_twice = refl

-- the first server is not reached, and the second replies after seven nanoseconds
abbrev dial : Proto → Msg → Bytes → Dialed
dial proto req host = if bytes_eq host (codes "192.0.2.3:53") then reply found else socket_error

abbrev rtt : Proto → Msg → Bytes → ℕ
rtt proto req host = if bytes_eq host (codes "192.0.2.3:53") then 7 else 0

exchange-credit_example :
    let c : Client = record { proto = udp; req = found; measured = [] } in
    let times = (exchange (λ m. none) dial rtt 1 c second).0.measured in
    (second.count + 1 ≤ (credit times second).count)
    × ((credit times second).count ≤ second.count + 3)
exchange-credit_example =
    Measured.exchange-credit (λ m. none) dial rtt (λ m. refl) 0 udp found second

-- the second server has its time added
credited : credit (7 ∷ []) second ≡ record second { rtt = 207; count = 2 }
unfolding program
credited = refl
