-- ===== src/Resolver/Exchange.antt =====
-- resolver.go, `exchange` and `lookup`: a query to one server, with its repetitions over TCP and
-- without EDNS0, and the servers asked in turn. The exchange of the DNS client is a parameter,
-- with the local address that the client has by then (`local_address` of Records/Random draws it).
pub mod Attempts
pub mod Measured
pub mod Turns
use sdns.Base.{
  ℕ, zero, suc, Bool, true, false, not, ◌&&◌, ◌==◌, List, [], ◌∷◌, Bytes, Option, none, some,
  if◌then◌else◌, is_some, bytes_eq, ◌+◌,
}
use sdns.Cache.Servers.{AuthServer, AuthServers, try_sort}
use sdns.Dns.{Rr, Msg}
use sdns.Handler.Env.{Proto, udp, tcp, https, rcode_success}
use sdns.Records.{is_empty, clear_opt}

-- what the client's `Exchange` with a host ends with; a truncated reply is a reply
pub data Dialed : Type 0 where
  reply : Msg → Dialed
  no_route : Dialed
  socket_error : Dialed

-- The transport of the client, and the request, which `clearOPT` changes in place; with the round-trip
-- time of each attempt that has ended, for the deferred addition to its server.
pub record Client : Type 0 where
  pub proto : Proto
  pub req : Msg
  pub measured : List ℕ

-- `dns.RcodeFormatError`
abbrev pub rcode_format_error : ℕ
rcode_format_error = 1

abbrev pub is_udp : Proto → Bool
is_udp udp = true
is_udp _ = false

-- the deferred function: one more round-trip time
abbrev pub measure : ℕ → Client × Option Msg → Client × Option Msg
measure rtt (c, outcome) = (record c { measured = rtt ∷ c.measured }, outcome)

-- what the deferred function adds to the server object, for a list of times
unfoldable pub credit : List ℕ → AuthServer → AuthServer
credit [] server = server
credit (rtt ∷ times) server =
    let before = credit times server in
    record before { rtt = before.rtt + rtt; count = before.count + 1 }

module _ (edns0 : Msg → Option Rr) (dial : Proto → Msg → Bytes → Dialed) where
  -- one attempt, with the next one over TCP or without EDNS0 as a parameter
  unfoldable pub attempt :
      (Client → Client × Option Msg) → Client → AuthServer → Client × Option Msg
  attempt again c server = elim (dial c.proto c.req server.host) [
    | reply resp ↦
        if resp.rcode == rcode_format_error && is_some (edns0 c.req)
        then again (record c { req = clear_opt c.req })
        else (c, some resp)
    | no_route ↦ if is_udp c.proto then again (record c { proto = tcp }) else (c, none)
    | socket_error ↦ (c, none)
  ]

  module _ (rtt : Proto → Msg → Bytes → ℕ) where
    -- `exchange`, on fuel: three are enough where `clearOPT` removes the OPT record, and more change
    -- nothing
    unfoldable pub exchange : ℕ → Client → AuthServer → Client × Option Msg
    unfolding attempt
    exchange zero c server = (c, none)
    exchange (suc attempts) c server =
        measure (rtt c.proto c.req server.host) (attempt (λ d. exchange attempts d server) c server)

module _ {W : Type 0} (exchange_with : W → AuthServer → W × Option Msg) where
  -- The loop over the servers, on what the exchanges pass on; `none` is the panic without servers.
  unfoldable pub ask : W → List AuthServer → Option (W × Option Msg)
  ask w [] = none
  ask w (server ∷ later) =
      let (w', outcome) = exchange_with w server in
      let rest = ask w' later in
      elim outcome [
        | none ↦ if is_empty later then some (w', none) else rest
        | some resp ↦
            if not (resp.rcode == rcode_success) && not (is_empty later)
            then rest
            else some (w', some resp)
      ]

  -- `lookup`
  unfoldable pub lookup : W → AuthServers → Option (W × Option Msg)
  unfolding ask
  lookup w servers = ask w (try_sort servers).list
