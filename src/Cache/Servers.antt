-- ===== src/Cache/Servers.antt =====
-- cache/authserver.go: the servers of a zone with their round-trip times, sorted on every
-- twentieth call of `TrySort`. Times are sums of durations, so natural numbers.
pub mod Sorting
use sdns.Base.{ℕ, ◌+◌, ◌/◌, ◌%◌, ◌==◌, List, [], ◌∷◌, ◌++◌, map, Bytes, codes, ltb, if◌then◌else◌}

-- `AuthServer`
pub record AuthServer : Type 0 where
  pub host : Bytes
  pub rtt : ℕ  -- int64, nanoseconds
  pub count : ℕ  -- int64

-- `AuthServers`
pub record AuthServers : Type 0 where
  pub called : ℕ  -- int32
  pub list : List AuthServer

-- `NewAuthServer`
unfoldable pub new_auth_server : Bytes → AuthServer
new_auth_server host = record { host = host; rtt = 0; count = 0 }

-- `String`, with the text of a duration in milliseconds as a parameter: a server without a count gets
-- the count one.
unfoldable pub to_string : (ℕ → Bytes) → AuthServer → AuthServer × Bytes
to_string text s =
    let counted = if s.count == 0 then record s { count = 1 } else s in
    (counted, codes "host:" ++ s.host ++ codes " rtt:" ++ text (counted.rtt / counted.count))

-- one round of the loop of `TrySort`
unfoldable pub average : AuthServer → AuthServer
average s = if ltb 0 s.count then record s { rtt = s.rtt / s.count; count = 1 } else s

-- `sort.Slice` by round-trip time, as an insertion sort
unfoldable pub insert : AuthServer → List AuthServer → List AuthServer
insert s [] = s ∷ []
insert s (t ∷ ts) = if ltb t.rtt s.rtt then t ∷ insert s ts else s ∷ t ∷ ts

unfoldable pub sort_by_rtt : List AuthServer → List AuthServer
unfolding insert
sort_by_rtt [] = []
sort_by_rtt (s ∷ ss) = insert s (sort_by_rtt ss)

-- `TrySort`
unfoldable pub try_sort : AuthServers → AuthServers
unfolding average sort_by_rtt
try_sort s =
    let called = s.called + 1 in
    if called % 20 == 0
    then record { called = 0; list = sort_by_rtt (map average s.list) }
    else record s { called = called }
