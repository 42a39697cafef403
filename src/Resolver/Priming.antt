-- ===== src/Resolver/Priming.antt =====
-- resolver.go, `checkPriming`: the hourly update of the root servers. `none` is a panic, or fuel that
-- has run out.
pub mod Roots
use sdns.Base.{
  ℕ, Bool, true, false, not, ◌||◌, List, [], ◌∷◌, Bytes, Option, none, some, if◌then◌else◌,
}
use sdns.Cache.Servers.{AuthServer, AuthServers, new_auth_server}
use sdns.Dns.{Rr, Rdata, Msg, type_ns, rootzone}
use sdns.Handler.Env.{State, Proto, udp, tcp}
use sdns.Records.{is_empty}
use sdns.Resolver.Env.{Env, Run, Call, Resolver, Attempt, done, failed, try}

-- `rootservers` and `root6servers`
pub record RootServers : Type 0 where
  pub v4 : AuthServers
  pub v6 : AuthServers

-- the loop over the additional section: the servers of IPv4 and of IPv6
unfoldable pub priming_servers : (Bytes → Bytes) → List Rr → List AuthServer × List AuthServer
priming_servers join_host_port [] = ([], [])
priming_servers join_host_port (r ∷ rs) =
    let (v4, v6) = priming_servers join_host_port rs in
    elim r.rdata [
      | Rdata.a addr ↦ (new_auth_server (join_host_port addr) ∷ v4, v6)
      | Rdata.aaaa addr ↦ (v4, new_auth_server (join_host_port addr) ∷ v6)
      | _ ↦ (v4, v6)
    ]

-- the new list of servers, unless it is empty
abbrev pub primed : List AuthServer → AuthServers → AuthServers
primed list servers = if is_empty list then servers else record servers { list = list }

-- from the test of the additional section to the end, with whether the update was successful
unfoldable pub take_roots : (Bytes → Bytes) → RootServers → Msg → RootServers × Bool
take_roots join_host_port roots resp =
    let (v4, v6) = priming_servers join_host_port resp.extra in
    (
      record { v4 = primed v4 roots.v4; v6 = primed v6 roots.v6 },
      not (is_empty v4) || not (is_empty v6),
    )

module _ {R : Type 0} (env : Env R) (res : Resolver R) where
  -- the call of `Resolve` for the root servers
  abbrev pub priming_call : Proto → AuthServers → Call
  priming_call proto servers = record {
    proto = proto;
    req = env.new_query rootzone type_ns false;
    servers = servers;
    root = true;
    depth = 5;
    level = 0;
    nsl = false;
    parentdsrr = [];
    extra = true;
  }

  -- the reply, over TCP where it is truncated
  unfoldable pub priming_reply : AuthServers → State R → Run R Msg
  priming_reply servers s =
      try (res (priming_call udp servers) s)
        (λ t resp. if resp.truncated then res (priming_call tcp servers) t else some (t, done resp))

  -- `checkPriming`, with the root servers after it; false is an error
  unfoldable pub check_priming : RootServers → State R → Option (State R × RootServers × Bool)
  check_priming roots s = elim (priming_reply roots.v4 s) [
    | none ↦ none
    | some (t, failed e) ↦ some (t, roots, false)
    | some (t, done resp) ↦
        let (roots', updated) = take_roots env.names.join_host_port roots resp in
        some (t, roots', updated)
  ]
