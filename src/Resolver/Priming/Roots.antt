-- ===== src/Resolver/Priming/Roots.antt =====
-- The root servers after their update (resolver.go, `checkPriming`).
use sdns.Base.{
  ◌≡◌, refl, Bool, true, false, not, ◌||◌, List, [], ◌∷◌, map, Bytes, Option, none, some,
  if◌then◌else◌, keep_map, arith, ap, ◌∙◌,
}
use sdns.Cache.Servers.{AuthServer, AuthServers, new_auth_server}
use sdns.Cache.Servers.Sorting.{hosts}
use sdns.Dns.{Rr, Rdata, Msg}
use sdns.Handler.Env.{State}
use sdns.Records.{is_empty}
use sdns.Resolver.Env.{Env, Run, Resolver, done, failed}
use sdns.Resolver.Glue.{as_a}
use sdns.Resolver.Priming.{
  RootServers, priming_servers, primed, take_roots, priming_reply, check_priming,
}

-- the addresses of a section
abbrev pub as_aaaa : Rr → Option Bytes
as_aaaa r = elim r.rdata [ Rdata.aaaa addr ↦ some addr | _ ↦ none ]

-- the hosts of an update, unless there are none
abbrev pub or_before : List Bytes → List Bytes → List Bytes
or_before found before = if is_empty found then before else found

module _ (join_host_port : Bytes → Bytes) where
  by_rdata :
      (r : Rr) (d : Rdata) (rs : List Rr)
      → r.rdata ≡ d
      → hosts (priming_servers join_host_port rs).0 ≡ map join_host_port (keep_map as_a rs)
      → hosts (priming_servers join_host_port rs).1 ≡ map join_host_port (keep_map as_aaaa rs)
      → (hosts (priming_servers join_host_port (r ∷ rs)).0
          ≡ map join_host_port (keep_map as_a (r ∷ rs)))
        × (hosts (priming_servers join_host_port (r ∷ rs)).1
            ≡ map join_host_port (keep_map as_aaaa (r ∷ rs)))
  unfolding priming_servers new_auth_server
  by_rdata r (Rdata.a addr) rs d e f = rw d (cc, f)
  by_rdata r (Rdata.aaaa addr) rs d e f = rw d (e, cc)
  by_rdata r (Rdata.ns x) rs d e f = rw d (e, f)
  by_rdata r (Rdata.cname x) rs d e f = rw d (e, f)
  by_rdata r (Rdata.hinfo x y) rs d e f = rw d (e, f)
  by_rdata r (Rdata.ds x y z) rs d e f = rw d (e, f)
  by_rdata r (Rdata.dnskey x y z) rs d e f = rw d (e, f)
  by_rdata r (Rdata.rrsig x y z w) rs d e f = rw d (e, f)
  by_rdata r (Rdata.nsec x) rs d e f = rw d (e, f)
  by_rdata r (Rdata.nsec3 x y z) rs d e f = rw d (e, f)
  by_rdata r (Rdata.opt x) rs d e f = rw d (e, f)
  by_rdata r (Rdata.other x) rs d e f = rw d (e, f)
  by_rdata r Rdata.nil_ds rs d e f = rw d (e, f)

  -- the servers of the update are those of the address records, in their order
  hosts-priming_servers :
      (rs : List Rr)
      → (hosts (priming_servers join_host_port rs).0 ≡ map join_host_port (keep_map as_a rs))
        × (hosts (priming_servers join_host_port rs).1 ≡ map join_host_port (keep_map as_aaaa rs))
  unfolding priming_servers
  hosts-priming_servers [] = (refl, refl)
  hosts-priming_servers (r ∷ rs) =
      let (e, f) = hosts-priming_servers rs in by_rdata r r.rdata rs refl e f

  hosts-primed :
      (list : List AuthServer) (servers : AuthServers)
      → hosts (primed list servers).list ≡ or_before (hosts list) (hosts servers.list)
  hosts-primed [] servers = refl
  hosts-primed (s ∷ ss) servers = refl

  primed_nonempty :
      (list : List AuthServer) (servers : AuthServers)
      → is_empty servers.list ≡ false
      → is_empty (primed list servers).list ≡ false
  primed_nonempty [] servers h = h
  primed_nonempty (s ∷ ss) servers h = refl

  unchanged :
      (v4 v6 : List AuthServer) (roots : RootServers)
      → not (is_empty v4) || not (is_empty v6) ≡ false
      → record { v4 = primed v4 roots.v4; v6 = primed v6 roots.v6 } ≡ roots
  unchanged [] [] roots h = refl
  unchanged [] (s ∷ v6) roots h = absurd (ground arith)
  unchanged (s ∷ v4) v6 roots h = absurd (ground arith)

module _ {R : Type 0} (env : Env R) (res : Resolver R) where
  abbrev join : Bytes → Bytes
  join = env.names.join_host_port

  -- where the servers after an update come from: the reply, if it names any
  pub record ComesFrom (roots : RootServers) (m : Msg) (roots' : RootServers) : Type 0 where
    pub v4_hosts :
        hosts roots'.v4.list ≡ or_before (map join (keep_map as_a m.extra)) (hosts roots.v4.list)
    pub v6_hosts :
        hosts roots'.v6.list ≡ or_before (map join (keep_map as_aaaa m.extra)) (hosts roots.v6.list)

  take_roots-ComesFrom :
      (roots : RootServers) (m : Msg) → ComesFrom roots m (take_roots join roots m).0
  unfolding take_roots
  take_roots-ComesFrom roots m =
      let (e, f) = hosts-priming_servers join m.extra in
      record {
        v4_hosts =
            hosts-primed join _ roots.v4 ∙ ap (λ found. or_before found (hosts roots.v4.list)) e;
        v6_hosts =
            hosts-primed join _ roots.v6 ∙ ap (λ found. or_before found (hosts roots.v6.list)) f;
      }

  -- what an update leaves
  abbrev pub Updates : RootServers → State R → Option (State R × RootServers × Bool) → Type 0
  Updates roots s none = priming_reply env res roots.v4 s ≡ none
  Updates roots s (some (t, roots', updated)) =
      (is_empty roots'.v4.list ≡ false)
      × (updated ≡ false → roots' ≡ roots)
      × (updated ≡ true
          → (m : Msg) × (priming_reply env res roots.v4 s ≡ some (t, done m))
            × ComesFrom roots m roots')

  -- The update of the root servers ends where the resolution ends, and never leaves the resolver
  -- without an IPv4 root server. Without success both lists are as they were; with success, each is the
  -- list of the addresses in the additional section of the reply, or as it was if there are none.
  pub check_priming-Updates :
      (roots : RootServers) (s : State R)
      → is_empty roots.v4.list ≡ false
      → Updates roots s (check_priming env res roots s)
  unfolding check_priming take_roots
  check_priming-Updates roots s h = by_reply (priming_reply env res roots.v4 s) refl
    where
      by_reply :
          (o : Run R Msg)
          → priming_reply env res roots.v4 s ≡ o
          → Updates roots s (check_priming env res roots s)
      by_reply none e = rw (e, check_priming) e
      by_reply (some (t, failed x)) e =
          rw (e, check_priming) (h, λ u. refl, λ u. absurd (ground arith))
      by_reply (some (t, done m)) e =
          rw (e, check_priming)
            (
              primed_nonempty join _ roots.v4 h,
              unchanged join _ _ roots,
              λ u. (m, e, take_roots-ComesFrom roots m),
            )
