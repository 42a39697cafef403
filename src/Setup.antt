-- ===== src/Setup.antt =====
-- main.go, `configSetup`: the variables of the resolver and the bounds of the configuration, after the
-- file is read. Durations are nanoseconds and sizes are natural numbers: a negative value of the file
-- counts as zero, which has the same effect. `none` is the exit of `log.Crit`.
pub mod Effects
use sdns.Base.{
  ℕ, ◌*◌, ◌^◌, Bool, true, false, not, List, [], ◌∷◌, map, Bytes, codes, Option, none, some,
  if◌then◌else◌, ◌>>=◌, ltb,
}
use sdns.Cache.Servers.{AuthServers, new_auth_server}
use sdns.Dns.{Rr}
use sdns.Records.{is_empty}
use sdns.Resolver.Priming.{RootServers}

-- the fields of `Config` that `configSetup` reads or writes, or that `NewResolver` reads
pub record Config : Type 0 where
  pub root_servers : List Bytes
  pub root6_servers : List Bytes
  pub fallback_servers : List Bytes
  pub root_keys : List Bytes
  pub log_level : Bytes
  pub timeout : ℕ
  pub connect_timeout : ℕ
  pub cache_size : ℕ
  pub rate_limit : ℕ
  pub expire : ℕ

-- the variables of resolver.go
pub record Globals : Type 0 where
  pub roots : RootServers
  pub fallback : AuthServers
  pub rootkeys : List Rr

-- a list of servers, unless the configuration has none
unfoldable pub configured : List Bytes → AuthServers → AuthServers
configured [] before = before
configured (host ∷ hosts) before = record { called = 0; list = map new_auth_server (host ∷ hosts) }

-- 250 milliseconds
abbrev pub least_timeout : ℕ
least_timeout = 250 * 10 ^ 6

abbrev pub least_size : ℕ
least_size = 1024

abbrev pub at_least : ℕ → ℕ → ℕ
at_least least n = if ltb n least then least else n

-- the fields that a test overwrites
abbrev pub for_test : Bool → Config → Config
for_test test config =
    if test then record config { log_level = codes "crit"; timeout = 10 ^ 9 } else config

-- the variables and the configuration at the end
abbrev pub set_globals : Config → List Rr → Globals → Globals
set_globals config keys globals = record {
  roots = record {
    v4 = configured config.root_servers globals.roots.v4;
    v6 = configured config.root6_servers globals.roots.v6;
  };
  fallback = configured config.fallback_servers globals.fallback;
  rootkeys = keys;
}

abbrev pub bounded : Config → Config
bounded config = record config {
  timeout = at_least least_timeout config.timeout;
  connect_timeout = at_least least_timeout config.connect_timeout;
  cache_size = at_least least_size config.cache_size;
}

module _ (new_rr : Bytes → Option Rr) (is_level : Bytes → Bool) where
  -- the loop over the root keys
  unfoldable pub parse_keys : List Bytes → Option (List Rr)
  parse_keys [] = some []
  parse_keys (k ∷ ks) = new_rr k >>= λ rr. parse_keys ks >>= λ rrs. some (rr ∷ rrs)

  -- `configSetup`
  unfoldable pub config_setup : Bool → Globals → Config → Option (Globals × Config)
  config_setup test globals file =
      let config = for_test test file in
      if not (is_level config.log_level)
      then none
      else ((if is_empty config.root_keys
            then some globals.rootkeys
            else parse_keys config.root_keys)
          >>= λ keys. some (set_globals config keys globals, bounded config))
