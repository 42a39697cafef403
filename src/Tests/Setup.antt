-- ===== src/Tests/Setup.antt =====
-- Examples for main.go.
use sdns.Base.{ℕ, ◌≡◌, refl, Bool, false, [], ◌∷◌, Bytes, bytes_eq, codes, Option, some, none}
use sdns.Cache.Servers.{AuthServers}
use sdns.Dns.{Rr}
use sdns.Setup
use sdns.Setup.{Config, Globals, for_test, config_setup}
use sdns.Setup.Effects
use sdns.Tests.Data.{a_record}

abbrev pub no_servers : AuthServers
no_servers = record { called = 0; list = [] }

abbrev pub globals : Globals
globals = record {
  roots = record { v4 = no_servers; v6 = no_servers };
  fallback = no_servers;
  rootkeys = [];
}

-- a small cache, a short timeout and no root server of IPv6
abbrev pub file : Config
file = record {
  root_servers = codes "198.41.0.4:53" ∷ [];
  root6_servers = [];
  fallback_servers = codes "8.8.8.8:53" ∷ [];
  root_keys = codes "key" ∷ [];
  log_level = codes "info";
  timeout = 5;
  connect_timeout = 2000000000;
  cache_size = 100;
  rate_limit = 10;
  expire = 600;
}

-- every key parses but the empty one, and there is one level
abbrev pub new_rr : Bytes → Option Rr
new_rr [] = none
new_rr (c ∷ s) = some a_record

abbrev pub is_level : Bytes → Bool
is_level level = bytes_eq level (codes "info")

config_setup-Sets_example :
    Effects.Sets new_rr is_level globals
      (for_test false file)
      (config_setup new_rr is_level false globals file)
config_setup-Sets_example = Effects.config_setup-Sets new_rr is_level false globals file

-- the cache has 1024 entries
abbrev size_of : Option (Globals × Config) → ℕ
size_of none = 0
size_of (some (g, c)) = c.cache_size

enlarged : size_of (config_setup new_rr is_level false globals file) ≡ 1024
unfolding config_setup Setup.parse_keys
enlarged = refl
