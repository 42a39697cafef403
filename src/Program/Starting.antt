-- ===== src/Program/Starting.antt =====
-- When `main` comes to its end with the servers started (main.go, config.go).
use sdns.Base.{
  ◌≡◌, Bool, true, false, ◌&&◌, ◌||◌, List, [], ◌∷◌, Bytes, Option, none, some, is_some,
}
use sdns.Dns.{Rr}
use sdns.Program.{World, new_handler}
use sdns.Records.{is_empty}
use sdns.Server
use sdns.Server.{Addr, Ranger, find_local_ip_addresses}
use sdns.Setup
use sdns.Setup.{Globals, config_setup, for_test}

-- a test holds of all texts of a list
abbrev pub all : (Bytes → Bool) → List Bytes → Bool
all test [] = true
all test (x ∷ xs) = test x && all test xs

module _ (new_rr : Bytes → Option Rr) (is_level : Bytes → Bool) where
  abbrev pub may_set_up : Setup.Config → Bool
  may_set_up setup = is_level setup.log_level && all (λ k. is_some (new_rr k)) setup.root_keys

module _ {R : Type 0} (world : World R) {Network Ip Set : Type 0} (ranger : Ranger Network Ip Set)
    (inserts : (n : Network) (s : Set) → is_some (ranger.insert n s) ≡ true) where
  abbrev pub may_start : Server.Config → Bool
  may_start server =
      is_some (find_local_ip_addresses world.interfaces)
      && (all (λ cidr. is_some (ranger.parse_cidr cidr)) server.access_list
          && (is_empty server.bind_tls
              || world.loads server.tls_certificate server.tls_private_key))

  -- `NewHandler` returns, on the variables that the configuration sets
  abbrev pub may_handle : Option (Globals × Setup.Config) → Bool
  may_handle none = false
  may_handle (some (globals', config)) = is_some (new_handler world globals' config)

  -- the conditions on what was loaded
  abbrev pub may_run : Globals → Option (Setup.Config × Server.Config) → Bool
  may_run globals none = false
  may_run globals (some (setup, server)) =
      may_set_up world.new_rr world.is_level setup
      && (may_handle (config_setup world.new_rr world.is_level false globals setup)
          && may_start server)
