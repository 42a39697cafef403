-- ===== src/Tests/Program.antt =====
-- Examples for the start from the file of the configuration.
use sdns.Base.{ℕ, ◌≡◌, refl, List, [], ◌∷◌, Bytes, codes, Option, none, some}
use sdns.Cache.Servers
use sdns.Program
use sdns.Program.{File, missing, text, broken, whole, Process, World, new_handler, main}
use sdns.Program.Running
use sdns.Program.Starting
use sdns.Server
use sdns.Setup
use sdns.Setup.{Globals}
use sdns.Dns.{Rr}
use sdns.Server.Events.{new_caches}
use sdns.Tests.Priming.{quiet, primed}
use sdns.Tests.Queries.{idle}
use sdns.Tests.Servers.{root_key}
use sdns.Tests.Setup.{file as default_file, globals, is_level}
use sdns.Tests.Starting.{config as default_config, ranger, loads, interfaces, started}

program : Unit {0}
unfolding main Program.load_config Program.generate_config Program.set_up_and_start
    Setup.config_setup Setup.parse_keys Setup.configured Servers.new_auth_server Server.start
    Server.interface_addresses Server.v4_addresses Server.build_access Server.run Server.listen
program = tt

abbrev new_root : Bytes → Option Rr
new_root [] = none
new_root (c ∷ s) = some root_key

-- every text decodes to one configuration, and nothing can be reached in the network
abbrev world : World ℕ
world = record {
  decode = λ t. some (default_file, default_config);
  new_rr = new_root;
  is_level = is_level;
  loads = loads;
  interfaces = interfaces;
  env = quiet;
  fuel = 33;
  block_list = idle.block_list;
}

abbrev set : Globals
set = Setup.set_globals default_file (root_key ∷ []) globals

abbrev process : Process ℕ (List Bytes)
process = record {
  globals = set;
  config = Setup.bounded default_file;
  started = record started { handler = (new_caches ℕ 1024 10 600 idle.block_list, set.roots) };
}

handled :
    new_handler world set (Setup.bounded default_file)
    ≡ some (new_caches ℕ 1024 10 600 idle.block_list, set.roots)
unfolding program Program.new_handler
handled =
    primed (Servers.new_auth_server (codes "198.41.0.4:53")) set.fallback set.roots.v6 10 600
      idle.block_list

set_up : Program.set_up_and_start world ranger globals (default_file, default_config) ≡ some process
unfolding program
set_up = rw handled refl

-- The file breaks off and the program exits, but the next start takes the part for its configuration.
breaks :
    main world ranger (broken (codes "def")) (codes "default") globals missing
    ≡ (text (codes "def"), none)
unfolding program
breaks = refl

takes_the_part :
    main world ranger whole (codes "default") globals (text (codes "def"))
    ≡ (text (codes "def"), some process)
unfolding main Program.load_config Program.generate_config
takes_the_part = rw set_up refl
