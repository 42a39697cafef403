-- ===== src/Program.antt =====
-- The program's start: `main` (main.go) up to the signal that ends it, with `LoadConfig` and
-- `generateConfig` (config.go). The decoding of TOML is a parameter, as is the text of the default
-- configuration, which the code only writes; the creation of the file may fail. `none` is the exit of
-- `log.Crit`, or a panic.
pub mod Running
pub mod Starting
use sdns.Base.{ℕ, Bool, true, false, Bytes, Option, none, some, if◌then◌else◌, ◌>>=◌, List}
use sdns.Cache.BlockCache.{BlockCache}
use sdns.Dns.{Rr}
use sdns.Handler.Env.{State}
use sdns.Resolver.Env.{Env}
use sdns.Resolver.Priming.{RootServers}
use sdns.Server
use sdns.Server.{Addr, Ranger, Started, start}
use sdns.Server.Events.{new_resolver}
use sdns.Setup
use sdns.Setup.{Globals, config_setup}

-- the file at the path of the configuration
pub data File : Type 0 where
  missing unreadable : File
  text : Bytes → File

-- What making the file gives: an error of `os.Create`, an error of `io.Copy` after a part, or neither.
pub data Copied : Type 0 where
  refused : Copied
  broken : Bytes → Copied
  whole : Copied

-- `generateConfig`, with false for an error
unfoldable pub generate_config : Copied → Bytes → File → File × Bool
generate_config refused default file = (file, false)
generate_config (broken part) default file = (text part, false)
generate_config whole default file = (text default, true)

-- `toml.DecodeFile`
abbrev pub decode_file {ℓ} : {C : Type ℓ} → (Bytes → Option C) → File → Option C
decode_file decode missing = none
decode_file decode unreadable = none
decode_file decode (text t) = decode t

-- `LoadConfig`: the file after it, and the configuration
unfoldable pub load_config {ℓ} :
    {C : Type ℓ} → (Bytes → Option C) → Copied → Bytes → File → File × Option C
unfolding generate_config
load_config decode copied default missing =
    let (file, made) = generate_config copied default missing in
    (file, if made then decode_file decode file else none)
load_config decode copied default unreadable = (unreadable, decode_file decode unreadable)
load_config decode copied default (text t) = (text t, decode_file decode (text t))

-- what is there once the servers run: the variables and the configuration after `configSetup`, and what
-- `start` leaves, with the caches of the handler and the root servers after their update
pub record Process (R Set : Type 0) : Type 0 where
  pub globals : Globals
  pub config : Setup.Config
  pub started : Started Set (State R × RootServers)

-- The program's surroundings: the decoding of TOML, the parsing of a key and of a log level, the
-- certificates, the interfaces, and the resolver's, up to its variables, with fuel for its `Resolve`.
pub record World (R : Type 0) : Type 0 where
  pub decode : Bytes → Option (Setup.Config × Server.Config)
  pub new_rr : Bytes → Option Rr
  pub is_level : Bytes → Bool
  pub loads : Bytes → Bytes → Bool
  pub interfaces : Option (List (Option (List Addr)))
  pub env : Env R
  pub fuel : ℕ
  pub block_list : BlockCache

-- the resolver's environment with its variables
abbrev pub env_of : {R : Type 0} → Globals → Env R → Env R
env_of globals env = record env {
  rootservers = globals.roots.v4;
  fallbackservers = globals.fallback;
  rootkeys = globals.rootkeys;
}

module _ {R : Type 0} (world : World R) where
  -- `NewHandler`
  unfoldable pub new_handler : Globals → Setup.Config → Option (State R × RootServers)
  new_handler globals config =
      new_resolver (env_of globals world.env) world.fuel globals.roots.v6 config.cache_size
        config.rate_limit config.expire world.block_list

  module _ {Network Ip Set : Type 0} (ranger : Ranger Network Ip Set) where
    -- `configSetup` and `start` after the file is read
    unfoldable pub set_up_and_start :
        Globals → Setup.Config × Server.Config → Option (Process R Set)
    set_up_and_start globals (setup, server) = do
      (globals', config) ← config_setup world.new_rr world.is_level false globals setup
      started ← start ranger world.loads (new_handler globals' config) world.interfaces server
      some (record { globals = globals'; config = config; started = started })

    -- `main`
    unfoldable pub main : Copied → Bytes → Globals → File → File × Option (Process R Set)
    unfolding load_config set_up_and_start
    main copied default globals file =
        let (file', loaded) = load_config world.decode copied default file in
        (file', loaded >>= set_up_and_start globals)
