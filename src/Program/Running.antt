-- ===== src/Program/Running.antt =====
-- What runs after `main`, and when it does (main.go, config.go).
use sdns.Base.{◌≡◌, refl, Bytes, Option, none, ◌>>=◌}
use sdns.Program.{
  File, missing, unreadable, text, Copied, refused, broken, whole, load_config, Process, World,
  new_handler, set_up_and_start, main,
}
use sdns.Server
use sdns.Server.{Addr, Ranger, Started, find_local_ip_addresses, build_access, run, server_of}
use sdns.Server.Access.{IsStarted}
use sdns.Setup
use sdns.Setup.{Globals, parse_keys}
use sdns.Setup.Effects.{IsSetUp}

-- the file that a start leaves: its own text, or what was made of the default one
abbrev left_by : Copied → Bytes → File → File
left_by refused default missing = missing
left_by (broken part) default missing = text part
left_by whole default missing = text default
left_by copied default unreadable = unreadable
left_by copied default (text t) = text t

-- the configuration of a start, which breaks off where the file could not be made
abbrev pub loadable {ℓ} : {C : Type ℓ} → (Bytes → Option C) → Copied → Bytes → File → Option C
loadable decode refused default missing = none
loadable decode (broken part) default missing = none
loadable decode whole default missing = decode default
loadable decode copied default unreadable = none
loadable decode copied default (text t) = decode t

load_config-loadable {ℓ} :
    {C : Type ℓ} (decode : Bytes → Option C) (copied : Copied) (default : Bytes) (file : File)
    → load_config decode copied default file
      ≡ (left_by copied default file, loadable decode copied default file)
unfolding load_config
load_config-loadable decode refused default missing = refl
load_config-loadable decode (broken part) default missing = refl
load_config-loadable decode whole default missing = refl
load_config-loadable decode refused default unreadable = refl
load_config-loadable decode (broken part) default unreadable = refl
load_config-loadable decode whole default unreadable = refl
load_config-loadable decode refused default (text t) = refl
load_config-loadable decode (broken part) default (text t) = refl
load_config-loadable decode whole default (text t) = refl

module _ {R : Type 0} (world : World R) {Network Ip Set : Type 0}
    (ranger : Ranger Network Ip Set) where
  pub main-loadable :
      (copied : Copied) (default : Bytes) (globals : Globals) (file : File)
      → main world ranger copied default globals file ≡ (
        left_by copied default file,
        loadable world.decode copied default file >>= set_up_and_start world ranger globals,
      )
  unfolding main
  main-loadable copied default globals file =
      rw (load_config-loadable world.decode copied default file) refl

  -- what runs: the variables are those of the configuration, and `start` has done its work on a handler
  -- that comes from these variables
  abbrev pub Runs : Globals → Setup.Config → Server.Config → Process R Set → Type 0
  Runs globals setup server p =
      IsSetUp world.new_rr world.is_level globals setup p.globals p.config
      × IsStarted ranger server world.loads (new_handler world p.globals p.config) p.started
