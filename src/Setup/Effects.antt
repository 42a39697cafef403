-- ===== src/Setup/Effects.antt =====
-- The resolver's variables and the bounds after `configSetup` (main.go).
use sdns.Base.{
  ℕ, ◌⊎◌, ◌≡◌, ◌≤◌, refl, Bool, false, List, [], ◌∷◌, map, Bytes, Option, none, some, arith,
  Bool-cases, Option-cases, inl, inr, ltb, ap,
}
use sdns.Cache.Servers.{AuthServers, new_auth_server}
use sdns.Cache.Servers.Sorting.{hosts}
use sdns.Dns.{Rr}
use sdns.Records.{is_empty}
use sdns.Resolver.Priming.Roots.{or_before}
use sdns.Setup.{
  Config, Globals, configured, least_timeout, least_size, at_least, set_globals, bounded, for_test,
  parse_keys, config_setup,
}

hosts-new_servers : (names : List Bytes) → hosts (map new_auth_server names) ≡ names
unfolding new_auth_server
hosts-new_servers [] = refl
hosts-new_servers (name ∷ names) = ap (λ later. name ∷ later) (hosts-new_servers names)

hosts-configured :
    (names : List Bytes) (before : AuthServers)
    → hosts (configured names before).list ≡ or_before names (hosts before.list)
unfolding configured
hosts-configured [] before = refl
hosts-configured (name ∷ names) before = hosts-new_servers (name ∷ names)

at_least_lem : (least n : ℕ) → (least ≤ at_least least n) × (n ≤ at_least least n)
at_least_lem least n = elim (Bool-cases (ltb n least)) [
  | inl e ↦ rw e (ground arith)
  | inr e ↦ rw e (ground arith)
]

module _ (new_rr : Bytes → Option Rr) (is_level : Bytes → Bool) where
  -- what a configuration leaves
  pub record IsSetUp (globals : Globals) (config : Config) (globals' : Globals) (config' : Config)
      : Type 0 where
    pub v4_hosts :
        hosts globals'.roots.v4.list ≡ or_before config.root_servers (hosts globals.roots.v4.list)
    pub v6_hosts :
        hosts globals'.roots.v6.list ≡ or_before config.root6_servers (hosts globals.roots.v6.list)
    pub fallback_hosts :
        hosts globals'.fallback.list
        ≡ or_before config.fallback_servers (hosts globals.fallback.list)
    pub keys_parsed :
        is_empty config.root_keys ≡ false
        → parse_keys new_rr is_level config.root_keys ≡ some globals'.rootkeys
    pub timeout_bound : (least_timeout ≤ config'.timeout) × (config.timeout ≤ config'.timeout)
    pub connect_bound :
        (least_timeout ≤ config'.connect_timeout)
        × (config.connect_timeout ≤ config'.connect_timeout)
    pub size_bound : (least_size ≤ config'.cache_size) × (config.cache_size ≤ config'.cache_size)

  set_up :
      (globals : Globals) (config : Config) (keys : List Rr)
      → (is_empty config.root_keys ≡ false
          → parse_keys new_rr is_level config.root_keys ≡ some keys)
      → IsSetUp globals config (set_globals config keys globals) (bounded config)
  set_up globals config keys parsed = record {
    v4_hosts = hosts-configured config.root_servers globals.roots.v4;
    v6_hosts = hosts-configured config.root6_servers globals.roots.v6;
    fallback_hosts = hosts-configured config.fallback_servers globals.fallback;
    keys_parsed = parsed;
    timeout_bound = at_least_lem least_timeout config.timeout;
    connect_bound = at_least_lem least_timeout config.connect_timeout;
    size_bound = at_least_lem least_size config.cache_size;
  }

  -- what the setup ends with: an exit, for a log level or a key that is not known, or a configuration
  abbrev pub Sets : Globals → Config → Option (Globals × Config) → Type 0
  Sets globals config none =
      (is_level config.log_level ≡ false)
      ⊎ ((is_empty config.root_keys ≡ false) × (parse_keys new_rr is_level config.root_keys ≡ none))
  Sets globals config (some (globals', config')) = IsSetUp globals config globals' config'

  -- The setup exits only for an unknown log level or a root key that does not parse. Otherwise each
  -- list of servers has the hosts of the configuration in their order, or those from before if it names
  -- none; the root keys are the parsed ones; and no timeout and no cache size was lowered, or is below
  -- 250 milliseconds and 1024 entries.
  pub config_setup-Sets :
      (test : Bool) (globals : Globals) (file : Config)
      → Sets globals (for_test test file) (config_setup new_rr is_level test globals file)
  unfolding config_setup
  config_setup-Sets test globals file =
      let config = for_test test file in
      elim (Bool-cases (is_level config.log_level)) [
        | inr e ↦ rw (e, config_setup) (inl e)
        | inl e ↦ elim (Bool-cases (is_empty config.root_keys)) [
          | inl f ↦
              rw (e, config_setup, f)
                (set_up globals config globals.rootkeys (λ n. absurd (ground arith)))
          | inr f ↦ elim (Option-cases (parse_keys new_rr is_level config.root_keys)) [
            | inl g ↦ rw (e, config_setup, f, g) (inr (f, g))
            | inr (keys, g) ↦ rw (e, config_setup, f, g) (set_up globals config keys (λ n. g))
          ]
        ]
      ]
