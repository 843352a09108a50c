-- ===== src/Examples/Nodes.antt =====
-- Configurations of a node.
use shardstore.Common.{
  ◌≡◌, ◌≢◌, ◌↔◌, ◌≤◌, refl, arith, Bytes, List, [], ◌∷◌, ◌++◌, codes, str_eq, if◌then◌else◌, ℤ, pos,
  false, pos_part, add_int,
}
use shardstore.Common.Atoi.{atoi}
use shardstore.Errors.{Result, ok}
use shardstore.Ec.{Encoder}
use shardstore.Ec.ReedSolomon.{Engine}
use shardstore.Ec.Scheme
use shardstore.Storage.Object.{encoder}
use shardstore.Config.{
  Config, level_info, level_warn, Flag, node_id_flag, ec_data_shards_flag, parse, validate,
  parse_level, apply_env, default_config,
}
use shardstore.Config.Laws.{params_of, config_validate_iff}
use shardstore.Config.Sources.{IsFromSources, parse-IsFromSources}
use shardstore.Main.{run, server_store, encoder-parse}
use shardstore.Main.Startup.{
  Machine, signalled, GoesWell, run_config, run_server, run-run_server, starting, api_listening,
  signal_received, shutdown_complete,
}
use shardstore.Storage.File.{new_file_store}
use shardstore.Examples.Parity.{parity_engine}

-- An environment with two variables, one of which is no number.
abbrev an_env : Bytes → Bytes
an_env name =
    if str_eq name (codes "SHARDSTORE_EC_PARITY_SHARDS")
    then codes "3"
    else if str_eq name (codes "SHARDSTORE_STRIPE_SIZE")
    then codes "many"
    else []

abbrev host : Result Bytes
host = ok (codes "host")

abbrev some_flags : List Bytes → Result (List Flag)
some_flags args =
    ok (ec_data_shards_flag (pos 10) ∷ node_id_flag (codes "a") ∷ ec_data_shards_flag (pos 6) ∷ [])

abbrev a_config : Config
a_config = record (default_config an_env host) { node_id = codes "a"; ec_data_shards = pos 6 }

parse_runs : parse an_env host some_flags [] ≡ ok a_config
unfolding parse parse_level str_eq default_config apply_env validate atoi add_int
parse_runs = refl

a_config_parity : a_config.ec_parity_shards ≡ pos 3
unfolding default_config apply_env atoi str_eq
a_config_parity = refl

parse-IsFromSources_example :
    (flags : List Flag) × ((some_flags [] ≡ ok flags) × IsFromSources an_env host flags a_config)
parse-IsFromSources_example = parse-IsFromSources an_env host some_flags [] a_config parse_runs

config_validate_iff_example : (validate a_config ≡ ok tt) ↔ (
    (a_config.node_id ≢ [])
    × (a_config.data_dir ≢ [])
    × (Scheme.validate (params_of a_config) ≡ ok tt)
    × (1 ≤ pos_part a_config.stripe_size))
config_validate_iff_example = config_validate_iff a_config

-- A library that makes an engine for every scheme.
abbrev any_engine : ℤ → ℤ → Result Engine
any_engine k m = ok parity_engine

encoder-parse_example :
    ((server_store a_config).stripe_size ≡ pos_part a_config.stripe_size)
    × ((enc : Encoder) × (encoder any_engine (server_store a_config) ≡ ok enc))
unfolding default_config apply_env atoi str_eq
encoder-parse_example =
    encoder-parse any_engine (λ k m hk hm h. (parity_engine, refl)) an_env host some_flags []
      a_config parse_runs (omega arith)

-- A machine on which every directory can be made, and a shutdown that is asked for succeeds.
abbrev a_machine : Machine
a_machine = record {
  make_dir = λ dir. ok tt;
  objects_dir = λ root. root ++ codes "/objects";
  disk = new_file_store;
  ended = signalled (ok tt);
}

run-run_server_example :
    ((run (λ a. (run_server an_env host some_flags a_machine a).0) (codes "server" ∷ [])).0 ≡ ok tt)
    ↔ ((cfg : Config) × (parse an_env host some_flags [] ≡ ok cfg) × GoesWell a_machine cfg)
run-run_server_example = run-run_server an_env host some_flags a_machine []

abbrev warn_config : Config
warn_config = record {
  node_id = codes "a";
  listen_addr = codes ":8080";
  data_dir = codes "data";
  log_level = level_warn;
  log_json = false;
  ec_data_shards = pos 4;
  ec_parity_shards = pos 2;
  stripe_size = pos 8;
  permissive_auth = false;
  level_name = codes "warn";
}

-- At the level INFO four lines are printed, at the level WARN none.
a_machine_runs :
    (run_config a_machine (record warn_config { log_level = level_info }) ≡ (
      ok tt,
      starting (record warn_config { log_level = level_info })
          ∷ api_listening (codes ":8080")
          ∷ signal_received
          ∷ shutdown_complete
          ∷ [],
    ))
    × (run_config a_machine warn_config ≡ (ok tt, []))
unfolding run_config
a_machine_runs = (refl, refl)
