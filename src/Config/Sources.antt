-- ===== src/Config/Sources.antt =====
-- Where the values of a configuration come from: flags, environment and fallbacks.
use shardstore.Common.{
  ◌^◌, ◌*◌, ◌≡◌, sym, ap, ◌∙◌, arith, Bytes, List, ◌||◌, str_eq, pos, Option, codes,
}
use shardstore.Common.Atoi.{atoi}
use shardstore.Errors.{Result, ok}
use shardstore.Config.{
  Config, Flag, parse, set_flag, set_flags, default_config, apply_env, host_name, fallback_config,
  to_lower,
}
use shardstore.Config.Laws.{parse-IsParsed}
use shardstore.Config.Given.{
  or_else, last_of, node_id_of, addr_of, data_dir_of, level_of, log_json_of, ec_data_shards_of,
  ec_parity_shards_of, stripe_size_of, permissive_auth_of, given, given_name, level_text,
  given_level, set_flags_lem, parse_level_lem, env_level_lem, env_string_lem, host_name_lem,
}

module _ (getenv : Bytes → Bytes) (host : Result Bytes) where
  -- Every value comes from the last of its flags, or else from its variable, or else is the fallback.
  pub record IsFromSources (flags : List Flag) (cfg : Config) : Type 0 where
    pub node_id :
        cfg.node_id
        ≡ or_else (last_of node_id_of flags) (
            or_else
              (given (getenv (codes "SHARDSTORE_NODE_ID")))
              (or_else (given_name host) (codes "node")))
    pub listen_addr :
        cfg.listen_addr
        ≡ or_else
            (last_of addr_of flags)
            (or_else (given (getenv (codes "SHARDSTORE_ADDR"))) (codes ":9000"))
    pub data_dir :
        cfg.data_dir
        ≡ or_else
            (last_of data_dir_of flags)
            (or_else (given (getenv (codes "SHARDSTORE_DATA_DIR"))) (codes "data"))
    pub log_json :
        cfg.log_json
        ≡ or_else
            (last_of log_json_of flags)
            ((str_eq (getenv (codes "SHARDSTORE_LOG_FORMAT")) (codes "json")))
    pub ec_data_shards :
        cfg.ec_data_shards
        ≡ or_else
            (last_of ec_data_shards_of flags)
            (or_else (atoi (getenv (codes "SHARDSTORE_EC_DATA_SHARDS"))) (pos 4))
    pub ec_parity_shards :
        cfg.ec_parity_shards
        ≡ or_else
            (last_of ec_parity_shards_of flags)
            (or_else (atoi (getenv (codes "SHARDSTORE_EC_PARITY_SHARDS"))) (pos 2))
    pub stripe_size :
        cfg.stripe_size
        ≡ or_else
            (last_of stripe_size_of flags)
            (or_else (atoi (getenv (codes "SHARDSTORE_STRIPE_SIZE"))) (pos (8 * 2 ^ 20)))
    pub permissive_auth :
        cfg.permissive_auth
        ≡ or_else (last_of permissive_auth_of flags) (
            str_eq (getenv (codes "SHARDSTORE_PERMISSIVE_AUTH")) (codes "true")
            || str_eq (getenv (codes "SHARDSTORE_PERMISSIVE_AUTH")) (codes "1"))
    pub log_level :
        to_lower (
          or_else
            (last_of level_of flags)
            (or_else (given_level (getenv (codes "SHARDSTORE_LOG_LEVEL"))) (codes "info")))
        ≡ level_text cfg.log_level

  node_id_default : (default_config getenv host).node_id ≡ (
      or_else
        (given (getenv (codes "SHARDSTORE_NODE_ID")))
        (or_else (given_name host) (codes "node")))
  unfolding default_config apply_env
  node_id_default = ground (
    arith,
    env_string_lem (getenv (codes "SHARDSTORE_NODE_ID")) (host_name host),
    host_name_lem host,
  )

  listen_addr_default :
      (default_config getenv host).listen_addr
      ≡ (or_else (given (getenv (codes "SHARDSTORE_ADDR"))) (codes ":9000"))
  unfolding default_config apply_env
  listen_addr_default =
      ground (arith, env_string_lem (getenv (codes "SHARDSTORE_ADDR")) (codes ":9000"))

  data_dir_default :
      (default_config getenv host).data_dir
      ≡ (or_else (given (getenv (codes "SHARDSTORE_DATA_DIR"))) (codes "data"))
  unfolding default_config apply_env
  data_dir_default =
      ground (arith, env_string_lem (getenv (codes "SHARDSTORE_DATA_DIR")) (codes "data"))

  log_json_default :
      (default_config getenv host).log_json
      ≡ ((str_eq (getenv (codes "SHARDSTORE_LOG_FORMAT")) (codes "json")))
  unfolding default_config apply_env
  log_json_default = ground arith

  ec_data_shards_default :
      (default_config getenv host).ec_data_shards
      ≡ (or_else (atoi (getenv (codes "SHARDSTORE_EC_DATA_SHARDS"))) (pos 4))
  unfolding default_config apply_env
  ec_data_shards_default = ground arith

  ec_parity_shards_default :
      (default_config getenv host).ec_parity_shards
      ≡ (or_else (atoi (getenv (codes "SHARDSTORE_EC_PARITY_SHARDS"))) (pos 2))
  unfolding default_config apply_env
  ec_parity_shards_default = ground arith

  stripe_size_default :
      (default_config getenv host).stripe_size
      ≡ (or_else (atoi (getenv (codes "SHARDSTORE_STRIPE_SIZE"))) (pos (8 * 2 ^ 20)))
  unfolding default_config apply_env
  stripe_size_default = ground arith

  permissive_auth_default : (default_config getenv host).permissive_auth ≡ (
      str_eq (getenv (codes "SHARDSTORE_PERMISSIVE_AUTH")) (codes "true")
      || str_eq (getenv (codes "SHARDSTORE_PERMISSIVE_AUTH")) (codes "1"))
  unfolding default_config apply_env
  permissive_auth_default = ground arith

  level_name_default :
      (default_config getenv host).level_name
      ≡ or_else (given_level (getenv (codes "SHARDSTORE_LOG_LEVEL"))) (codes "info")
  unfolding default_config apply_env
  level_name_default = env_level_lem (getenv (codes "SHARDSTORE_LOG_LEVEL")) (fallback_config host)

  -- A field of the configuration that only the flags of one kind change.
  field_lem :
      {A : Type 0} (field : Config → A) (kind : Flag → Option A) (fallback : A) (flags : List Flag)
      → ((f : Flag) (c : Config) → field (set_flag f c) ≡ or_else (kind f) (field c))
      → field (default_config getenv host) ≡ fallback
      → field (set_flags flags (default_config getenv host)) ≡ or_else (last_of kind flags) fallback
  field_lem field kind fallback flags each default =
      set_flags_lem field kind each flags (default_config getenv host)
      ∙ ap (or_else (last_of kind flags)) default

  -- A configuration that Parse returns has the value of the last flag of its kind in each field; where
  -- there is no such flag, that of the environment variable, if it is set to a value that can be used;
  -- and the fallback of the source otherwise. Its log level is the one that its name, so found, names.
  pub parse-IsFromSources :
      (parse_flags : List Bytes → Result (List Flag)) (args : List Bytes) (cfg : Config)
      → parse getenv host parse_flags args ≡ ok cfg
      → (flags : List Flag) × ((parse_flags args ≡ ok flags) × IsFromSources flags cfg)
  parse-IsFromSources parse_flags args cfg h =
      let w = parse-IsParsed getenv host parse_flags args cfg h in
      (
        w.flags,
        (
          w.found,
          record {
            node_id =
                ap (λ (c : Config). c.node_id) w.eq
                ∙ field_lem (λ c. c.node_id) node_id_of _ w.flags (λ f c. ground arith)
                    node_id_default;
            listen_addr =
                ap (λ (c : Config). c.listen_addr) w.eq
                ∙ field_lem (λ c. c.listen_addr) addr_of _ w.flags (λ f c. ground arith)
                    listen_addr_default;
            data_dir =
                ap (λ (c : Config). c.data_dir) w.eq
                ∙ field_lem (λ c. c.data_dir) data_dir_of _ w.flags (λ f c. ground arith)
                    data_dir_default;
            log_json =
                ap (λ (c : Config). c.log_json) w.eq
                ∙ field_lem (λ c. c.log_json) log_json_of _ w.flags (λ f c. ground arith)
                    log_json_default;
            ec_data_shards =
                ap (λ (c : Config). c.ec_data_shards) w.eq
                ∙ field_lem (λ c. c.ec_data_shards) ec_data_shards_of _ w.flags
                    (λ f c. ground arith) ec_data_shards_default;
            ec_parity_shards =
                ap (λ (c : Config). c.ec_parity_shards) w.eq
                ∙ field_lem (λ c. c.ec_parity_shards) ec_parity_shards_of _ w.flags
                    (λ f c. ground arith) ec_parity_shards_default;
            stripe_size =
                ap (λ (c : Config). c.stripe_size) w.eq
                ∙ field_lem (λ c. c.stripe_size) stripe_size_of _ w.flags (λ f c. ground arith)
                    stripe_size_default;
            permissive_auth =
                ap (λ (c : Config). c.permissive_auth) w.eq
                ∙ field_lem (λ c. c.permissive_auth) permissive_auth_of _ w.flags
                    (λ f c. ground arith) permissive_auth_default;
            log_level =
                ap to_lower (
                  sym (
                    field_lem (λ c. c.level_name) level_of _ w.flags (λ f c. ground arith)
                      level_name_default))
                ∙ parse_level_lem _ cfg.log_level w.level;
          },
        ),
      )
