-- ===== src/Config.antt =====
-- internal/config/config.go: the configuration of a node, from defaults, environment variables and flags.
pub mod Laws
pub mod Sources
pub mod Given
use shardstore.Common.{
  ℕ, ◌*◌, ◌^◌, ◌+◌, Bool, true, false, ◌&&◌, ◌||◌, not, Bytes, List, [], ◌∷◌, codes, str_eq, ℤ, pos,
  ltb_ℤ, add_int, leb, ◌==◌,
}
use shardstore.Common.{if◌then◌else◌, Option, none, some}
use shardstore.Common.Atoi.{atoi}
use shardstore.Errors.{Result, ok, err, message, ◌>>=◌}

-- The levels of log/slog that can be asked for.
pub data Level : Type 0 where
  level_debug level_info level_warn level_error : Level

pub record Config : Type 0 where
  pub node_id : Bytes
  pub listen_addr : Bytes
  pub data_dir : Bytes
  pub log_level : Level
  pub log_json : Bool
  pub ec_data_shards : ℤ
  pub ec_parity_shards : ℤ
  pub stripe_size : ℤ
  pub permissive_auth : Bool
  pub level_name : Bytes

-- `strings.ToLower`, as far as the names of levels can tell: of the characters outside of ASCII only
-- U+0130, the bytes 196 and 176, has one of their letters, i, as its lower case.
abbrev pub lower_byte : ℕ → ℕ
lower_byte c = if leb 65 c && leb c 90 then c + 32 else c

unfoldable pub to_lower : Bytes → Bytes
to_lower [] = []
to_lower (c ∷ []) = lower_byte c ∷ []
to_lower (c ∷ d ∷ s) = elim ((c == 196) && (d == 176)) [
  | true ↦ 105 ∷ to_lower s
  | false ↦ lower_byte c ∷ to_lower (d ∷ s)
]

unfoldable pub parse_level : Bytes → Result Level
unfolding to_lower
parse_level s =
    let name = to_lower s in
    if str_eq name (codes "debug")
    then ok level_debug
    else if str_eq name (codes "info")
    then ok level_info
    else if str_eq name (codes "warn")
    then ok level_warn
    else if str_eq name (codes "error")
    then ok level_error
    else err (message "invalid log level")

unfoldable pub validate : Config → Result (Unit {0})
validate c =
    if str_eq c.node_id []
    then err (message "node-id must not be empty")
    else if str_eq c.data_dir []
    then err (message "data-dir must not be empty")
    else if ltb_ℤ c.ec_data_shards (pos 1)
    then err (message "ec-data-shards must be >= 1")
    else if ltb_ℤ c.ec_parity_shards (pos 1)
    then err (message "ec-parity-shards must be >= 1")
    else if ltb_ℤ (pos 256) (add_int c.ec_data_shards c.ec_parity_shards)
    then err (message "total shards exceeds the 256-shard limit of Reed-Solomon")
    else if not (ltb_ℤ (pos 0) c.stripe_size)
    then err (message "stripe-size must be > 0")
    else ok tt

-- `if v := os.Getenv(…); v != "" { c.Field = v }`
abbrev pub env_string : Bytes → Bytes → Bytes
env_string v old = if str_eq v [] then old else v

-- `if n, err := strconv.Atoi(v); err == nil { c.Field = n }`; no number is empty.
abbrev pub env_int : Bytes → ℤ → ℤ
env_int v old = elim (atoi v) [ none ↦ old | some n ↦ n ]

-- `if lv, err := parseLevel(v); err == nil { … }`; no level has an empty name.
abbrev pub env_level : Bytes → Config → Config
env_level v c = elim (parse_level v) [
  | err e ↦ c
  | ok level ↦ record c { log_level = level; level_name = v }
]

-- `Default`, before and with the environment; `os.Hostname` gives a name or an error.
abbrev pub host_name : Result Bytes → Bytes
host_name (err e) = codes "node"
host_name (ok name) = if str_eq name [] then codes "node" else name

abbrev pub fallback_config : Result Bytes → Config
fallback_config host = record {
  node_id = host_name host;
  listen_addr = codes ":9000";
  data_dir = codes "data";
  log_level = level_info;
  log_json = false;
  ec_data_shards = pos 4;
  ec_parity_shards = pos 2;
  stripe_size = pos (8 * 2 ^ 20);
  permissive_auth = false;
  level_name = codes "info";
}

-- `os.Getenv` is an argument.
module _ (getenv : Bytes → Bytes) where
  unfoldable pub apply_env : Config → Config
  apply_env c =
      let c = env_level (getenv (codes "SHARDSTORE_LOG_LEVEL")) c in
      record c {
        node_id = env_string (getenv (codes "SHARDSTORE_NODE_ID")) c.node_id;
        listen_addr = env_string (getenv (codes "SHARDSTORE_ADDR")) c.listen_addr;
        data_dir = env_string (getenv (codes "SHARDSTORE_DATA_DIR")) c.data_dir;
        log_json = str_eq (getenv (codes "SHARDSTORE_LOG_FORMAT")) (codes "json") || c.log_json;
        ec_data_shards = env_int (getenv (codes "SHARDSTORE_EC_DATA_SHARDS")) c.ec_data_shards;
        ec_parity_shards =
            env_int (getenv (codes "SHARDSTORE_EC_PARITY_SHARDS")) c.ec_parity_shards;
        stripe_size = env_int (getenv (codes "SHARDSTORE_STRIPE_SIZE")) c.stripe_size;
        permissive_auth =
            str_eq (getenv (codes "SHARDSTORE_PERMISSIVE_AUTH")) (codes "true")
            || str_eq (getenv (codes "SHARDSTORE_PERMISSIVE_AUTH")) (codes "1")
            || c.permissive_auth;
      }

  unfoldable pub default_config : Result Bytes → Config
  default_config host = apply_env (fallback_config host)

-- A flag of `RegisterFlags` on the command line, with its value.
pub data Flag : Type 0 where
  node_id_flag addr_flag data_dir_flag log_level_flag : Bytes → Flag
  log_json_flag : Bool → Flag
  ec_data_shards_flag ec_parity_shards_flag stripe_size_flag : ℤ → Flag
  permissive_auth_flag : Bool → Flag

-- The variable of the flag.
abbrev pub set_flag : Flag → Config → Config
set_flag (node_id_flag v) c = record c { node_id = v }
set_flag (addr_flag v) c = record c { listen_addr = v }
set_flag (data_dir_flag v) c = record c { data_dir = v }
set_flag (log_level_flag v) c = record c { level_name = v }
set_flag (log_json_flag v) c = record c { log_json = v }
set_flag (ec_data_shards_flag v) c = record c { ec_data_shards = v }
set_flag (ec_parity_shards_flag v) c = record c { ec_parity_shards = v }
set_flag (stripe_size_flag v) c = record c { stripe_size = v }
set_flag (permissive_auth_flag v) c = record c { permissive_auth = v }

-- The flags in the order of the command line.
unfoldable pub set_flags : List Flag → Config → Config
set_flags [] c = c
set_flags (f ∷ fs) c = set_flags fs (set_flag f c)

-- The second half of `Parse`, behind the flags.
abbrev pub accept : Config → Result (Unit {0}) → Result Config
accept cfg (err e) = err e
accept cfg (ok u) = ok cfg

abbrev pub with_level : Config → Result Level → Result Config
with_level cfg (err e) = err e
with_level cfg (ok level) = let cfg = record cfg { log_level = level } in accept cfg (validate cfg)

-- `flag.FlagSet.Parse` is an argument: the flags that it finds in `args`, or its error.
module _ (getenv : Bytes → Bytes) (host : Result Bytes)
    (parse_flags : List Bytes → Result (List Flag)) where
  unfoldable pub parse : List Bytes → Result Config
  unfolding set_flags
  parse args = do
    fs ← parse_flags args
    let cfg = set_flags fs (default_config getenv host)
    with_level cfg (parse_level cfg.level_name)
