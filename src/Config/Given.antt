-- ===== src/Config/Given.antt =====
-- The values that flags and environment variables give, apart from how the code reads them.
use shardstore.Common.{
  ◌≡◌, refl, ap, ◌∙◌, arith, Bytes, List, [], ◌∷◌, Bool, ◌||◌, str_eq, str_eq_iff, if◌then◌else◌, ℤ,
  Option, none, some, codes, Bool-cases, inl, inr,
}
use shardstore.Errors.{Result, ok, err}
use shardstore.Config.{
  Config, Flag, node_id_flag, addr_flag, data_dir_flag, log_level_flag, log_json_flag,
  ec_data_shards_flag, ec_parity_shards_flag, stripe_size_flag, permissive_auth_flag, parse_level,
  set_flag, set_flags, env_string, env_level, host_name, to_lower, Level, level_debug, level_info,
  level_warn, level_error,
}

abbrev pub or_else {ℓ} : {A : Type ℓ} → Option A → A → A
or_else none old = old
or_else (some v) old = v

-- The last flag of a kind on the command line.
abbrev pub last_of : {A : Type 0} → (Flag → Option A) → List Flag → Option A
last_of kind [] = none
last_of kind (f ∷ fs) = elim (last_of kind fs) [ none ↦ kind f | some v ↦ some v ]

-- The values of the flags of each kind.
abbrev pub node_id_of : Flag → Option Bytes
node_id_of (node_id_flag v) = some v
node_id_of _ = none

abbrev pub addr_of : Flag → Option Bytes
addr_of (addr_flag v) = some v
addr_of _ = none

abbrev pub data_dir_of : Flag → Option Bytes
data_dir_of (data_dir_flag v) = some v
data_dir_of _ = none

abbrev pub level_of : Flag → Option Bytes
level_of (log_level_flag v) = some v
level_of _ = none

abbrev pub log_json_of : Flag → Option Bool
log_json_of (log_json_flag v) = some v
log_json_of _ = none

abbrev pub ec_data_shards_of : Flag → Option ℤ
ec_data_shards_of (ec_data_shards_flag v) = some v
ec_data_shards_of _ = none

abbrev pub ec_parity_shards_of : Flag → Option ℤ
ec_parity_shards_of (ec_parity_shards_flag v) = some v
ec_parity_shards_of _ = none

abbrev pub stripe_size_of : Flag → Option ℤ
stripe_size_of (stripe_size_flag v) = some v
stripe_size_of _ = none

abbrev pub permissive_auth_of : Flag → Option Bool
permissive_auth_of (permissive_auth_flag v) = some v
permissive_auth_of _ = none

-- A field that only the flags of one kind change.
pub set_flags_lem :
    {A : Type 0} (field : Config → A) (kind : Flag → Option A)
    → ((f : Flag) (c : Config) → field (set_flag f c) ≡ or_else (kind f) (field c))
    → (fs : List Flag) (c : Config) → field (set_flags fs c) ≡ or_else (last_of kind fs) (field c)
unfolding set_flags
set_flags_lem field kind h [] c = refl
set_flags_lem {A = A} field kind h (f ∷ fs) c =
    set_flags_lem field kind h fs (set_flag f c) ∙ helper (last_of kind fs)
  where
    helper :
        (o : Option A)
        → or_else o (field (set_flag f c))
          ≡ or_else (elim o [ none ↦ kind f | some v ↦ some v ]) (field c)
    helper none = h f c
    helper (some v) = refl

-- A variable of the environment that is set.
abbrev pub given : Bytes → Option Bytes
given [] = none
given (c ∷ v) = some (c ∷ v)

-- The name of the machine, where there is one.
abbrev pub given_name : Result Bytes → Option Bytes
given_name (err e) = none
given_name (ok name) = given name

-- The names of the levels, in lower case.
abbrev pub level_text : Level → Bytes
level_text level_debug = codes "debug"
level_text level_info = codes "info"
level_text level_warn = codes "warn"
level_text level_error = codes "error"

-- Whether a text names a level, in any case of its letters, and then the text itself.
abbrev pub is_level_name : Bytes → Bool
is_level_name v =
    str_eq (to_lower v) (codes "debug")
    || str_eq (to_lower v) (codes "info")
    || str_eq (to_lower v) (codes "warn")
    || str_eq (to_lower v) (codes "error")

abbrev pub given_level : Bytes → Option Bytes
given_level v = if is_level_name v then some v else none

pub parse_level_lem : (v : Bytes) (l : Level) → parse_level v ≡ ok l → to_lower v ≡ level_text l
unfolding parse_level
parse_level_lem v l h =
    let name = to_lower v in
    elim (Bool-cases (str_eq name (codes "debug"))) [
      | inl e ↦
          (str_eq_iff name (codes "debug")).0 e
          ∙ (let is : level_debug ≡ l = ground (arith, h, e) in ap level_text is)
      | inr e₁ ↦ elim (Bool-cases (str_eq name (codes "info"))) [
        | inl e ↦
            (str_eq_iff name (codes "info")).0 e
            ∙ (let is : level_info ≡ l = ground (arith, h, e₁, e) in ap level_text is)
        | inr e₂ ↦ elim (Bool-cases (str_eq name (codes "warn"))) [
          | inl e ↦
              (str_eq_iff name (codes "warn")).0 e
              ∙ (let is : level_warn ≡ l = ground (arith, h, e₁, e₂, e) in ap level_text is)
          | inr e₃ ↦ elim (Bool-cases (str_eq name (codes "error"))) [
            | inl e ↦
                (str_eq_iff name (codes "error")).0 e
                ∙ (let is : level_error ≡ l = ground (arith, h, e₁, e₂, e₃, e) in ap level_text is)
            | inr e₄ ↦ absurd (ground (arith, h, e₁, e₂, e₃, e₄))
          ]
        ]
      ]
    ]

pub env_level_lem :
    (v : Bytes) (c : Config) → (env_level v c).level_name ≡ or_else (given_level v) c.level_name
unfolding parse_level
env_level_lem v c = ground arith

pub env_string_lem : (v old : Bytes) → env_string v old ≡ or_else (given v) old
unfolding str_eq
env_string_lem [] old = refl
env_string_lem (c ∷ v) old = refl

pub host_name_lem :
    (host : Result Bytes) → host_name host ≡ or_else (given_name host) (codes "node")
unfolding str_eq
host_name_lem (err e) = refl
host_name_lem (ok []) = refl
host_name_lem (ok (c ∷ name)) = refl
