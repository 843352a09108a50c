-- ===== src/Config/Laws.antt =====
-- Which configurations `Parse` accepts, and where their values come from.
use shardstore.Common.{
  ◌≤◌, ◌≡◌, ◌≢◌, ◌↔◌, refl, sym, ap, ◌∙◌, arith, Bytes, List, [], str_eq_iff, ℤ, pos, negsuc,
  pos_part,
}
use shardstore.Errors.{Result, ok, err, ◌>>=◌}
use shardstore.Ec.Scheme
use shardstore.Ec.Scheme.{Params}
use shardstore.Config.{
  Config, Level, Flag, validate, accept, with_level, parse, parse_level, set_flags, default_config,
}

abbrev pub params_of : Config → Params
params_of c = record { data_shards = c.ec_data_shards; parity_shards = c.ec_parity_shards }

-- `validate` accepts exactly the configurations with a node id, a data directory, a scheme that
-- `Validate` of the erasure coding accepts, and a stripe size of at least one byte.
pub config_validate_iff :
    (c : Config)
    → (validate c ≡ ok tt) ↔ (
        (c.node_id ≢ [])
        × (c.data_dir ≢ [])
        × (Scheme.validate (params_of c) ≡ ok tt)
        × (1 ≤ pos_part c.stripe_size))
unfolding validate Scheme.validate Scheme.shard_count
config_validate_iff c = helper c.stripe_size
  where
    helper :
        (n : ℤ)
        → (validate (record c { stripe_size = n }) ≡ ok tt) ↔ (
            (c.node_id ≢ [])
            × (c.data_dir ≢ [])
            × (Scheme.validate (params_of c) ≡ ok tt)
            × (1 ≤ pos_part n))
    helper (pos n) = ground (arith, str_eq_iff c.node_id [], str_eq_iff c.data_dir [])
    helper (negsuc n) = ground (arith, str_eq_iff c.node_id [], str_eq_iff c.data_dir [])

module _ (getenv : Bytes → Bytes) (host : Result Bytes)
    (parse_flags : List Bytes → Result (List Flag)) where
  -- What `Parse` does when it succeeds.
  pub record IsParsed (args : List Bytes) (cfg : Config) : Type 0 where
    pub flags : List Flag
    pub found : parse_flags args ≡ ok flags
    pub level :
        parse_level (set_flags flags (default_config getenv host)).level_name ≡ ok cfg.log_level
    pub valid : validate cfg ≡ ok tt
    pub eq :
        cfg ≡ record (set_flags flags (default_config getenv host)) { log_level = cfg.log_level }

  accepted :
      (c cfg : Config) (v : Result (Unit {0}))
      → validate c ≡ v
      → accept c v ≡ ok cfg
      → (cfg ≡ c) × (validate cfg ≡ ok tt)
  accepted c cfg (err e) same h = absurd (ground (arith, h))
  accepted c cfg (ok u) same h =
      let eq : c ≡ cfg = ground (arith, h) in (sym eq, ap validate (sym eq) ∙ same)

  levelled :
      (args : List Bytes) (flags : List Flag) (cfg : Config) (l : Result Level)
      → parse_flags args ≡ ok flags
      → parse_level (set_flags flags (default_config getenv host)).level_name ≡ l
      → with_level (set_flags flags (default_config getenv host)) l ≡ ok cfg
      → IsParsed args cfg
  levelled args flags cfg (err e) found same h = absurd (ground (arith, h))
  levelled args flags cfg (ok level) found same h =
      let c = record (set_flags flags (default_config getenv host)) { log_level = level } in
      let (eq, valid) = accepted c cfg (validate c) refl h in
      let log_level : cfg.log_level ≡ level = ap (λ (d : Config). d.log_level) eq in
      record {
        flags = flags;
        found = found;
        level = same ∙ ap ok (sym log_level);
        valid = valid;
        eq =
            eq
            ∙ ap (λ x. record (set_flags flags (default_config getenv host)) { log_level = x })
                (sym log_level);
      }

  pub parse-IsParsed :
      (args : List Bytes) (cfg : Config)
      → parse getenv host parse_flags args ≡ ok cfg
      → IsParsed args cfg
  unfolding parse
  parse-IsParsed args cfg h = helper (parse_flags args) refl h
    where
      helper :
          (o : Result (List Flag))
          → parse_flags args ≡ o
          → (o >>= λ fs.
              with_level
                (set_flags fs (default_config getenv host))
                (parse_level (set_flags fs (default_config getenv host)).level_name))
            ≡ ok cfg
          → IsParsed args cfg
      helper (err e) same h = absurd (ground (arith, h))
      helper (ok fs) same h =
          levelled args fs cfg (parse_level (set_flags fs (default_config getenv host)).level_name)
            same refl h
