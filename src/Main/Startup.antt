-- ===== src/Main/Startup.antt =====
-- `runServer` of cmd/shardstore/main.go, from the configuration to the end of the server, and the logger that
-- internal/logging/logging.go makes for it.
use shardstore.Common.{
  ◌≡◌, refl, ◌↔◌, inl, inr, Bool, true, false, Bytes, List, [], ◌∷◌, ◌++◌, if◌then◌else◌, ℤ, codes,
  str_eq,
}
use shardstore.Errors.{Error, Result, ok, err, wrap_err, wrap, ◌>>=◌, Result-cases}
use shardstore.Ec.ReedSolomon.{Engine}
use shardstore.Storage.File.{FileStore, file_store}
use shardstore.Config.{Config, Flag, Level, level_debug, level_info, level_warn, level_error, parse}
use shardstore.Api.Http.{Request, Writer}
use shardstore.Api.Server.{Surroundings, serve_http}
use shardstore.Main.{run, server_store}

-- `slog.Logger` as `New` makes it: the least level, and whether lines are JSON.
pub record Logger : Type 0 where
  pub level : Level
  pub json : Bool

abbrev pub new_logger : Level → Bool → Logger
new_logger level json = record { level = level; json = json }

-- The lines of `runServer`, the first with the configuration that it tells. All are of level INFO
-- but `shutdown_failed`, which is of level ERROR.
pub data LogLine : Type 0 where
  starting : Config → LogLine
  api_listening : Bytes → LogLine
  signal_received shutdown_complete : LogLine
  shutdown_failed : Error → LogLine

-- Does a logger with this least level print a line of level INFO? One of level ERROR it always prints.
abbrev pub prints_info : Level → Bool
prints_info level_debug = true
prints_info level_info = true
prints_info level_warn = false
prints_info level_error = false

abbrev pub info : Logger → LogLine → List LogLine
info logger line = if prints_info logger.level then line ∷ [] else []

-- How the server ends: `ListenAndServe` returns `http.ErrServerClosed` or another error, or a signal comes, and then
-- `Shutdown` returns.
pub data Ended : Type 0 where
  server_closed : Ended
  listen_failed : Error → Ended
  signalled : Result (Unit {0}) → Ended

-- The `select` at the end of `runServer`.
abbrev pub stop : Logger → Ended → Result (Unit {0}) × List LogLine
stop logger server_closed = (ok tt, [])
stop logger (listen_failed e) = (err (wrap "api server" e), [])
stop logger (signalled (ok t)) =
    (ok tt, info logger signal_received ++ info logger shutdown_complete)
stop logger (signalled (err e)) = (err e, info logger signal_received ++ shutdown_failed e ∷ [])

-- Lines that come before those of the rest.
abbrev pub after_lines :
    List LogLine → Result (Unit {0}) × List LogLine → Result (Unit {0}) × List LogLine
after_lines ls (r, ls') = (r, ls ++ ls')

-- A step that may fail, and then the rest.
abbrev pub or_return :
    {A : Type 0}
    → Result A
    → (A → Result (Unit {0}) × List LogLine)
    → Result (Unit {0}) × List LogLine
or_return (ok a) rest = rest a
or_return (err e) rest = (err e, [])

-- `os.MkdirAll`, `filepath.Join(root, "objects")`, what is on the disk, and how the server ends.
pub record Machine : Type 0 where
  pub make_dir : Bytes → Result (Unit {0})
  pub objects_dir : Bytes → Bytes
  pub disk : FileStore
  pub ended : Ended

-- `NewFileStore`
unfoldable pub open_file_store : Machine → Bytes → Result FileStore
open_file_store m root = do
  made ← wrap_err "storage: create root" (m.make_dir (m.objects_dir root))
  ok m.disk

-- `runServer` with what a configuration gives. The line of the listening server is written by another goroutine,
-- which is taken to come first.
unfoldable pub run_config : Machine → Config → Result (Unit {0}) × List LogLine
unfolding open_file_store
run_config m cfg =
    let logger = new_logger cfg.log_level cfg.log_json in
    after_lines (info logger (starting cfg)) (
      or_return (wrap_err "create data dir" (m.make_dir cfg.data_dir)) λ made.
        or_return (wrap_err "create shard store" (open_file_store m cfg.data_dir))
          λ store. after_lines (info logger (api_listening cfg.listen_addr)) (stop logger m.ended))

unfoldable pub run_server :
    (Bytes → Bytes)
    → Result Bytes
    → (List Bytes → Result (List Flag))
    → Machine
    → List Bytes
    → Result (Unit {0}) × List LogLine
unfolding run_config
run_server getenv host parse_flags m args =
    or_return (parse getenv host parse_flags args) (run_config m)

-- The handler of the server: the API over the object store of the configuration and a `FileStore`.
module _ (sha256 : Bytes → Bytes) (new_engine : ℤ → ℤ → Result Engine) where
  unfoldable pub server_handler :
      Config
      → Surroundings
      → Bytes
      → Bytes
      → Bytes
      → Writer
      → Request
      → FileStore
      → Writer × FileStore
  server_handler cfg x =
      serve_http (file_store sha256) new_engine (server_store cfg) (record x { node = cfg.node_id })
        cfg.permissive_auth

-- The server came to a clean end.
abbrev pub EndsWell : Ended → Type 0
EndsWell server_closed = Unit
EndsWell (listen_failed e) = ⊥
EndsWell (signalled (ok t)) = Unit
EndsWell (signalled (err e)) = ⊥

stop_iff : (logger : Logger) (e : Ended) → ((stop logger e).0 ≡ ok tt) ↔ EndsWell e
stop_iff logger server_closed = (λ h. tt, λ h. refl)
stop_iff logger (listen_failed e) = (λ h. absurd (cc h), λ h. absurd h)
stop_iff logger (signalled (ok t)) = (λ h. tt, λ h. refl)
stop_iff logger (signalled (err e)) = (λ h. absurd (cc h), λ h. absurd h)

-- What has to go well outside of the configuration.
abbrev pub GoesWell : Machine → Config → Type 0
GoesWell m cfg =
    (m.make_dir cfg.data_dir ≡ ok tt)
    × (m.make_dir (m.objects_dir cfg.data_dir) ≡ ok tt)
    × EndsWell m.ended

run_config_iff : (m : Machine) (cfg : Config) → ((run_config m cfg).0 ≡ ok tt) ↔ GoesWell m cfg
unfolding run_config open_file_store
run_config_iff m cfg = elim (Result-cases (m.make_dir cfg.data_dir)) [
  | inr (e, fails) ↦ (λ h. absurd (cc (rw fails at h)), λ h. absurd (cc (fails, h.0)))
  | inl (a, made) ↦ elim (Result-cases (m.make_dir (m.objects_dir cfg.data_dir))) [
    | inr (e, fails) ↦ (λ h. absurd (cc (rw (made, fails) at h)), λ h. absurd (cc (fails, h.1)))
    | inl (b, made') ↦
        let ends = stop_iff (new_logger cfg.log_level cfg.log_json) m.ended in
        (λ h. (made, made', ends.0 (rw (made, made') at h)), λ h. rw (made, made') (ends.1 h.2))
  ]
]

-- The process that is started with the argument "server" and others ends without an error exactly when
-- Parse accepts the others, the data directory and the directory of objects below it can be made, and the
-- server is closed, or a signal comes and the shutdown that follows succeeds.
pub run-run_server :
    (getenv : Bytes → Bytes) (host : Result Bytes) (parse_flags : List Bytes → Result (List Flag))
    (m : Machine) (args : List Bytes)
    → ((run (λ a. (run_server getenv host parse_flags m a).0) (codes "server" ∷ args)).0 ≡ ok tt)
      ↔ ((cfg : Config) × (parse getenv host parse_flags args ≡ ok cfg) × GoesWell m cfg)
unfolding run run_server str_eq
run-run_server getenv host parse_flags m args =
    elim (Result-cases (parse getenv host parse_flags args)) [
      | inr (e, fails) ↦ (λ h. absurd (cc (rw fails at h)), λ h. absurd (cc (fails, h.1)))
      | inl (cfg, parsed) ↦ (
        λ h. (cfg, parsed, (run_config_iff m cfg).0 (rw parsed at h)),
        λ h.
            let same : h.0 ≡ cfg = cc (parsed, h.1) in
            rw parsed ((run_config_iff m cfg).1 (rw same at h.2)),
      )
    ]
