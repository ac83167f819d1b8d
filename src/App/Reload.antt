-- ===== src/App/Reload.antt =====
-- The reload of the configuration: `reload_handler` of src-server/src/handlers.rs, and the handler of
-- SIGHUP in src-server/src/main.rs. Reading the file is a parameter, as are the environment and what
-- the operating system answers each worker of each pool.
pub mod Outcome
pub mod Ready
use bakpia_run.Prelude.{
  ◌⊎◌, inl, inr, ◌++◌, ℕ, zero, suc, Option, none, some, List, [], ◌∷◌, if◌then◌else◌,
}
use bakpia_run.Text.{Text, codes, text_eq, is_empty}
use bakpia_run.Config.{Config, PoolConfig, Env, ConfigError, apply_env_overrides, validate}
use bakpia_run.Routing.{PoolManager, build_pool_config, update_routing_table}
use bakpia_run.Worker.{Os}
use bakpia_run.WorkerPool
use bakpia_run.WorkerPool.{WorkerPool}
use bakpia_run.App.{AppState}

-- What `Config::load_from_file` gives.
pub data Loaded : Type 0 where
  loaded : Config → Loaded
  unreadable : Text → Loaded

-- `Config::load_from_file`: reading gives the content or an error, and so does the parsing of the YAML.
unfoldable pub load_from_file : (Text → Text ⊎ Text) → (Text → Config ⊎ Text) → Text → Loaded
load_from_file read_to_string from_str path = elim (read_to_string path) [
  | inr e ↦ unreadable (codes "Failed to read config file: " ++ e)
  | inl content ↦ elim (from_str content) [
    | inr e ↦ unreadable (codes "Failed to parse config: " ++ e)
    | inl c ↦ loaded (record c { config_path = path })
  ]
]

pub find_pool : Text → List PoolConfig → Option PoolConfig
unfolding text_eq
find_pool name [] = none
find_pool name (p ∷ ps) =
    let rest = find_pool name ps in if text_eq p.name name then some p else rest

-- The configuration of the pool of this name: the whole one where it is no longer configured.
pub pool_specific_config : Config → Text → Config
unfolding find_pool
pool_specific_config c name = elim (find_pool name c.pools) [
  | some p ↦ build_pool_config c p
  | none ↦ c
]

-- Pool after pool, each with its error; an error does not stop the others.
pub reload_pools :
    (ℕ → ℕ → Os)
    → Config
    → ℕ
    → List (Text × WorkerPool)
    → List (Text × WorkerPool) × List (Text × Option Text)
reload_pools os c k [] = ([], [])
reload_pools os c k ((name, p) ∷ ps) =
    let (after, error) = WorkerPool.reload (os k) (pool_specific_config c name) p in
    let (rest, results) = reload_pools os c (suc k) ps in
    ((name, after) ∷ rest, (name, error) ∷ results)

pub data ReloadOutcome : Type 0 where
  load_failed : Text → ReloadOutcome
  rejected : ConfigError → ReloadOutcome
  reloaded : List (Text × Option Text) → ReloadOutcome

module _ {F V : Type 0} where
  -- With a valid configuration: it is stored, then the table and the pools follow it.
  pub install : (ℕ → ℕ → Os) → Config → AppState F V → ReloadOutcome × AppState F V
  install os c st =
      let pm = update_routing_table st.pool_manager c in
      let (pools, results) = reload_pools os c 0 pm.pools in
      (reloaded results, record st { config = c; pool_manager = record pm { pools = pools } })

  pub reload_with : (ℕ → ℕ → Os) → Env → Loaded → AppState F V → ReloadOutcome × AppState F V
  reload_with os env (unreadable e) st = (load_failed e, st)
  reload_with os env (loaded c) st =
      let new_config = apply_env_overrides env c in
      elim (validate new_config) [ some e ↦ (rejected e, st) | none ↦ install os new_config st ]

  -- `load` reads the file with the path.
  pub reload_handler :
      (Text → Loaded) → (ℕ → ℕ → Os) → Env → AppState F V → ReloadOutcome × AppState F V
  reload_handler load os env st =
      let path =
        if is_empty st.config.config_path
        then codes "../config/bakpiarun.yaml"
        else st.config.config_path in
      reload_with os env (load path) st

  -- The signal reads the path of the command line.
  pub on_hangup :
      (Text → Loaded) → Text → (ℕ → ℕ → Os) → Env → AppState F V → ReloadOutcome × AppState F V
  on_hangup load config_path os env st = reload_with os env (load config_path) st

abbrev pub reload_status : ReloadOutcome → ℕ
reload_status (load_failed e) = 500
reload_status (rejected e) = 400
reload_status (reloaded results) = 200
