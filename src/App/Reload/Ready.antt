-- ===== src/App/Reload/Ready.antt =====
-- src-server/src/handlers.rs: the pools after a reload can serve requests.
use bakpia_run.Prelude.{
  ℕ, suc, ◌≤◌, ◌≡◌, inl, inr, arith, Option-cases, none, some, List, [], ◌∷◌, All, if◌then◌else◌,
}
use bakpia_run.Text.{Text, codes, is_empty}
use bakpia_run.Config.{Config, PoolConfig, Env, apply_env_overrides, validate}
use bakpia_run.Config.Checks.{validate_iff}
use bakpia_run.Routing.{update_routing_table, build_pool_config}
use bakpia_run.Worker.{Os}
use bakpia_run.WorkerPool
use bakpia_run.WorkerPool.{WorkerPool}
use bakpia_run.WorkerPool.Starting.{reload-Started}
use bakpia_run.WorkerPool.Invariant.{IsKept, reload-All}
use bakpia_run.App.{AppState}
use bakpia_run.App.Pools.{Each}
use bakpia_run.App.Serving.{IsQuiet, IsReady, IsServing, start-IsQuiet, stop-IsQuiet, new-IsQuiet}
use bakpia_run.App.Reload.{
  Loaded, loaded, unreadable, find_pool, pool_specific_config, reload_pools, install, reload_with,
  reload_handler, on_hangup,
}
use bakpia_run.App.Reload.Outcome.{install-IsRouted}

-- Every pool that is configured has a worker, which the validation does not ask for.
abbrev pub HasWorkers : Config → Type 0
HasWorkers c = All (λ (p : PoolConfig). 1 ≤ p.worker_count) c.pools

find_pool-HasWorkers :
    (name : Text) (ps : List PoolConfig) (p : PoolConfig)
    → All (λ (q : PoolConfig). 1 ≤ q.worker_count) ps
    → find_pool name ps ≡ some p
    → 1 ≤ p.worker_count
unfolding find_pool
find_pool-HasWorkers name [] p h e = absurd (ground (arith, e))
find_pool-HasWorkers name (q ∷ ps) p (hq, h) e =
    ground (arith, hq, e, find_pool-HasWorkers name ps p h)

pool_specific_config-workers :
    (c : Config) (name : Text)
    → validate c ≡ none
    → HasWorkers c
    → 1 ≤ (pool_specific_config c name).php.worker_count
unfolding pool_specific_config build_pool_config
pool_specific_config-workers c name valid many = elim (Option-cases (find_pool name c.pools)) [
  | inl gone ↦ rw (gone, pool_specific_config) ((validate_iff c).0 valid).workers
  | inr (p, found) ↦
      rw (found, pool_specific_config) (find_pool-HasWorkers name c.pools p many found)
]

pub IsQuiet-IsKept : IsKept IsQuiet
IsQuiet-IsKept = record { fresh = new-IsQuiet; started = start-IsQuiet; stopped = stop-IsQuiet }

reload-IsReady :
    (os : ℕ → Os) (c : Config) (p : WorkerPool)
    → 1 ≤ c.php.worker_count
    → IsReady p
    → IsReady (WorkerPool.reload os c p).0
reload-IsReady os c p many v = record {
  has_workers = let (started, count, config) = reload-Started os c p in rw count many;
  quiet = reload-All IsQuiet IsQuiet-IsKept os c p v.quiet;
}

reload_pools-IsReady :
    (os : ℕ → ℕ → Os) (c : Config) (k : ℕ) (ps : List (Text × WorkerPool))
    → validate c ≡ none
    → HasWorkers c
    → Each IsReady ps
    → Each IsReady (reload_pools os c k ps).0
unfolding reload_pools
reload_pools-IsReady os c k [] valid many h = h
reload_pools-IsReady os c k ((name, p) ∷ ps) valid many (hp, h) = (
  reload-IsReady (os k) (pool_specific_config c name) p
      (pool_specific_config-workers c name valid many) hp,
  reload_pools-IsReady os c (suc k) ps valid many h,
)

-- What the file says: its pools have workers, where it can be read.
abbrev pub LoadsWorkers : Env → Loaded → Type 0
LoadsWorkers env (loaded c) = HasWorkers (apply_env_overrides env c)
LoadsWorkers env (unreadable e) = Unit {0}

module _ {F V : Type 0} where
  install-IsServing :
      (os : ℕ → ℕ → Os) (c : Config) (st : AppState F V)
      → validate c ≡ none
      → HasWorkers c
      → IsServing st.pool_manager
      → IsServing (install os c st).1.pool_manager
  unfolding install update_routing_table
  install-IsServing os c st valid many v = record {
    routed = install-IsRouted os c st;
    ready = reload_pools-IsReady os c 0 st.pool_manager.pools valid many v.ready;
  }

  reload_with-IsServing :
      (os : ℕ → ℕ → Os) (env : Env) (file : Loaded) (st : AppState F V)
      → LoadsWorkers env file
      → IsServing st.pool_manager
      → IsServing (reload_with os env file st).1.pool_manager
  unfolding reload_with
  reload_with-IsServing os env (unreadable e) st many v = v
  reload_with-IsServing os env (loaded c) st many v =
      elim (Option-cases (validate (apply_env_overrides env c))) [
        | inr (e, invalid) ↦ rw (invalid, reload_with) v
        | inl valid ↦
            rw (valid, reload_with)
              (install-IsServing os (apply_env_overrides env c) st valid many v)
      ]

  pub reload_handler-IsServing :
      (load : Text → Loaded) (os : ℕ → ℕ → Os) (env : Env) (st : AppState F V)
      → ((path : Text) → LoadsWorkers env (load path))
      → IsServing st.pool_manager
      → IsServing (reload_handler load os env st).1.pool_manager
  unfolding reload_handler
  reload_handler-IsServing load os env st many v =
      let path : Text =
        if is_empty st.config.config_path
        then codes "../config/bakpiarun.yaml"
        else st.config.config_path in
      reload_with-IsServing os env (load path) st (many path) v

  pub on_hangup-IsServing :
      (load : Text → Loaded) (config_path : Text) (os : ℕ → ℕ → Os) (env : Env) (st : AppState F V)
      → LoadsWorkers env (load config_path)
      → IsServing st.pool_manager
      → IsServing (on_hangup load config_path os env st).1.pool_manager
  unfolding on_hangup
  on_hangup-IsServing load config_path os env st many v =
      reload_with-IsServing os env (load config_path) st many v
