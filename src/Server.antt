-- ===== src/Server.antt =====
-- src-server/src/main.rs: the server as a whole. What happens to the state that the handlers, the signal
-- and the monitor share: whole requests, reloads and rounds of the monitor, one after the other.
pub mod Lifetime
pub mod Shutdown
use mathlib.Core.Option
use bakpia_run.Prelude.{ℕ, Option, none, some, List, [], ◌∷◌, if◌then◌else◌}
use bakpia_run.Text.{Text}
use bakpia_run.Config.{Config, PoolConfig, Env, apply_env_overrides}
use bakpia_run.Routing
use bakpia_run.Routing.{PoolManager}
use bakpia_run.Metrics
use bakpia_run.RateLimiter
use bakpia_run.Queue
use bakpia_run.Queue.{Answer}
use bakpia_run.WorkerPool
use bakpia_run.WorkerPool.{WorkerPool}
use bakpia_run.Handler.Health.{health_handler}
use bakpia_run.Handler.Report.{metrics_handler}
use bakpia_run.Handler.Jobs.{submit_job}
use bakpia_run.Worker.{Os}
use bakpia_run.App.{AppState}
use bakpia_run.App.Reload.{Loaded, loaded, unreadable, reload_handler, on_hangup}
use bakpia_run.AntiOom.{Reader, monitor_round}
use bakpia_run.Float.{F64}
use bakpia_run.Handler.Php.{World, HttpRequest}
use bakpia_run.Handler.Php.Flow.{php_handler}

unfoldable pub stop_pools : List (Text × WorkerPool) → List (Text × WorkerPool)
stop_pools [] = []
stop_pools ((name, p) ∷ ps) = (name, WorkerPool.stop_all p) ∷ stop_pools ps

-- `WorkerPool::new` and its start, of each pool that `PoolManager::new` makes; `none` where a worker
-- does not start.
unfoldable pub start_pool : (PoolConfig → ℕ → Os) → Config → PoolConfig → Option WorkerPool
start_pool os pool_specific_config p =
    let (pool, error) =
      WorkerPool.start_all (os p) pool_specific_config
        (WorkerPool.new p.worker_count pool_specific_config) in
    elim error [ none ↦ some pool | some e ↦ none ]

module _ {F V : Type 0} where
  -- The state at the start, from the configuration that was read and the pools made.
  unfoldable pub start_state : PoolManager WorkerPool → ℕ → Config → AppState F V
  start_state pool_manager now config = record {
    config = config;
    pool_manager = pool_manager;
    metrics = Metrics.new now config.php.worker_count;
    rate_limiter =
        RateLimiter.new config.rate_limit.enabled config.rate_limit.requests_per_minute
          config.rate_limit.burst_size;
    queue = if config.queue.enabled then some Queue.new else none;
  }

-- `PoolManager::stop_all`, at the shutdown.
unfoldable pub stop_all : PoolManager WorkerPool → PoolManager WorkerPool
stop_all m = record m { pools = stop_pools m.pools }

-- `polled` is a round of the background worker of the queue.
pub data Event (F V : Type 0) : Type 0 where
  requested : World F → HttpRequest → Event F V
  submitted : Text → Text → Text → V → Event F V
  polled : List (Text × (V → Answer V)) → Text → Event F V
  health_asked : F64 F → Reader → ℕ → (ℕ → ℕ → Os) → Event F V
  metrics_asked : F64 F → (F → Text) → Reader → ℕ → (ℕ → ℕ → Os) → Event F V
  reload_asked : (Text → Loaded) → (ℕ → ℕ → Os) → Env → Event F V
  hung_up : (Text → Loaded) → Text → (ℕ → ℕ → Os) → Env → Event F V
  monitored : F64 F → Reader → (ℕ → ℕ → Os) → Os → Event F V

module _ {F V : Type 0} where
  unfoldable pub after : Event F V → AppState F V → AppState F V
  after (requested w r) st = (php_handler w r 0 [] st).state
  after (submitted id now task payload) st = (submit_job id now task payload st).1
  after (polled handlers now) st = record st {
    queue = Option.map (Queue.round handlers now) st.queue;
  }
  after (health_asked f read now os) st = (health_handler f read now os st).1
  after (metrics_asked f two_decimals read now os) st =
      (metrics_handler f two_decimals read now os st).1
  after (reload_asked load os env) st = (reload_handler load os env st).1
  after (hung_up load config_path os env) st = (on_hangup load config_path os env st).1
  after (monitored f read os last_os) st = record st {
    pool_manager = record (st.pool_manager) {
      pools = monitor_round f read os last_os st.config st.pool_manager.pools;
    };
  }

  unfoldable pub history : List (Event F V) → AppState F V → AppState F V
  unfolding after
  history [] st = st
  history (e ∷ es) st = history es (after e st)
