-- ===== src/Tests/Whole.antt =====
-- The server as a whole at work: its start, some requests and reloads, and one request by itself.
use bakpia_run.Prelude.{ℕ, ◌≡◌, ◌↔◌, refl, true, false, none, some, List, [], ◌∷◌, arith}
use bakpia_run.Prelude.Maps.{contains_key}
use bakpia_run.Text.{Text, codes, text_eq}
use bakpia_run.Text.Matching.{text_keys}
use bakpia_run.Config.{apply_env_overrides}
use bakpia_run.Worker
use bakpia_run.Worker.{Os}
use bakpia_run.WorkerPool.{WorkerPool}
use bakpia_run.RateLimiter
use bakpia_run.Metrics
use bakpia_run.Routing.{PoolManager, make_pools, get_pool_name_for_request}
use bakpia_run.AntiOom.{inspect_pools}
use bakpia_run.AntiOom.Heaviest.{IsHeaviest, spared_pools, inspect_pools-IsHeaviest}
use bakpia_run.App.{AppState}
use bakpia_run.App.Serving.{IsServing, new-IsQuiet}
use bakpia_run.App.Reload.{Loaded, loaded, reload_with}
use bakpia_run.App.Reload.Outcome.{Reloads, reload_with-Reloads}
use bakpia_run.App.Reload.Ready.{HasWorkers}
use bakpia_run.Handler.Health.{health_handler}
use bakpia_run.Handler.Health.Alive.{AllAlive, health_handler_iff}
use bakpia_run.Handler.Php.{World, HttpRequest, bytes, answered}
use bakpia_run.Handler.Php.Flow.{php_handler}
use bakpia_run.Handler.Php.Serving.{IsOver, php_handler-IsOver}
use bakpia_run.Handler.Php.Answers.{Ends}
use bakpia_run.Server.{
  Event, requested, submitted, polled, health_asked, metrics_asked, reload_asked, hung_up,
  monitored, history, start_pool, start_state,
}
use bakpia_run.Startup.{Host, boot, boot_with, after_pools}
use bakpia_run.Routing
use bakpia_run.Server.Lifetime.{boot-Ends}
use bakpia_run.Tests.Samples.{
  sample_config, port_only, good_os, busy_worker, nobody_locked, two_jobs, sample_handlers, whole,
}

-- PHP answers, and one file is there.
abbrev world : World ℕ
world = record {
  f64 = whole;
  now = 7;
  parse_ip = λ ip. some 1;
  files = record {
    exists = λ path. text_eq path (codes "public/a.php");
    is_file = λ path. text_eq path (codes "public/a.php");
    read = λ path. none;
    metadata = λ path. none;
  };
  locked = nobody_locked;
  os_before = good_os;
  os_after = good_os;
  body = λ limit. bytes (codes "a=1");
  from_utf8_lossy = λ body. body;
  decode = λ text. some text;
  fields = λ boundary body. [];
  disk = record { create = λ id. true; write = λ id chunk. true; remove = λ id. true };
  uuid = λ id. codes "u";
  send = λ path limit request. answered (record {
    status = 201;
    body = codes "made";
    memory = 10;
    peak = 20;
    headers = (codes "X-A", codes "b") ∷ [];
  });
  from_str = λ text. some text;
  valid = λ name value. true;
}

abbrev request : HttpRequest
request = record {
  method = codes "POST";
  uri = codes "/a.php";
  path = codes "/a.php";
  query = none;
  query_params = [];
  headers = (codes "content-type", some (codes "application/x-www-form-urlencoded")) ∷ [];
  addr = codes "10.0.0.1";
}

abbrev system : ℕ → ℕ → Os
system k i = good_os

abbrev load : Text → Loaded
load path = loaded sample_config

abbrev events : List (Event ℕ ℕ)
events =
    requested world request
    ∷ submitted (codes "j1") (codes "t0") (codes "mail") 3
    ∷ polled sample_handlers (codes "t1")
    ∷ health_asked whole (λ path. none) 9 system
    ∷ metrics_asked whole (λ n. codes "0.00") (λ path. none) 9 system
    ∷ reload_asked load system port_only
    ∷ hung_up load (codes "x.yaml") system port_only
    ∷ monitored whole (λ path. none) system good_os
    ∷ []

abbrev started : AppState ℕ ℕ
started =
    start_state
      (Routing.new (start_pool (λ p i. good_os)) (apply_env_overrides port_only sample_config)) 5
      (apply_env_overrides port_only sample_config)

-- Every port is free and every directory can be made.
abbrev plain_host : Host
plain_host = record {
  binds = λ addr. true;
  creates_dir = λ path. true;
  parses_address = λ addr. true;
  loads_tls = λ cert key. true;
}

sample_config-HasWorkers : HasWorkers (apply_env_overrides port_only sample_config)
unfolding apply_env_overrides
sample_config-HasWorkers = (omega arith, (omega arith, tt))

boot-Ends_example :
    IsServing (history events started).pool_manager
    × Ends world request
        (history events started).config
        (get_pool_name_for_request
          (history events started).pool_manager
          request.path
          request.headers)
        (php_handler world request 0 [] (history events started)).response
unfolding boot boot_with Routing.make make_pools after_pools apply_env_overrides Routing.new
boot-Ends_example =
    boot-Ends plain_host (loaded sample_config) port_only (λ p i. good_os) 5 false started events
      world request refl sample_config-HasWorkers
      (
        tt,
        (
          tt,
          (
            tt,
            (tt, (tt, ((λ path. sample_config-HasWorkers), (sample_config-HasWorkers, (tt, tt))))),
          ),
        ),
      )

-- A state with one pool of one worker.
abbrev small_pool : WorkerPool
small_pool = record {
  workers = Worker.new 0 (codes "/tmp/s/worker_0.sock") 4 ∷ [];
  config = sample_config;
  current_index = 0;
}

abbrev small_manager : PoolManager WorkerPool
small_manager = record {
  pools = (codes "web", small_pool) ∷ [];
  routing_table = record { pool_name = codes "web"; patterns = codes "/*" ∷ []; headers = [] } ∷ [];
}

abbrev small_state : AppState ℕ ℕ
small_state = record {
  config = sample_config;
  pool_manager = small_manager;
  metrics = Metrics.new 0 2;
  rate_limiter = RateLimiter.new true 60 10;
  queue = some two_jobs;
}

small_manager-IsServing : IsServing small_manager
unfolding contains_key text_eq
small_manager-IsServing = record {
  routed = (refl, tt);
  ready = (
    record {
      has_workers = omega arith;
      quiet = (new-IsQuiet 0 (codes "/tmp/s/worker_0.sock") 4, tt);
    },
    tt,
  );
}

php_handler-IsOver_example :
    IsOver world.disk 3 (1 ∷ 2 ∷ []) (php_handler world request 3 (1 ∷ 2 ∷ []) small_state)
php_handler-IsOver_example =
    php_handler-IsOver world request 3 (1 ∷ 2 ∷ []) small_state (omega arith, (omega arith, tt))
      small_manager-IsServing

reload_with-Reloads_example :
    Reloads port_only
      (loaded sample_config)
      (reload_with system port_only (loaded sample_config) small_state).0
      small_state
      (reload_with system port_only (loaded sample_config) small_state).1
reload_with-Reloads_example =
    reload_with-Reloads system port_only (loaded sample_config) small_state

health_handler_iff_example :
    (((health_handler whole (λ path. none) 9 system small_state).0.status_code ≡ 200)
      ↔ AllAlive small_manager.pools)
    × (((health_handler whole (λ path. none) 9 system small_state).0.status_code ≡ 503)
        ↔ (¬ AllAlive small_manager.pools))
health_handler_iff_example = health_handler_iff whole (λ path. none) 9 system small_state

-- Two pools; the system reads their workers' memory.
abbrev measured_os : ℕ → ℕ → Os
measured_os k i = record good_os {
  proc_status = λ pid.
      some (record { pid = pid; vm_rss_bytes = 1000; vm_hwm_bytes = 1000; vm_size_bytes = 2000 });
}

abbrev busy_pools : List (Text × WorkerPool)
busy_pools =
    (
      codes "web",
      record small_pool { workers = busy_worker ∷ record busy_worker { index = 1 } ∷ [] },
    )
    ∷ (codes "api", small_pool)
    ∷ []

inspect_pools-IsHeaviest_example :
    IsHeaviest
      (spared_pools measured_os 0 busy_pools [])
      (inspect_pools measured_os true 0 busy_pools none).1
inspect_pools-IsHeaviest_example = inspect_pools-IsHeaviest measured_os 0 busy_pools [] none tt
