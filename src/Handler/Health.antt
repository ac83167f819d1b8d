-- ===== src/Handler/Health.antt =====
-- src-server/src/handlers.rs: `health_handler`. The JSON it answers with is a record; the percentage in it
-- is not rounded here.
pub mod Alive
use bakpia_run.Prelude.{
  ℕ, zero, suc, ◌+◌, ◌*◌, ◌/◌, ◌%◌, ◌^◌, ◌==◌, Bool, true, false, Option, none, some, List, [], ◌∷◌,
  length, map, if◌then◌else◌,
}
use bakpia_run.Text.{Text, codes}
use bakpia_run.Float.{F64}
use bakpia_run.Config.{Config}
use bakpia_run.Worker.{Worker, Os, refresh_proc_memory}
use bakpia_run.WorkerPool.{WorkerPool}
use bakpia_run.Metrics.{uptime_seconds}
use bakpia_run.AntiOom.{Reader, CgroupMemoryStatus, read_cgroup_v2_memory}
use bakpia_run.App.{AppState}

pub record WorkerInfo : Type 0 where
  pub index : ℕ
  pub pid : Option ℕ
  pub alive : Bool
  pub draining : Bool
  pub active_requests : ℕ
  pub requests : ℕ
  pub recycle_count : ℕ
  pub memory_mb : ℕ
  pub peak_memory_mb : ℕ
  pub proc_rss_mb : ℕ
  pub proc_hwm_mb : ℕ

pub record PoolInfo : Type 0 where
  pub name : Text
  pub total : ℕ
  pub healthy : ℕ
  pub memory_limit_mb : ℕ
  pub worker_threshold_percent : ℕ
  pub workers : List WorkerInfo

pub record Health (F : Type 0) : Type 0 where
  pub status_code : ℕ
  pub status : Text
  pub uptime_seconds : ℕ
  pub total_requests : ℕ
  pub total_errors : ℕ
  pub anti_oom_enabled : Bool
  pub worker_threshold_percent : ℕ
  pub cgroup_threshold_percent : ℕ
  pub total_worker_recycles : ℕ
  pub cgroup_memory : CgroupMemoryStatus F
  pub pools : List PoolInfo
  pub workers_total : ℕ
  pub workers_healthy : ℕ

-- `worker.process.is_some()`
abbrev pub is_alive : Worker → Bool
is_alive w = elim w.process [ none ↦ false | some p ↦ true ]

abbrev pub worker_info : Worker → WorkerInfo
worker_info w = record {
  index = w.index;
  pid = w.pid;
  alive = is_alive w;
  draining = w.draining;
  active_requests = w.active_requests;
  requests = w.requests_handled;
  recycle_count = w.recycle_count;
  memory_mb = w.last_memory / 1024 / 1024;
  peak_memory_mb = w.last_peak / 1024 / 1024;
  proc_rss_mb = w.rss_bytes / 1024 / 1024;
  proc_hwm_mb = w.hwm_bytes / 1024 / 1024;
}

pub alive_workers : List Worker → ℕ
alive_workers [] = 0
alive_workers (w ∷ ws) = let rest = alive_workers ws in if is_alive w then suc rest else rest

-- The sum of `total_recycles`, of `u64`.
pub recycles_of : List Worker → ℕ
recycles_of [] = 0
recycles_of (w ∷ ws) = (w.recycle_count + recycles_of ws) % 2 ^ 64

abbrev pub pool_info : Text × WorkerPool → PoolInfo
pool_info (name, p) = record {
  name = name;
  total = length p.workers;
  healthy = alive_workers p.workers;
  memory_limit_mb = p.config.php.memory_limit_mb;
  worker_threshold_percent = p.config.anti_oom.worker_threshold_percent;
  workers = map worker_info p.workers;
}

abbrev pub sum_of : (List Worker → ℕ) → List (Text × WorkerPool) → ℕ
sum_of f [] = 0
sum_of f ((name, p) ∷ ps) = f p.workers + sum_of f ps

-- Every worker's memory is read anew; the system answers for each worker of each pool.
pub refresh_workers : (ℕ → Os) → ℕ → List Worker → List Worker
refresh_workers os i [] = []
refresh_workers os i (w ∷ ws) = refresh_proc_memory (os i) w ∷ refresh_workers os (suc i) ws

pub refresh_pools : (ℕ → ℕ → Os) → ℕ → List (Text × WorkerPool) → List (Text × WorkerPool)
refresh_pools os k [] = []
refresh_pools os k ((name, p) ∷ ps) =
    (name, record p { workers = refresh_workers (os k) 0 p.workers }) ∷ refresh_pools os (suc k) ps

module _ {F V : Type 0} where
  abbrev pub refreshed : (ℕ → ℕ → Os) → AppState F V → AppState F V
  refreshed os st = record st {
    pool_manager = record (st.pool_manager) { pools = refresh_pools os 0 st.pool_manager.pools };
  }

  unfoldable pub health_handler :
      F64 F → Reader → ℕ → (ℕ → ℕ → Os) → AppState F V → Health F × AppState F V
  health_handler f read now os st =
      let after = refreshed os st in
      let pools = after.pool_manager.pools in
      let total_workers = sum_of length pools in
      let workers_healthy = sum_of alive_workers pools in
      let is_healthy = workers_healthy == total_workers in
      let oom = st.config.anti_oom in
      (
        record {
          status_code = if is_healthy then 200 else 503;
          status = if is_healthy then codes "healthy" else codes "unhealthy";
          uptime_seconds = uptime_seconds now st.metrics;
          total_requests = st.metrics.total_requests;
          total_errors = st.metrics.total_errors;
          anti_oom_enabled = oom.enabled;
          worker_threshold_percent = oom.worker_threshold_percent;
          cgroup_threshold_percent = oom.cgroup_threshold_percent;
          total_worker_recycles = sum_of recycles_of pools % 2 ^ 64;
          cgroup_memory =
              read_cgroup_v2_memory f read oom.cgroup_memory_current_path
                oom.cgroup_memory_max_path;
          pools = map pool_info pools;
          workers_total = total_workers;
          workers_healthy = workers_healthy;
        },
        after,
      )
