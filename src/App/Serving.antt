-- ===== src/App/Serving.antt =====
-- src-server/src/types.rs: when the pools of the state can serve requests, and what keeps them so.
use bakpia_run.Prelude.{ℕ, ◌<◌, ◌≡◌, ◌∙◌, length, All}
use bakpia_run.Text.{Text}
use bakpia_run.Config.{Config}
use bakpia_run.Routing.{PoolManager}
use bakpia_run.Routing.Choice.{IsRouted}
use bakpia_run.Worker.{
  Worker, Os, new, start, stop, refresh_proc_memory, update_stats, ensure_running, graceful_recycle,
}
use bakpia_run.Worker.Lifecycle.{
  new-IsSettled, IsSettled, graceful_recycle-IsSettled, ensure_running-IsSettled,
  update_stats-IsSettled, start-IsSettled, stop-IsSettled, refresh-IsSettled,
}
use bakpia_run.Worker.Activity.{
  new-active, graceful_recycle-active, ensure_running-active, update_stats-active, start-active,
  stop-active, refresh-active,
}
use bakpia_run.WorkerPool.{WorkerPool}
use bakpia_run.App.{adjust, change_worker}
use bakpia_run.App.Pools.{
  Each, adjust-Each, change_at-All, length-change_at, adjust-contains_key, IsRouted-names,
}

-- A worker that nobody holds and that no request is with.
pub record IsQuiet (w : Worker) : Type 0 where
  pub settled : IsSettled w
  pub no_requests : w.active_requests ≡ 0

pub record IsReady (p : WorkerPool) : Type 0 where
  pub has_workers : 0 < length p.workers
  pub quiet : All IsQuiet p.workers

-- Every routing rule leads to a pool, and every pool has workers, all of them quiet.
pub record IsServing (m : PoolManager WorkerPool) : Type 0 where
  pub routed : IsRouted m
  pub ready : Each IsReady m.pools

pub graceful_recycle-IsQuiet :
    (os : Os) (c : Config) (w : Worker) → IsQuiet w → IsQuiet (graceful_recycle os c w).worker
graceful_recycle-IsQuiet os c w v = record {
  settled = graceful_recycle-IsSettled os c w v.settled;
  no_requests = graceful_recycle-active os c w ∙ v.no_requests;
}

pub ensure_running-IsQuiet :
    (os : Os) (c : Config) (w : Worker) → IsQuiet w → IsQuiet (ensure_running os c w).worker
ensure_running-IsQuiet os c w v = record {
  settled = ensure_running-IsSettled os c w v.settled;
  no_requests = ensure_running-active os c w ∙ v.no_requests;
}

pub update_stats-IsQuiet :
    (os : Os) (memory peak : ℕ) (w : Worker) → IsQuiet w → IsQuiet (update_stats os memory peak w)
update_stats-IsQuiet os memory peak w v = record {
  settled = update_stats-IsSettled os memory peak w v.settled;
  no_requests = update_stats-active os memory peak w ∙ v.no_requests;
}

pub start-IsQuiet : (os : Os) (c : Config) (w : Worker) → IsQuiet w → IsQuiet (start os c w).worker
start-IsQuiet os c w v = record {
  settled = start-IsSettled os c w v.settled;
  no_requests = start-active os c w ∙ v.no_requests;
}

pub stop-IsQuiet : (w : Worker) → IsQuiet w → IsQuiet (stop w)
stop-IsQuiet w v = record {
  settled = stop-IsSettled w v.settled;
  no_requests = stop-active w ∙ v.no_requests;
}

pub refresh-IsQuiet : (os : Os) (w : Worker) → IsQuiet w → IsQuiet (refresh_proc_memory os w)
refresh-IsQuiet os w v = record {
  settled = refresh-IsSettled os w v.settled;
  no_requests = refresh-active os w ∙ v.no_requests;
}

-- A change of one pool that leaves it ready.
pub adjust-IsServing :
    (name : Text) (f : WorkerPool → WorkerPool) (m : PoolManager WorkerPool)
    → ((p : WorkerPool) → IsReady p → IsReady (f p))
    → IsServing m
    → IsServing (record m { pools = adjust name f m.pools })
adjust-IsServing name f m keep v = record {
  routed =
      IsRouted-names m.pools (adjust name f m.pools) (λ key. adjust-contains_key name key f m.pools)
        m.routing_table v.routed;
  ready = adjust-Each IsReady name f m.pools keep v.ready;
}

pub change_worker-IsReady :
    (i : ℕ) (worker : Worker) (p : WorkerPool)
    → IsQuiet worker
    → IsReady p
    → IsReady (change_worker i (λ _. worker) p)
change_worker-IsReady i worker p quiet v = record {
  has_workers = rw (length-change_at i (λ _. worker) p.workers) v.has_workers;
  quiet = change_at-All IsQuiet i (λ _. worker) p.workers (λ _ _. quiet) v.quiet;
}

pub new-IsQuiet : (i : ℕ) (path : Text) (size : ℕ) → IsQuiet (new i path size)
new-IsQuiet i path size = record {
  settled = new-IsSettled i size path;
  no_requests = new-active i path size;
}
