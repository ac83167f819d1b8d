-- ===== src/App.antt =====
-- src-server/src/types.rs: the state that the handlers share. A pool is found by its name, and what is
-- done to one of its workers is done in the state.
pub mod Reload
pub mod Pools
pub mod Serving
use bakpia_run.Prelude.{ℕ, zero, suc, Option, List, [], ◌∷◌, if◌then◌else◌, ◌>>=◌, get_elem?}
use bakpia_run.Text.{Text, text_eq}
use bakpia_run.Config.{Config}
use bakpia_run.Routing.{PoolManager, get_pool}
use bakpia_run.Worker.{Worker}
use bakpia_run.WorkerPool.{WorkerPool}
use bakpia_run.Metrics.{Metrics}
use bakpia_run.RateLimiter.{RateLimiter}
use bakpia_run.Queue.{JobQueue}

-- `F` stands for `f64` and `V` for a JSON value; the logger only writes.
pub record AppState (F V : Type 0) : Type 0 where
  pub config : Config
  pub pool_manager : PoolManager WorkerPool
  pub metrics : Metrics
  pub rate_limiter : RateLimiter F
  pub queue : Option (JobQueue V)

-- A change of the pool with this name, or of none.
unfoldable pub adjust :
    Text → (WorkerPool → WorkerPool) → List (Text × WorkerPool) → List (Text × WorkerPool)
unfolding text_eq
adjust name f [] = []
adjust name f ((n, p) ∷ ps) =
    let rest = adjust name f ps in if text_eq n name then (n, f p) ∷ ps else (n, p) ∷ rest

-- A change of the worker with this index, or of none.
abbrev pub change_at : ℕ → (Worker → Worker) → List Worker → List Worker
change_at i f [] = []
change_at zero f (w ∷ ws) = f w ∷ ws
change_at (suc i) f (w ∷ ws) = w ∷ change_at i f ws

abbrev pub change_worker : ℕ → (Worker → Worker) → WorkerPool → WorkerPool
change_worker i f p = record p { workers = change_at i f p.workers }
