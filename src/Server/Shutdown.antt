-- ===== src/Server/Shutdown.antt =====
-- The shutdown: no process outlives it.
use bakpia_run.Prelude.{◌≡◌, none, List, [], ◌∷◌, All}
use bakpia_run.Text.{Text}
use bakpia_run.Worker.{Worker}
use bakpia_run.Worker.Replacing.{stop_keeps}
use bakpia_run.WorkerPool.{WorkerPool}
use bakpia_run.WorkerPool.Invariant.{stop_all-stopped}
use bakpia_run.App.Pools.{Each}
use bakpia_run.Routing.{PoolManager}
use bakpia_run.Server.{stop_pools, stop_all}

-- No worker has a process.
abbrev pub AllStopped : List (Text × WorkerPool) → Type 0
AllStopped ps = Each (λ p. All (λ (w : Worker). w.process ≡ none) p.workers) ps

stop_pools-AllStopped : (ps : List (Text × WorkerPool)) → AllStopped (stop_pools ps)
unfolding stop_pools
stop_pools-AllStopped [] = tt
stop_pools-AllStopped ((name, p) ∷ ps) =
    (stop_all-stopped (λ w. w.process ≡ none) (λ w. (stop_keeps w).0) p, stop_pools-AllStopped ps)

-- After the shutdown no worker of any pool has a process.
stop_all-AllStopped : (m : PoolManager WorkerPool) → AllStopped (stop_all m).pools
unfolding stop_all
stop_all-AllStopped m = stop_pools-AllStopped m.pools
