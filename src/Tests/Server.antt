-- ===== src/Tests/Server.antt =====
-- The server around the workers: src-server/src/config.rs, pool_manager.rs, worker.rs,
-- worker_pool.rs and queue.rs.
use bakpia_run.Prelude.{
  ◌%◌, ℕ, zero, suc, ◌+◌, ◌<◌, ◌≡◌, ◌↔◌, refl, true, some, [], ◌∷◌, arith, get_elem?, All,
}
use bakpia_run.Prelude.Maps.{get, insert, contains_key}
use bakpia_run.Text.{codes, text_eq, ends_with, starts_with}
use bakpia_run.Text.Matching.{text_keys}
use bakpia_run.Routing
use bakpia_run.Routing.{match_pattern, get_pool_name_for_request, get_pool, update_routing_table}
use bakpia_run.Routing.Patterns.{Fits, match_pattern_iff}
use bakpia_run.Routing.Choice.{
  Routed, get_pool_name_for_request-Routed, started, reloaded, get_pool_of_name,
}
use bakpia_run.Worker
use bakpia_run.Worker.{
  Child, child, failed, running, graceful_recycle, ensure_running, start, replace_process,
  threshold_bytes, should_restart,
}
use bakpia_run.Worker.Thresholds.{}
use bakpia_run.Worker.Waiting.{graceful_recycle_waits}
use bakpia_run.Worker.Lifecycle.{
  IsSettled, history, starts, takes_request, recycles, history-new-IsSettled,
}
use bakpia_run.WorkerPool.{is_free, get_next_worker}
use bakpia_run.WorkerPool.Choice.{get_next_worker-free}
use bakpia_run.WorkerPool.Turns.{calls, calls_reach_every_worker}
use bakpia_run.Queue.{rounds}
use bakpia_run.Queue.Progress.{IsKnown, IsFinished, rounds-IsFinished}
use bakpia_run.Tests.Samples.{
  sample_config, start_pool, good_os, busy_worker, two_workers, nobody_locked, mail_job, two_jobs,
  sample_handlers,
}

match_pattern_iff_example :
    (match_pattern (codes "/api/x") (codes "/api/*") ≡ true)
    ↔ Fits (codes "/api/x") (codes "/api/*")
match_pattern_iff_example = match_pattern_iff (codes "/api/x") (codes "/api/*")

get_pool_name_for_request-Routed_example :
    Routed
      (Routing.new start_pool sample_config).routing_table
      (codes "/api/x")
      []
      (get_pool_name_for_request (Routing.new start_pool sample_config) (codes "/api/x") [])
get_pool_name_for_request-Routed_example =
    get_pool_name_for_request-Routed (Routing.new start_pool sample_config) (codes "/api/x") []

routed_to_api :
    get_pool_name_for_request
      (update_routing_table (Routing.new start_pool sample_config) sample_config)
      (codes "/api/x")
      []
    ≡ some (codes "api")
unfolding get_pool_name_for_request update_routing_table Routing.new contains_key insert text_eq
    Routing.match_headers match_pattern ends_with starts_with
routed_to_api = refl

get_pool_of_name_example :
    (pool : ℕ) × (get_pool
        (update_routing_table (Routing.new start_pool sample_config) sample_config)
        (codes "api")
      ≡ some pool)
get_pool_of_name_example =
    get_pool_of_name start_pool
      (update_routing_table (Routing.new start_pool sample_config) sample_config) (codes "/api/x")
      [] (codes "api")
      (reloaded (Routing.new start_pool sample_config) sample_config (started sample_config))
      routed_to_api

graceful_recycle_waits_example :
    (graceful_recycle good_os sample_config busy_worker).slept_ms
    ≡ 2000
      + (replace_process good_os sample_config (record busy_worker { draining = true })).slept_ms
graceful_recycle_waits_example = graceful_recycle_waits good_os sample_config busy_worker refl

history-new-IsSettled_example : IsSettled (
    history
      (starts good_os sample_config ∷ takes_request ∷ recycles good_os sample_config ∷ [])
      (Worker.new 0 (codes "/tmp/s/worker_0.sock") 4))
history-new-IsSettled_example =
    history-new-IsSettled 0 4 (codes "/tmp/s/worker_0.sock")
      (starts good_os sample_config ∷ takes_request ∷ recycles good_os sample_config ∷ [])

get_next_worker-free_example :
    (j : ℕ) × (attempt : ℕ) × (attempt < 2)
    × (j ≡ (5 + attempt) % 2)
    × ((get_next_worker nobody_locked two_workers).0 ≡ some j)
    × (is_free (nobody_locked attempt j) (get_elem? two_workers.workers j) ≡ true)
get_next_worker-free_example =
    get_next_worker-free nobody_locked two_workers 1 (omega arith) (omega arith) (λ attempt. refl)

both_free :
    (attempt k : ℕ)
    → k < 2
    → is_free (nobody_locked attempt k) (get_elem? two_workers.workers k) ≡ true
both_free attempt zero h = refl
both_free attempt (suc zero) h = refl
both_free attempt (suc (suc k)) h = absurd (omega (arith, h))

calls_reach_every_worker_example :
    (i : ℕ) × (i < 2)
    × ((get_next_worker nobody_locked (calls nobody_locked i two_workers)).0 ≡ some 0)
calls_reach_every_worker_example =
    calls_reach_every_worker nobody_locked two_workers 0 both_free (omega arith) (omega arith)

two_jobs-IsKnown : All (IsKnown two_jobs.jobs) two_jobs.queue
unfolding IsKnown get text_eq
two_jobs-IsKnown = ((mail_job, refl), ((_, refl), tt))

rounds-IsFinished_example :
    ((rounds sample_handlers (codes "t1" ∷ codes "t2" ∷ []) two_jobs).queue ≡ [])
    × All
        (IsFinished (rounds sample_handlers (codes "t1" ∷ codes "t2" ∷ []) two_jobs).jobs)
        two_jobs.queue
rounds-IsFinished_example =
    rounds-IsFinished sample_handlers (codes "t1" ∷ codes "t2" ∷ []) two_jobs (omega arith)
      two_jobs-IsKnown

first_known : get (codes "j1") two_jobs.jobs ≡ some mail_job
unfolding get text_eq
first_known = refl
