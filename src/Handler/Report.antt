-- ===== src/Handler/Report.antt =====
-- src-server/src/handlers.rs: `metrics_handler`, the text for Prometheus. The percentage with two decimals
-- is a parameter.
use bakpia_run.Prelude.{ℕ, List, [], ◌∷◌, ◌++◌, if◌then◌else◌}
use bakpia_run.Text.{Text, codes}
use bakpia_run.Text.Decimal.{decimal}
use bakpia_run.Float.{F64}
use bakpia_run.Worker.{Worker, Os}
use bakpia_run.WorkerPool.{WorkerPool}
use bakpia_run.Metrics.{uptime_seconds}
use bakpia_run.AntiOom.{Reader, read_cgroup_v2_memory}
use bakpia_run.App.{AppState}
use bakpia_run.Handler.Health.{is_alive, refreshed}

-- The two lines before a metric.
abbrev pub heading : Text → Text → Text → Text
heading name help kind =
    codes "# HELP "
    ++ (name
        ++ (codes " "
            ++ (help ++ (codes "\n# TYPE " ++ (name ++ (codes " " ++ (kind ++ codes "\n")))))))

abbrev pub plain_metric : Text → Text → Text → Text → Text → Text
plain_metric name help kind label value =
    heading name help kind ++ (name ++ (label ++ (codes " " ++ (value ++ codes "\n\n"))))

abbrev pub worker_lines : Text → (Worker → ℕ) → Text → List Worker → Text
worker_lines name value pool [] = []
worker_lines name value pool (w ∷ ws) =
    name
    ++ (codes "{pool=\""
        ++ (pool
            ++ (codes "\",worker=\""
                ++ (decimal w.index ++ (codes "\"} " ++ (decimal (value w) ++ codes "\n"))))))
    ++ worker_lines name value pool ws

abbrev pub pool_lines : Text → (Worker → ℕ) → List (Text × WorkerPool) → Text
pool_lines name value [] = []
pool_lines name value ((pool, p) ∷ ps) =
    worker_lines name value pool p.workers ++ pool_lines name value ps

-- A metric with a line for each worker.
abbrev pub worker_metric : Text → Text → Text → (Worker → ℕ) → List (Text × WorkerPool) → Text
worker_metric name help kind value ps = heading name help kind ++ pool_lines name value ps

abbrev pub source_label : Text → Text
source_label source = codes "{source=\"" ++ (source ++ codes "\"}")

module _ {F V : Type 0} where
  -- The resident memory is read anew before its lines are written; no line before those shows it.
  unfoldable pub metrics_handler :
      F64 F → (F → Text) → Reader → ℕ → (ℕ → ℕ → Os) → AppState F V → Text × AppState F V
  metrics_handler f two_decimals read now os st =
      let oom = st.config.anti_oom in
      let cgroup_mem =
        read_cgroup_v2_memory f read oom.cgroup_memory_current_path oom.cgroup_memory_max_path in
      let source = source_label cgroup_mem.source in
      let before = st.pool_manager.pools in
      let after = refreshed os st in
      let pools = after.pool_manager.pools in
      (
        plain_metric (codes "bakpiarun_uptime_seconds") (codes "Server uptime in seconds")
              (codes "gauge") [] (decimal (uptime_seconds now st.metrics))
            ++ (plain_metric (codes "bakpiarun_requests_total") (codes "Total number of requests")
                  (codes "counter") [] (decimal st.metrics.total_requests)
                ++ (plain_metric (codes "bakpiarun_errors_total") (codes "Total number of errors")
                      (codes "counter") [] (decimal st.metrics.total_errors)
                    ++ (plain_metric (codes "bakpiarun_cgroup_memory_current_bytes")
                          (codes "Aggregate container memory usage from cgroups v2") (codes "gauge")
                          source (decimal cgroup_mem.current_bytes)
                        ++ (plain_metric (codes "bakpiarun_cgroup_memory_max_bytes")
                              (codes "Maximum container memory limit from cgroups v2")
                              (codes "gauge") source (decimal cgroup_mem.max_bytes)
                            ++ (plain_metric (codes "bakpiarun_cgroup_memory_usage_percent")
                                  (codes "Container cgroups v2 memory usage percentage")
                                  (codes "gauge") source (two_decimals cgroup_mem.usage_percent)
                                ++ (worker_metric (codes "bakpiarun_worker_requests_total")
                                      (codes "Requests per worker") (codes "counter")
                                      (λ w. w.requests_handled) before
                                    ++ (codes "\n"
                                        ++ (worker_metric (codes "bakpiarun_worker_memory_bytes")
                                              (codes "PHP memory usage per worker in bytes")
                                              (codes "gauge") (λ w. w.last_memory) before
                                            ++ (codes "\n"
                                                ++ (worker_metric
                                                      (codes "bakpiarun_worker_proc_rss_bytes")
                                                      (codes
                                                        "OS VmRSS from /proc/[pid]/status per worker in bytes")
                                                      (codes "gauge") (λ w. w.rss_bytes) pools
                                                    ++ (codes "\n"
                                                        ++ (worker_metric
                                                            (codes
                                                            "bakpiarun_worker_recycles_total")
                                                            (codes
                                                            "Total proactive graceful worker recycles by Anti-OOM Engine")
                                                            (codes "counter") (λ w. w.recycle_count)
                                                            pools
                                                            ++ (codes "\n"
                                                            ++ worker_metric
                                                            (codes "bakpiarun_worker_alive")
                                                            (codes "Worker alive status")
                                                            (codes "gauge")
                                                            (λ w. if is_alive w then 1 else 0)
                                                            pools))))))))))))),
        after,
      )
