-- ===== src/Worker/Activity.antt =====
-- src-server/src/worker.rs: the number of requests in flight through the operations.
use bakpia_run.Prelude.{ℕ, ◌≡◌, refl, ◌∙◌, inl, inr, true, arith, Bool-cases}
use bakpia_run.Text.{Text}
use bakpia_run.Config.{Config}
use bakpia_run.Worker.{
  Worker, Os, new, Spawned, child, failed, set_memory, refresh_proc_memory, start_with, start, stop,
  replace_process, graceful_recycle, poll, check_health, ensure_running, update_stats, spawned,
}

pub refresh-active :
    (os : Os) (w : Worker) → (refresh_proc_memory os w).active_requests ≡ w.active_requests
unfolding refresh_proc_memory set_memory
refresh-active os w = ground arith

start_with-active :
    (os : Os) (c : Config) (w : Worker) (s : Spawned)
    → (start_with os c w s).worker.active_requests ≡ w.active_requests
unfolding start_with
start_with-active os c w (failed e) = refl
start_with-active os c w (child p) = refresh-active os (spawned p w)

pub start-active :
    (os : Os) (c : Config) (w : Worker) → (start os c w).worker.active_requests ≡ w.active_requests
unfolding start
start-active os c w = start_with-active os c w os.spawn

pub stop-active : (w : Worker) → (stop w).active_requests ≡ w.active_requests
unfolding stop
stop-active w = ground arith

pub replace_process-active :
    (os : Os) (c : Config) (w : Worker)
    → (replace_process os c w).worker.active_requests ≡ w.active_requests
unfolding replace_process
replace_process-active os c w = start-active os c _ ∙ stop-active w

pub graceful_recycle-active :
    (os : Os) (c : Config) (w : Worker)
    → (graceful_recycle os c w).worker.active_requests ≡ w.active_requests
unfolding graceful_recycle replace_process
graceful_recycle-active os c w = elim (Bool-cases w.draining) [
  | inl e ↦ ground (arith, e)
  | inr e ↦ simp e (start-active os c _ ∙ stop-active (record w { draining = true }))
]

pub check_health-active :
    (os : Os) (w : Worker) → (check_health os w).0.active_requests ≡ w.active_requests
unfolding check_health poll
check_health-active os w = ground arith

pub ensure_running-active :
    (os : Os) (c : Config) (w : Worker)
    → (ensure_running os c w).worker.active_requests ≡ w.active_requests
unfolding ensure_running
ensure_running-active os c w = elim (Bool-cases (check_health os w).1) [
  | inl e ↦ rw e (check_health-active os w)
  | inr e ↦ rw e (start-active os c _ ∙ stop-active _ ∙ check_health-active os w)
]

pub update_stats-active :
    (os : Os) (memory peak : ℕ) (w : Worker)
    → (update_stats os memory peak w).active_requests ≡ w.active_requests
unfolding update_stats
update_stats-active os memory peak w = refresh-active os _

pub new-active :
    (index : ℕ) (socket_path : Text) (pool_size : ℕ)
    → (new index socket_path pool_size).active_requests ≡ 0
unfolding new
new-active index socket_path pool_size = refl

pub refresh-process : (os : Os) (w : Worker) → (refresh_proc_memory os w).process ≡ w.process
unfolding refresh_proc_memory set_memory
refresh-process os w = ground arith
