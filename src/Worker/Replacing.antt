-- ===== src/Worker/Replacing.antt =====
-- What recycling and checking leave behind.
use bakpia_run.Prelude.{
  ◌+◌, ◌%◌, ◌^◌, ◌≡◌, refl, sym, ◌∙◌, ap, ◌≢◌, inl, inr, true, false, arith, Bool-cases,
  Option-cases, none, some, ℕ, Option, ◌⊎◌,
}
use bakpia_run.Text.{Text}
use bakpia_run.Config.{Config}
use bakpia_run.Worker.{
  Worker, Os, Child, Spawned, child, failed, Polled, exited, running, unknown, set_memory,
  refresh_proc_memory, start_with, start, stop, replace_process, graceful_recycle, poll,
  check_health, ensure_running, spawned,
}

-- Reading the memory touches nothing that is claimed here.
refresh_keeps :
    (os : Os) (w : Worker)
    → ((refresh_proc_memory os w).process ≡ w.process)
      × ((refresh_proc_memory os w).requests_handled ≡ w.requests_handled)
      × ((refresh_proc_memory os w).active_requests ≡ w.active_requests)
      × ((refresh_proc_memory os w).recycle_count ≡ w.recycle_count)
unfolding refresh_proc_memory set_memory
refresh_keeps os w = (ground arith, ground arith, ground arith, ground arith)

pub stop_keeps :
    (w : Worker)
    → ((stop w).process ≡ none)
      × ((stop w).active_requests ≡ w.active_requests)
      × ((stop w).recycle_count ≡ w.recycle_count)
unfolding stop
stop_keeps w = (ground arith, ground arith, ground arith)

started_counts :
    (os : Os) (c : Config) (u : Worker) (s : Spawned)
    → ((start_with os c u s).worker.recycle_count ≡ u.recycle_count)
      × ((start_with os c u s).worker.active_requests ≡ u.active_requests)
unfolding start_with
started_counts os c u (failed e) = (refl, refl)
started_counts os c u (child p) = let k = refresh_keeps os (spawned p u) in (k.3, k.2)

-- The process, the requests counted and the error after a start, by what the spawn gave: the new
-- process, none counted and no error, or no process and the error of the spawn.
abbrev pub Follows : Spawned → Option Child → ℕ → Option Text → Type 0
Follows (child p) process handled error = (process ≡ some p) × (handled ≡ 0) × (error ≡ none)
Follows (failed e) process handled error = (process ≡ none) × (error ≡ some e)

started-Follows :
    (os : Os) (c : Config) (u : Worker) (s : Spawned)
    → u.process ≡ none
    → (let run = start_with os c u s in
        Follows s run.worker.process run.worker.requests_handled run.error)
unfolding start_with
started-Follows os c u (failed e) h = (h, refl)
started-Follows os c u (child p) h = let k = refresh_keeps os (spawned p u) in (k.0, k.1, refl)

start_error :
    (os : Os) (c : Config) (u : Worker) (s : Spawned)
    → (start_with os c u s).error ≡ none
    → (start_with os c u s).worker.process ≢ none
unfolding start_with
start_error os c u (failed e) h k = absurd (ground (arith, h))
start_error os c u (child p) h k =
    let q = sym (refresh_keeps os (spawned p u)).0 ∙ k in absurd (ground (arith, q))

pub start-process :
    (os : Os) (c : Config) (w : Worker)
    → (start os c w).error ≡ none
    → (start os c w).worker.process ≢ none
unfolding start
start-process os c w h = start_error os c w os.spawn h

-- A worker that is not draining and is recycled ends up either with the new process, no request
-- counted and no error, or, if the spawn fails, with no process and the error of the spawn. In both
-- cases one recycling more is counted, the requests in flight are counted as before, and the worker
-- is not draining.
graceful_recycle_lem :
    (os : Os) (c : Config) (w : Worker)
    → w.draining ≡ false
    → (let run = graceful_recycle os c w in
        (run.worker.recycle_count ≡ (w.recycle_count + 1) % 2 ^ 64)
        × (run.worker.active_requests ≡ w.active_requests)
        × (run.worker.draining ≡ false)
        × Follows os.spawn run.worker.process run.worker.requests_handled run.error)
unfolding graceful_recycle replace_process start
graceful_recycle_lem os c w h =
    let d = record w { draining = true } in
    let u = record (stop d) { recycle_count = ((stop d).recycle_count + 1) % 2 ^ 64 } in
    let kept = stop_keeps d in
    let counts = started_counts os c u os.spawn in
    rw h (
      counts.0 ∙ ap (λ n. (n + 1) % 2 ^ 64) kept.2,
      counts.1 ∙ kept.1,
      refl,
      started-Follows os c u os.spawn kept.0,
    )

polled_running :
    (w : Worker) (r : Polled)
    → ((poll w r).1 ≡ true → ((poll w r).0 ≡ w) × (r ≡ running))
      × (r ≡ running → poll w r ≡ (w, true))
unfolding poll
polled_running w exited = (λ h. absurd (ground (arith, h)), λ h. absurd (ground (arith, h)))
polled_running w running = (λ h. (refl, refl), λ h. refl)
polled_running w unknown = (λ h. absurd (ground (arith, h)), λ h. absurd (ground (arith, h)))

healthy_process :
    (os : Os) (w : Worker) → (check_health os w).1 ≡ true → (check_health os w).0.process ≢ none
unfolding check_health
healthy_process os w h k = elim (Option-cases w.process) [
  | inr (p, e) ↦
      let same = (polled_running w os.try_wait).0 (simp (e, check_health) at h) in
      absurd (ground (arith, k, e, same.0))
  | inl e ↦ absurd (ground (arith, h, e))
]

healthy_running :
    (os : Os) (w : Worker)
    → w.process ≢ none
    → os.try_wait ≡ running
    → check_health os w ≡ (w, true)
unfolding check_health
healthy_running os w h k = elim (Option-cases w.process) [
  | inr (p, e) ↦ simp (e, check_health) ((polled_running w os.try_wait).1 k)
  | inl e ↦ absurd (h e)
]

-- `ensure_running` ends in an error, or the worker has a process.
ensure_running_lem :
    (os : Os) (c : Config) (w : Worker)
    → ((ensure_running os c w).error ≢ none) ⊎ ((ensure_running os c w).worker.process ≢ none)
unfolding ensure_running start
ensure_running_lem os c w = elim (Bool-cases (check_health os w).1) [
  | inl e ↦ rw e (inr (healthy_process os w e))
  | inr e ↦
      rw e (elim (Option-cases (start_with os c (stop (check_health os w).0) os.spawn).error) [
        | inl k ↦ inr (start_error os c (stop (check_health os w).0) os.spawn k)
        | inr (m, k) ↦ inl (λ h. absurd (ground (arith, h, k)))
      ])
]

-- A worker that has a process which runs is left as it is, with no error and no sleep.
ensure_running_healthy :
    (os : Os) (c : Config) (w : Worker)
    → w.process ≢ none
    → os.try_wait ≡ running
    → ensure_running os c w ≡ record { worker = w; error = none; slept_ms = 0 }
unfolding ensure_running
ensure_running_healthy os c w p r = rw (healthy_running os w p r) refl

-- A worker without a process gets the one that is spawned.
pub ensure_running-stopped :
    (os : Os) (c : Config) (w : Worker) (p : Child)
    → w.process ≡ none
    → os.spawn ≡ child p
    → ((ensure_running os c w).error ≡ none) × ((ensure_running os c w).worker.process ≡ some p)
unfolding ensure_running check_health start stop start_with refresh_proc_memory
ensure_running-stopped os c w p stopped spawns =
    rw (stopped, spawns) (refl, (refresh_keeps os (spawned p w)).0)
