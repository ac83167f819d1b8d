-- ===== src/WorkerPool/Starting.antt =====
-- Starting, stopping and reloading the workers of a pool.
use bakpia_run.Prelude.{
  Option, ℕ, zero, suc, ◌≡◌, refl, ◌∙◌, ap, ◌≢◌, ◌⊎◌, arith, Option-cases, none, List, [], ◌∷◌, inl,
  inr, length, All, ==_iff,
}
use bakpia_run.Text.{Text}
use bakpia_run.Config.{Config}
use bakpia_run.Worker
use bakpia_run.Worker.{Worker, Os}
use bakpia_run.Worker.Replacing.{start-process}
use bakpia_run.WorkerPool.{
  WorkerPool, make_workers, start_from, start_all, stop_each, stop_all, resize, reload, new,
}

abbrev pub HasProcess : Worker → Type 0
HasProcess w = w.process ≢ none

start_from-process :
    (os : ℕ → Os) (c : Config) (i : ℕ) (ws : List Worker)
    → (start_from os c i ws).1 ≡ none
    → All HasProcess (start_from os c i ws).0
unfolding start_from
start_from-process os c i [] h = tt
start_from-process os c i (w ∷ ws) h = elim (Option-cases (Worker.start (os i) c w).error) [
  | inl e ↦
      simp (e, start_from)
        (start-process (os i) c w e, start_from-process os c (suc i) ws (simp (e, start_from) at h))
  | inr (m, e) ↦ absurd (ground (arith, (simp (e, start_from) at h)))
]

length-start_from :
    (os : ℕ → Os) (c : Config) (i : ℕ) (ws : List Worker)
    → length (start_from os c i ws).0 ≡ length ws
unfolding start_from
length-start_from os c i [] = refl
length-start_from os c i (w ∷ ws) = elim (Option-cases (Worker.start (os i) c w).error) [
  | inl e ↦ simp (e, start_from) (ap suc (length-start_from os c (suc i) ws))
  | inr (m, e) ↦ simp (e, start_from) refl
]

length-stop_each : (ws : List Worker) → length (stop_each ws) ≡ length ws
unfolding stop_each
length-stop_each [] = refl
length-stop_each (w ∷ ws) = ap suc (length-stop_each ws)

length-make_workers : (c : Config) (i count : ℕ) → length (make_workers c i count) ≡ count
unfolding make_workers
length-make_workers c i zero = refl
length-make_workers c i (suc count) = ap suc (length-make_workers c (suc i) count)

length-resize : (c : Config) (ws : List Worker) → length (resize c ws) ≡ c.php.worker_count
unfolding resize
length-resize c ws =
    ground
      (arith, length-make_workers c 0 c.php.worker_count, ==_iff c.php.worker_count (length ws))

-- An error, or every worker has a process.
abbrev pub Started : List Worker → Option Text → Type 0
Started ws error = (error ≢ none) ⊎ All HasProcess ws

start_from-Started :
    (os : ℕ → Os) (c : Config) (i : ℕ) (ws : List Worker)
    → Started (start_from os c i ws).0 (start_from os c i ws).1
start_from-Started os c i ws = elim (Option-cases (start_from os c i ws).1) [
  | inl e ↦ inr (start_from-process os c i ws e)
  | inr (m, e) ↦ inl (λ h. absurd (ground (arith, h, e)))
]

-- `start_all` ends in an error, or every worker of the pool has a process; in both cases there are
-- as many workers as before.
start_all-Started :
    (os : ℕ → Os) (c : Config) (p : WorkerPool)
    → Started (start_all os c p).0.workers (start_all os c p).1
      × (length (start_all os c p).0.workers ≡ length p.workers)
unfolding start_all
start_all-Started os c p = (start_from-Started os c 0 p.workers, length-start_from os c 0 p.workers)

-- `reload` ends in an error, or every worker of the pool has a process; in both cases the pool has
-- the number of workers and the configuration that it was given.
pub reload-Started :
    (os : ℕ → Os) (c : Config) (p : WorkerPool)
    → Started (reload os c p).0.workers (reload os c p).1
      × (length (reload os c p).0.workers ≡ c.php.worker_count)
      × ((reload os c p).0.config ≡ c)
unfolding reload stop_all
reload-Started os c p =
    let ws = resize c (stop_each p.workers) in
    (
      start_from-Started os c 0 ws,
      length-start_from os c 0 ws ∙ length-resize c (stop_each p.workers),
      refl,
    )

pub length-start_all-new :
    (os : ℕ → Os) (c : Config) (count : ℕ) → length (start_all os c (new count c)).0.workers ≡ count
unfolding new
length-start_all-new os c count =
    (start_all-Started os c (new count c)).1 ∙ length-make_workers c 0 count
