-- ===== src/WorkerPool/Invariant.antt =====
-- src-server/src/worker_pool.rs: what holds of every worker through a reload.
use bakpia_run.Prelude.{
  ℕ, zero, suc, inl, inr, Bool-cases, Option-cases, List, [], ◌∷◌, length, ◌==◌, All,
}
use bakpia_run.Config.{Config}
use bakpia_run.Text.{Text}
use bakpia_run.Worker
use bakpia_run.Worker.{Worker, Os}
use bakpia_run.WorkerPool.{
  WorkerPool, make_workers, start_from, stop_each, stop_all, resize, new, start_all, reload,
}

-- A property of workers that new ones have and that starting and stopping keep.
pub record IsKept (Q : Worker → Type 0) : Type 0 where
  pub fresh : (i : ℕ) (path : Text) (size : ℕ) → Q (Worker.new i path size)
  pub started : (os : Os) (c : Config) (w : Worker) → Q w → Q (Worker.start os c w).worker
  pub stopped : (w : Worker) → Q w → Q (Worker.stop w)

module _ (Q : Worker → Type 0) (keeps : IsKept Q) where
  make_workers-All : (c : Config) (i count : ℕ) → All Q (make_workers c i count)
  unfolding make_workers
  make_workers-All c i zero = tt
  make_workers-All c i (suc count) = (keeps.fresh i _ _, make_workers-All c (suc i) count)

  start_from-All :
      (os : ℕ → Os) (c : Config) (i : ℕ) (ws : List Worker)
      → All Q ws
      → All Q (start_from os c i ws).0
  unfolding start_from
  start_from-All os c i [] h = h
  start_from-All os c i (w ∷ ws) (hw, h) = elim (Option-cases (Worker.start (os i) c w).error) [
    | inl fine ↦
        rw (fine, start_from) (keeps.started (os i) c w hw, start_from-All os c (suc i) ws h)
    | inr (e, ends) ↦ rw (ends, start_from) (keeps.started (os i) c w hw, h)
  ]

  stop_each-All : (ws : List Worker) → All Q ws → All Q (stop_each ws)
  unfolding stop_each
  stop_each-All [] h = h
  stop_each-All (w ∷ ws) (hw, h) = (keeps.stopped w hw, stop_each-All ws h)

  resize-All : (c : Config) (ws : List Worker) → All Q ws → All Q (resize c ws)
  unfolding resize
  resize-All c ws h = elim (Bool-cases (c.php.worker_count == length ws)) [
    | inl same ↦ rw same h
    | inr other ↦ rw other (make_workers-All c 0 c.php.worker_count)
  ]

  pub reload-All :
      (os : ℕ → Os) (c : Config) (p : WorkerPool)
      → All Q p.workers
      → All Q (reload os c p).0.workers
  unfolding reload stop_all
  reload-All os c p h = start_from-All os c 0 _ (resize-All c _ (stop_each-All p.workers h))

  pub start_all-new-All :
      (os : ℕ → Os) (c : Config) (count : ℕ) → All Q (start_all os c (new count c)).0.workers
  unfolding start_all new
  start_all-new-All os c count = start_from-All os c 0 _ (make_workers-All c 0 count)

module _ (Q : Worker → Type 0) (stopped : (w : Worker) → Q (Worker.stop w)) where
  -- What a stop brings about holds of every worker after `stop_all`, whatever they were.
  stop_each-stopped : (ws : List Worker) → All Q (stop_each ws)
  unfolding stop_each
  stop_each-stopped [] = tt
  stop_each-stopped (w ∷ ws) = (stopped w, stop_each-stopped ws)

  pub stop_all-stopped : (p : WorkerPool) → All Q (stop_all p).workers
  unfolding stop_all
  stop_all-stopped p = stop_each-stopped p.workers
