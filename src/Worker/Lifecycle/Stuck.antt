-- ===== src/Worker/Lifecycle/Stuck.antt =====
-- A worker that is left draining with its process running.
use mathlib.Core.Path.{subst}
use bakpia_run.Prelude.{ℕ, ◌≡◌, refl, sym, arith, true, some, List, [], ◌∷◌, All}
use bakpia_run.Config.{Config}
use bakpia_run.Worker.{
  Worker, Child, Os, running, refresh_proc_memory, graceful_recycle, check_health, ensure_running,
  update_stats, poll, set_memory,
}
use bakpia_run.Worker.Lifecycle.{
  Event, starts, stops, refreshes, recycles, ensures, takes_request, ends_request, reports, after,
  history,
}

-- An operation of a handler or the monitor, while the process runs; a reload stops and starts.
abbrev pub IsRoutine : Event → Type 0
IsRoutine (ensures os c) = os.try_wait ≡ running
IsRoutine (refreshes os) = Unit {0}
IsRoutine (recycles os c) = Unit {0}
IsRoutine takes_request = Unit {0}
IsRoutine ends_request = Unit {0}
IsRoutine (reports os memory peak) = Unit {0}
IsRoutine (starts os c) = ⊥
IsRoutine stops = ⊥

pub record IsStuck (p : Child) (n : ℕ) (w : Worker) : Type 0 where
  pub draining : w.draining ≡ true
  pub process : w.process ≡ some p
  pub recycled : w.recycle_count ≡ n

refresh-IsStuck :
    (p : Child) (n : ℕ) (os : Os) (w : Worker)
    → IsStuck p n w
    → IsStuck p n (refresh_proc_memory os w)
unfolding refresh_proc_memory set_memory
refresh-IsStuck p n os w v = record {
  draining = ground (arith, v.draining);
  process = ground (arith, v.process);
  recycled = ground (arith, v.recycled);
}

-- A recycling finds a worker that is draining, and leaves it as it is.
pub graceful_recycle-draining :
    (os : Os) (c : Config) (w : Worker)
    → w.draining ≡ true
    → ((graceful_recycle os c w).worker ≡ w) × ((graceful_recycle os c w).slept_ms ≡ 0)
unfolding graceful_recycle
graceful_recycle-draining os c w e = rw e (refl, refl)

ensure_running-running :
    (os : Os) (c : Config) (w : Worker) (p : Child)
    → w.process ≡ some p
    → os.try_wait ≡ running
    → (ensure_running os c w).worker ≡ w
unfolding ensure_running check_health poll
ensure_running-running os c w p e up = rw (e, up) refl

after-IsStuck :
    (p : Child) (n : ℕ) (e : Event) (w : Worker)
    → IsRoutine e
    → IsStuck p n w
    → IsStuck p n (after e w)
unfolding after update_stats
after-IsStuck p n (ensures os c) w up v =
    subst (IsStuck p n) (sym (ensure_running-running os c w p v.process up)) v
after-IsStuck p n (refreshes os) w h v = refresh-IsStuck p n os w v
after-IsStuck p n (recycles os c) w h v =
    subst (IsStuck p n) (sym (graceful_recycle-draining os c w v.draining).0) v
after-IsStuck p n takes_request w h v = record {
  draining = v.draining;
  process = v.process;
  recycled = v.recycled;
}
after-IsStuck p n ends_request w h v = record {
  draining = v.draining;
  process = v.process;
  recycled = v.recycled;
}
after-IsStuck p n (reports os memory peak) w h v =
    refresh-IsStuck p n os _
      (record { draining = v.draining; process = v.process; recycled = v.recycled })
after-IsStuck p n (starts os c) w h v = absurd h
after-IsStuck p n stops w h v = absurd h

pub history-IsStuck :
    (p : Child) (n : ℕ) (es : List Event) (w : Worker)
    → All IsRoutine es
    → IsStuck p n w
    → IsStuck p n (history es w)
unfolding history
history-IsStuck p n [] w h v = v
history-IsStuck p n (e ∷ es) w (h, hs) v =
    history-IsStuck p n es (after e w) hs (after-IsStuck p n e w h v)
