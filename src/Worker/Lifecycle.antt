-- ===== src/Worker/Lifecycle.antt =====
-- The data of a worker through its operations.
pub mod Stuck
use bakpia_run.Prelude.{
  ℕ, ◌+◌, ◌-◌, ◌≡◌, refl, ◌∙◌, inl, inr, true, false, arith, Bool-cases, none, List, [], ◌∷◌,
}
use bakpia_run.Text.{Text}
use bakpia_run.Config.{Config}
use bakpia_run.Worker.{
  Worker, Os, Child, Spawned, child, failed, new, set_memory, refresh_proc_memory, start_with,
  start, stop, replace_process, graceful_recycle, poll, check_health, ensure_running, update_stats,
  spawned,
}

-- A worker has a process where it has a process id, and keeps no connection.
pub record IsTidy (w : Worker) : Type 0 where
  pub pid_of_process : w.process ≡ none → w.pid ≡ none
  pub no_connections : w.connection_pool ≡ []

-- A worker that nobody holds is tidy and is not draining.
pub record IsSettled (w : Worker) : Type 0 where
  pub not_draining : w.draining ≡ false
  pub tidy : IsTidy w

refresh-IsTidy : (os : Os) (w : Worker) → IsTidy w → IsTidy (refresh_proc_memory os w)
unfolding refresh_proc_memory set_memory
refresh-IsTidy os w v = ground arith

refresh-draining : (os : Os) (w : Worker) → (refresh_proc_memory os w).draining ≡ w.draining
unfolding refresh_proc_memory set_memory
refresh-draining os w = ground arith

pub refresh-IsSettled : (os : Os) (w : Worker) → IsSettled w → IsSettled (refresh_proc_memory os w)
refresh-IsSettled os w v = record {
  not_draining = refresh-draining os w ∙ v.not_draining;
  tidy = refresh-IsTidy os w v.tidy;
}

spawned-IsTidy : (p : Child) (w : Worker) → IsTidy (spawned p w)
spawned-IsTidy p w = record { pid_of_process = λ e. cc; no_connections = refl }

start_with-IsTidy :
    (os : Os) (c : Config) (w : Worker) (s : Spawned)
    → IsTidy w
    → IsTidy (start_with os c w s).worker
unfolding start_with
start_with-IsTidy os c w (failed e) v = v
start_with-IsTidy os c w (child p) v = refresh-IsTidy os (spawned p w) (spawned-IsTidy p w)

start_with-draining :
    (os : Os) (c : Config) (w : Worker) (s : Spawned)
    → w.draining ≡ false
    → (start_with os c w s).worker.draining ≡ false
unfolding start_with
start_with-draining os c w (failed e) h = h
start_with-draining os c w (child p) h = refresh-draining os (spawned p w)

pub start-IsSettled :
    (os : Os) (c : Config) (w : Worker) → IsSettled w → IsSettled (start os c w).worker
unfolding start
start-IsSettled os c w v = record {
  not_draining = start_with-draining os c w os.spawn v.not_draining;
  tidy = start_with-IsTidy os c w os.spawn v.tidy;
}

stop-IsTidy : (w : Worker) → IsTidy w → IsTidy (stop w)
unfolding stop
stop-IsTidy w v = ground arith

pub stop-IsSettled : (w : Worker) → IsSettled w → IsSettled (stop w)
unfolding stop
stop-IsSettled w v = record {
  not_draining = ground arith;
  tidy = unfold stop in stop-IsTidy w v.tidy;
}

-- Only the fields that the predicate reads matter.
IsTidy-same :
    (w u : Worker)
    → u.process ≡ w.process
    → u.pid ≡ w.pid
    → u.connection_pool ≡ w.connection_pool
    → IsTidy w
    → IsTidy u
IsTidy-same w u p q r v = ground arith

replace_process-IsTidy :
    (os : Os) (c : Config) (w : Worker) → IsTidy w → IsTidy (replace_process os c w).worker
unfolding replace_process start
replace_process-IsTidy os c w v =
    start_with-IsTidy os c _ os.spawn (IsTidy-same (stop w) _ refl refl refl (stop-IsTidy w v))

pub graceful_recycle-IsSettled :
    (os : Os) (c : Config) (w : Worker) → IsSettled w → IsSettled (graceful_recycle os c w).worker
unfolding graceful_recycle
graceful_recycle-IsSettled os c w v =
    let draining = record w { draining = true } in
    rw v.not_draining (record {
      not_draining = refl;
      tidy =
          IsTidy-same (replace_process os c draining).worker _ refl refl refl
            (replace_process-IsTidy os c draining (IsTidy-same w draining refl refl refl v.tidy));
    })

check_health-IsSettled : (os : Os) (w : Worker) → IsSettled w → IsSettled (check_health os w).0
unfolding check_health poll
check_health-IsSettled os w v = ground arith

pub ensure_running-IsSettled :
    (os : Os) (c : Config) (w : Worker) → IsSettled w → IsSettled (ensure_running os c w).worker
unfolding ensure_running
ensure_running-IsSettled os c w v = elim (Bool-cases (check_health os w).1) [
  | inl e ↦ rw e (check_health-IsSettled os w v)
  | inr e ↦ rw e (start-IsSettled os c _ (stop-IsSettled _ (check_health-IsSettled os w v)))
]

pub update_stats-IsSettled :
    (os : Os) (memory peak : ℕ) (w : Worker)
    → IsSettled w
    → IsSettled (update_stats os memory peak w)
unfolding update_stats
update_stats-IsSettled os memory peak w v =
    refresh-IsSettled os _
      (record { not_draining = v.not_draining; tidy = IsTidy-same w _ refl refl refl v.tidy })

-- What happens to a worker while its lock is held, by the handlers, the monitor and a reload.
pub data Event : Type 0 where
  starts : Os → Config → Event
  stops : Event
  refreshes : Os → Event
  recycles : Os → Config → Event
  ensures : Os → Config → Event
  takes_request : Event
  ends_request : Event
  reports : Os → ℕ → ℕ → Event

pub after : Event → Worker → Worker
after (starts os c) w = (start os c w).worker
after stops w = stop w
after (refreshes os) w = refresh_proc_memory os w
after (recycles os c) w = (graceful_recycle os c w).worker
after (ensures os c) w = (ensure_running os c w).worker
after takes_request w = record w { active_requests = w.active_requests + 1 }
after ends_request w = record w { active_requests = w.active_requests - 1 }
after (reports os memory peak) w = update_stats os memory peak w

pub history : List Event → Worker → Worker
history [] w = w
history (e ∷ es) w = history es (after e w)

after-IsSettled : (e : Event) (w : Worker) → IsSettled w → IsSettled (after e w)
unfolding after
after-IsSettled (starts os c) w v = start-IsSettled os c w v
after-IsSettled stops w v = stop-IsSettled w v
after-IsSettled (refreshes os) w v = refresh-IsSettled os w v
after-IsSettled (recycles os c) w v = graceful_recycle-IsSettled os c w v
after-IsSettled (ensures os c) w v = ensure_running-IsSettled os c w v
after-IsSettled takes_request w v = ground arith
after-IsSettled ends_request w v = ground arith
after-IsSettled (reports os memory peak) w v = update_stats-IsSettled os memory peak w v

history-IsSettled : (es : List Event) (w : Worker) → IsSettled w → IsSettled (history es w)
unfolding history
history-IsSettled [] w v = v
history-IsSettled (e ∷ es) w v = history-IsSettled es (after e w) (after-IsSettled e w v)

pub new-IsSettled :
    (index pool_size : ℕ) (socket_path : Text) → IsSettled (new index socket_path pool_size)
unfolding new
new-IsSettled index pool_size socket_path = record {
  not_draining = refl;
  tidy = record { pid_of_process = λ _. refl; no_connections = refl };
}

-- Whatever operations run on a new worker, each to its end, it is found settled whenever its lock is
-- free: in particular the router then never sees a worker that drains, and a recycling never finds one.
pub history-new-IsSettled :
    (index pool_size : ℕ) (socket_path : Text) (es : List Event)
    → IsSettled (history es (new index socket_path pool_size))
history-new-IsSettled index pool_size socket_path es =
    history-IsSettled es (new index socket_path pool_size)
      (new-IsSettled index pool_size socket_path)
