-- ===== src/Interleaving.antt =====
-- src-server/src/handlers.rs, with main.rs, worker_pool.rs and anti_oom.rs around it: many requests at
-- once. One step is what one task does while it holds a lock; a request is where its handler stands
-- between two steps. Workers stand in a store and are shared: a request keeps its worker while a
-- reload gives the pool others. The locks on the pools are left out, so that there are more steps here
-- than in the server.
pub mod Steps
pub mod Counting
pub mod Counted
pub mod Abandoned
pub mod Orphans
pub mod Routes
pub mod Choosing
pub mod Starting
pub mod Totals
use bakpia_run.Prelude.{
  ℕ, zero, suc, ◌+◌, ◌-◌, ◌≤◌, ◌≡◌, Bool, true, ◌&&◌, Option, none, some, List, [], ◌∷◌, ◌++◌, ltb,
  leb, ◌==◌, if◌then◌else◌, get_elem?, map,
}
use bakpia_run.Prelude.Maps.{insert}
use bakpia_run.Text.{Text}
use bakpia_run.Text.Matching.{text_keys}
use bakpia_run.Config.{Config, get_worker_socket_path}
use bakpia_run.Routing.{
  PoolManager, HeaderMap, get_pool_name_for_request, get_pool, update_routing_table,
}
use bakpia_run.Worker
use bakpia_run.Worker.{
  Worker, Os, Reason, start, stop, refresh_proc_memory, graceful_recycle, ensure_running,
  check_health, replace_process, should_restart, update_stats,
}
use bakpia_run.WorkerPool.{WorkerPool, get_next_worker}
use bakpia_run.Metrics.{Metrics, record_request, record_error}
use bakpia_run.Handler.Request.{PhpResponse}
use bakpia_run.Handler.Php.{Sent, answered, refused, timed_out}

-- A pool with the numbers of its workers in the store, as its `Arc`s.
pub record SharedPool : Type 0 where
  pub refs : List ℕ
  pub config : Config
  pub current_index : ℕ

-- `next` is the first number that no worker has.
pub record Shared : Type 0 where
  pub pool_manager : PoolManager SharedPool
  pub store : ℕ → Worker
  pub next : ℕ
  pub metrics : Metrics

-- Whether the metrics have recorded a request, or an error.
pub data Ending : Type 0 where
  unrecorded served erred : Ending

-- Where a request stands: the name of its pool; the worker's index in it, its number, and the pool's
-- configuration; PHP's answer. `abandoned` is a request that the client left while the worker counted
-- it: its handler is dropped where it waits.
pub data Pc : Type 0 where
  arrived : Pc
  named : Text → Pc
  assigned : ℕ → ℕ → Config → Pc
  prepared : ℕ → ℕ → Config → Pc
  waiting : ℕ → ℕ → Config → Pc
  received : ℕ → ℕ → Config → Sent → Pc
  recorded : ℕ → Config → Sent → Pc
  over_limit : ℕ → Config → Pc
  finished : Ending → Pc
  abandoned : ℕ → Ending → Pc

abbrev pub view : Shared → SharedPool → WorkerPool
view s p = record {
  workers = map s.store p.refs;
  config = p.config;
  current_index = p.current_index;
}

-- The store after a change of one worker.
abbrev pub put : Shared → ℕ → Worker → Shared
put s k w = record s { store = λ j. if j == k then w else s.store j }

abbrev pub put_pool : Shared → Text → SharedPool → Shared
put_pool s name p = record s {
  pool_manager = record (s.pool_manager) { pools = insert name p s.pool_manager.pools };
}

abbrev pub ended : Worker → Worker
ended w = record w { active_requests = w.active_requests - 1 }

-- Where an operation that sleeps or waits is cut off: in the wait for requests, in `stop` behind
-- `take`, or in `start` behind the spawn.
pub data Cut : Type 0 where
  in_wait : Cut
  in_stop : Cut
  in_start : Os → Config → Cut

abbrev pub cut_recycle : Cut → Worker → Worker
cut_recycle in_wait w = record w { draining = true }
cut_recycle in_stop w = record w { draining = true; process = none }
cut_recycle (in_start os c) w = (replace_process os c (record w { draining = true })).worker

-- With what the health check before it was answered.
abbrev pub cut_ensure : Os → Cut → Worker → Worker
cut_ensure checked in_wait w = w
cut_ensure checked in_stop w = record (check_health checked w).0 { process = none }
cut_ensure checked (in_start os c) w = (start os c (stop (check_health checked w).0)).worker

-- One step of a handler that goes on.
pub data Move (s : Shared) : Pc → Shared → Pc → Type 0 where
  -- Over the limit, a static file, or no PHP file.
  turn_away : Move s arrived s (finished unrecorded)
  route :
      (path : Text) (headers : HeaderMap) (name : Text)
      → get_pool_name_for_request s.pool_manager path headers ≡ some name
      → Move s arrived s (named name)
  choose :
      (locked : ℕ → ℕ → Bool) (p : SharedPool) (i k : ℕ) {name : Text}
      → get_pool s.pool_manager name ≡ some p
      → (get_next_worker locked (view s p)).0 ≡ some i
      → get_elem? p.refs i ≡ some k
      → Move s
          (named name)
          (put_pool s name
            (record p { current_index = (get_next_worker locked (view s p)).1.current_index }))
          (assigned i k p.config)
  ensure :
      (os : Os) {i k : ℕ} {c : Config}
      → (ensure_running os c (s.store k)).error ≡ none
      → Move s (assigned i k c) (put s k (ensure_running os c (s.store k)).worker) (prepared i k c)
  ensure_fails :
      (os : Os) (e : Text) {i k : ℕ} {c : Config}
      → (ensure_running os c (s.store k)).error ≡ some e
      → Move s
          (assigned i k c)
          (put s k (ensure_running os c (s.store k)).worker)
          (finished unrecorded)
  unreadable : {i k : ℕ} {c : Config} → Move s (prepared i k c) s (finished unrecorded)
  take :
      {i k : ℕ} {c : Config}
      → Move s
          (prepared i k c)
          (put s k (record (s.store k) { active_requests = (s.store k).active_requests + 1 }))
          (waiting i k c)
  receive : (sent : Sent) {i k : ℕ} {c : Config} → Move s (waiting i k c) s (received i k c sent)
  record_answer :
      {i k : ℕ} {c : Config} {php : PhpResponse}
      → Move s
          (received i k c (answered php))
          (record s { metrics = record_request i php.memory s.metrics })
          (recorded k c (answered php))
  record_refusal :
      {i k : ℕ} {c : Config} {e : Text}
      → Move s
          (received i k c (refused e))
          (record s { metrics = record_error s.metrics })
          (recorded k c (refused e))
  record_timeout :
      {i k : ℕ} {c : Config}
      → Move s
          (received i k c timed_out)
          (record s { metrics = record_error s.metrics })
          (recorded k c timed_out)
  settle_within :
      (os : Os) {k : ℕ} {c : Config} {php : PhpResponse}
      → should_restart c (update_stats os php.memory php.peak (ended (s.store k))) ≡ none
      → Move s
          (recorded k c (answered php))
          (put s k (update_stats os php.memory php.peak (ended (s.store k))))
          (finished served)
  settle_over :
      (os : Os) (reason : Reason) {k : ℕ} {c : Config} {php : PhpResponse}
      → should_restart c (update_stats os php.memory php.peak (ended (s.store k))) ≡ some reason
      → Move s
          (recorded k c (answered php))
          (put s k (update_stats os php.memory php.peak (ended (s.store k))))
          (over_limit k c)
  settle_refusal :
      (os : Os) {k : ℕ} {c : Config} {e : Text}
      → Move s
          (recorded k c (refused e))
          (put s k (ensure_running os c (ended (s.store k))).worker)
          (finished erred)
  settle_timeout :
      (os : Os) {k : ℕ} {c : Config}
      → Move s
          (recorded k c timed_out)
          (put s k (graceful_recycle os c (ended (s.store k))).worker)
          (finished erred)
  recycle :
      (os : Os) {k : ℕ} {c : Config}
      → Move s
          (over_limit k c)
          (put s k (graceful_recycle os c (s.store k)).worker)
          (finished served)

abbrev pub ending_of : Sent → Ending
ending_of (answered php) = served
ending_of (refused e) = erred
ending_of timed_out = erred

-- The client leaves, and the handler is dropped where it waits: for a lock, for PHP, or inside an
-- operation on its worker.
pub data Leave (s : Shared) : Pc → Shared → Pc → Type 0 where
  leave_named : {name : Text} → Leave s (named name) s (finished unrecorded)
  leave_assigned :
      (checked : Os) (cut : Cut) {i k : ℕ} {c : Config}
      → Leave s
          (assigned i k c)
          (put s k (cut_ensure checked cut (s.store k)))
          (finished unrecorded)
  leave_prepared : {i k : ℕ} {c : Config} → Leave s (prepared i k c) s (finished unrecorded)
  leave_waiting : {i k : ℕ} {c : Config} → Leave s (waiting i k c) s (abandoned k unrecorded)
  leave_received :
      {i k : ℕ} {c : Config} {sent : Sent}
      → Leave s (received i k c sent) s (abandoned k unrecorded)
  leave_recorded :
      {k : ℕ} {c : Config} {sent : Sent}
      → Leave s (recorded k c sent) s (abandoned k (ending_of sent))
  leave_refusal :
      (checked : Os) (cut : Cut) {k : ℕ} {c : Config} {e : Text}
      → Leave s
          (recorded k c (refused e))
          (put s k (cut_ensure checked cut (ended (s.store k))))
          (finished erred)
  leave_timeout :
      (cut : Cut) {k : ℕ} {c : Config}
      → Leave s
          (recorded k c timed_out)
          (put s k (cut_recycle cut (ended (s.store k))))
          (finished erred)
  leave_recycle :
      (cut : Cut) {k : ℕ} {c : Config}
      → Leave s (over_limit k c) (put s k (cut_recycle cut (s.store k))) (finished served)

-- What the monitor, the other handlers and a reload do to one worker.
pub data Upkeep : Type 0 where
  refreshes : Os → Upkeep
  recycles : Os → Config → Upkeep
  stops : Upkeep
  starts : Os → Config → Upkeep

abbrev pub tended : Upkeep → Worker → Worker
tended (refreshes os) w = refresh_proc_memory os w
tended (recycles os c) w = (graceful_recycle os c w).worker
tended stops w = stop w
tended (starts os c) w = (start os c w).worker
