-- ===== src/Worker.antt =====
-- src-server/src/worker.rs: one PHP worker process under supervision. What the operating system
-- answers is an argument of each operation; times are counted and nothing else waits.
pub mod Lifecycle
pub mod Thresholds
pub mod Waiting
pub mod Replacing
pub mod Activity
pub mod Command
use bakpia_run.Prelude.{
  ℕ, zero, suc, ◌+◌, ◌-◌, ◌*◌, ◌/◌, ◌%◌, ◌^◌, min, max, Bool, true, false, ◌&&◌, not, Option, none,
  some, List, [], ◌∷◌, ltb, leb, if◌then◌else◌,
}
use bakpia_run.Text.{Text}
use bakpia_run.Config.{Config}

-- Of anti_oom.rs: what `/proc/[pid]/status` tells of a process.
pub record ProcMemoryStatus : Type 0 where
  pub pid : ℕ
  pub vm_rss_bytes : ℕ
  pub vm_hwm_bytes : ℕ
  pub vm_size_bytes : ℕ

-- A child process; a child that was waited for has no id.
pub record Child : Type 0 where
  pub id : Option ℕ

-- Connections are numbers.
pub record Worker : Type 0 where
  pub index : ℕ
  pub process : Option Child
  pub pid : Option ℕ
  pub socket_path : Text
  pub requests_handled : ℕ
  pub last_memory : ℕ
  pub last_peak : ℕ
  pub rss_bytes : ℕ
  pub hwm_bytes : ℕ
  pub active_requests : ℕ
  pub draining : Bool
  pub recycle_count : ℕ
  pub connection_pool : List ℕ
  pub pool_size : ℕ

pub new : ℕ → Text → ℕ → Worker
new index socket_path pool_size = record {
  index = index;
  process = none;
  pid = none;
  socket_path = socket_path;
  requests_handled = 0;
  last_memory = 0;
  last_peak = 0;
  rss_bytes = 0;
  hwm_bytes = 0;
  active_requests = 0;
  draining = false;
  recycle_count = 0;
  connection_pool = [];
  pool_size = pool_size;
}

pub data Spawned : Type 0 where
  child : Child → Spawned
  failed : Text → Spawned

-- `try_wait` on a child: it exited, it runs, or the call failed.
pub data Polled : Type 0 where
  exited running unknown : Polled

-- What the operating system answers during one operation: to the spawn, to the question whether the
-- socket is there at each time in milliseconds, to reads of `/proc`, and to `try_wait`.
pub record Os : Type 0 where
  pub spawn : Spawned
  pub socket_exists : ℕ → Bool
  pub proc_status : ℕ → Option ProcMemoryStatus
  pub try_wait : Polled

-- A worker after an operation, the error that the operation ends in, and the time it slept.
pub record Run : Type 0 where
  pub worker : Worker
  pub error : Option Text
  pub slept_ms : ℕ

set_memory : Worker → Option ProcMemoryStatus → Worker
set_memory w none = w
set_memory w (some m) = record w { rss_bytes = m.vm_rss_bytes; hwm_bytes = m.vm_hwm_bytes }

pub refresh_proc_memory : Os → Worker → Worker
unfolding set_memory
refresh_proc_memory os w = elim w.pid [ none ↦ w | some pid ↦ set_memory w (os.proc_status pid) ]

-- The wait for the socket: at most `rounds` sleeps of ten milliseconds.
startup_wait : ℕ → ℕ → (ℕ → Bool) → ℕ → ℕ
startup_wait zero max_wait_ms exists waited_ms = waited_ms
startup_wait (suc rounds) max_wait_ms exists waited_ms =
    let longer = startup_wait rounds max_wait_ms exists (waited_ms + 10) in
    if ltb waited_ms max_wait_ms && not (exists waited_ms) then longer else waited_ms

-- The state after a successful spawn, up to the wait.
abbrev spawned : Child → Worker → Worker
spawned c w = record w {
  pid = c.id;
  process = some c;
  requests_handled = 0;
  last_memory = 0;
  last_peak = 0;
  draining = false;
  connection_pool = [];
}

start_with : Os → Config → Worker → Spawned → Run
start_with os c w (failed e) = record { worker = w; error = some e; slept_ms = 0 }
start_with os c w (child p) =
    let max_wait_ms = c.php.worker_startup_delay_ms in
    record {
      worker = refresh_proc_memory os (spawned p w);
      error = none;
      slept_ms = startup_wait ((max_wait_ms + 9) / 10) max_wait_ms os.socket_exists 0;
    }

pub start : Os → Config → Worker → Run
start os c w = start_with os c w os.spawn

pub stop : Worker → Worker
stop w = elim w.process [
  | none ↦ w
  | some p ↦ record w {
    process = none;
    pid = none;
    rss_bytes = 0;
    hwm_bytes = 0;
    connection_pool = [];
  }
]

-- The wait for requests in flight: the worker is locked meanwhile, so that their number stands.
drain_wait : ℕ → ℕ → ℕ → ℕ
drain_wait zero active waited_ms = waited_ms
drain_wait (suc rounds) active waited_ms =
    let longer = drain_wait rounds active (waited_ms + 20) in
    if ltb 0 active && ltb waited_ms 2000 then longer else waited_ms

-- The process is stopped, the recycling counted and a new process started.
pub replace_process : Os → Config → Worker → Run
replace_process os c w =
    let stopped = stop w in
    start os c (record stopped { recycle_count = (stopped.recycle_count + 1) % 2 ^ 64 })

pub graceful_recycle : Os → Config → Worker → Run
graceful_recycle os c w =
    if w.draining
    then record { worker = w; error = none; slept_ms = 0 }
    else let restarted = replace_process os c (record w { draining = true }) in
      record {
        worker = record (restarted.worker) { draining = false };
        error = restarted.error;
        slept_ms = drain_wait 100 w.active_requests 0 + restarted.slept_ms;
      }

poll : Worker → Polled → Worker × Bool
poll w exited = (record w { pid = none }, false)
poll w running = (w, true)
poll w unknown = (w, false)

pub check_health : Os → Worker → Worker × Bool
unfolding poll
check_health os w = elim w.process [ none ↦ (w, false) | some p ↦ poll w os.try_wait ]

pub ensure_running : Os → Config → Worker → Run
ensure_running os c w =
    let (checked, healthy) = check_health os w in
    if healthy
    then record { worker = checked; error = none; slept_ms = 0 }
    else start os c (stop checked)

pub data Reason : Type 0 where
  rss_over php_memory_over requests_reached : Reason

-- `x.clamp(1, 100)`
abbrev clamp : ℕ → ℕ
clamp x = max 1 (min x 100)

-- Both products are of `u64` and wrap.
pub threshold_bytes : Config → ℕ
threshold_bytes c =
    let limit_bytes = c.php.memory_limit_mb * 1024 % 2 ^ 64 * 1024 % 2 ^ 64 in
    limit_bytes * clamp c.anti_oom.worker_threshold_percent % 2 ^ 64 / 100

pub should_restart : Config → Worker → Option Reason
should_restart c w =
    if not c.anti_oom.enabled
    then none
    else if ltb (threshold_bytes c) w.rss_bytes
    then some rss_over
    else if ltb (threshold_bytes c) (max w.last_memory w.last_peak)
    then some php_memory_over
    else if leb c.php.max_requests w.requests_handled
    then some requests_reached
    else none

pub update_stats : Os → ℕ → ℕ → Worker → Worker
update_stats os memory peak w = refresh_proc_memory os (record w {
  requests_handled = (w.requests_handled + 1) % 2 ^ 64;
  last_memory = memory;
  last_peak = peak;
})

-- To run a worker in a test, unfold this.
unfoldable pub worker_code : Unit {0}
unfolding new set_memory refresh_proc_memory startup_wait start_with start stop drain_wait
    replace_process graceful_recycle poll check_health ensure_running threshold_bytes should_restart
    update_stats
worker_code = tt
