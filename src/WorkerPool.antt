-- ===== src/WorkerPool.antt =====
-- src-server/src/worker_pool.rs: the workers of a pool, and the choice of the one for a request.
pub mod Choice
pub mod Starting
pub mod Turns
pub mod Invariant
use bakpia_run.Prelude.{
  ℕ, zero, suc, ◌+◌, ◌%◌, ◌^◌, Bool, true, false, ◌&&◌, not, Option, none, some, List, [], ◌∷◌, ltb,
  ◌==◌, if◌then◌else◌, length, get_elem?,
}
use bakpia_run.Text.{Text}
use bakpia_run.Config.{Config, get_worker_socket_path}
use bakpia_run.Worker
use bakpia_run.Worker.{Worker, Os}

-- `current_index` is a `usize` of 64 bits.
pub record WorkerPool : Type 0 where
  pub workers : List Worker
  pub config : Config
  pub current_index : ℕ

-- The workers with the indices from `i` on, `count` of them.
pub make_workers : Config → ℕ → ℕ → List Worker
make_workers c i zero = []
make_workers c i (suc count) =
    Worker.new i (get_worker_socket_path c i) c.php.connection_pool_size
    ∷ make_workers c (suc i) count

pub new : ℕ → Config → WorkerPool
new worker_count c = record {
  workers = make_workers c 0 worker_count;
  config = c;
  current_index = 0;
}

-- The first worker that does not start ends the loop; those behind it are left as they are. The
-- operating system answers each worker for itself.
pub start_from : (ℕ → Os) → Config → ℕ → List Worker → List Worker × Option Text
start_from os c i [] = ([], none)
start_from os c i (w ∷ ws) =
    let started = Worker.start (os i) c w in
    let (rest, error) = start_from os c (suc i) ws in
    elim started.error [
      | some e ↦ (started.worker ∷ ws, some e)
      | none ↦ (started.worker ∷ rest, error)
    ]

pub start_all : (ℕ → Os) → Config → WorkerPool → WorkerPool × Option Text
start_all os c p =
    let (workers, error) = start_from os c 0 p.workers in
    (record p { workers = workers; config = c }, error)

stop_each : List Worker → List Worker
stop_each [] = []
stop_each (w ∷ ws) = Worker.stop w ∷ stop_each ws

pub stop_all : WorkerPool → WorkerPool
stop_all p = record p { workers = stop_each p.workers }

-- New workers when their number changes.
pub resize : Config → List Worker → List Worker
resize c ws = if c.php.worker_count == length ws then ws else make_workers c 0 c.php.worker_count

-- The rolling restart.
pub reload : (ℕ → Os) → Config → WorkerPool → WorkerPool × Option Text
reload os c p =
    let stopped = stop_all (record p { config = c }) in
    let kept = resize c stopped.workers in
    let (workers, error) = start_from os c 0 kept in (record stopped { workers = workers }, error)

-- `fetch_add(1)`.
abbrev pub fetch_add : ℕ → ℕ
fetch_add index = (index + 1) % 2 ^ 64

-- `try_lock` succeeds and the worker does not drain.
abbrev pub is_free : Bool → Option Worker → Bool
is_free taken none = false
is_free taken (some w) = not taken && not w.draining

-- The attempts of `get_next_worker`, numbered by `attempt`; `locked` says of each attempt which
-- workers somebody else has locked.
unfoldable pub attempts : (ℕ → ℕ → Bool) → List Worker → ℕ → ℕ → ℕ → ℕ × Bool × ℕ
attempts locked ws zero attempt current = (0, false, current)
attempts locked ws (suc left) attempt current =
    let index = current % length ws in
    let later = attempts locked ws left (suc attempt) (fetch_add current) in
    if is_free (locked attempt index) (get_elem? ws index)
    then (index, true, fetch_add current)
    else later

-- The index of the worker chosen, and the pool afterwards. With no workers the code panics: the
-- remainder by zero.
unfoldable pub get_next_worker : (ℕ → ℕ → Bool) → WorkerPool → Option ℕ × WorkerPool
get_next_worker locked p =
    let len = length p.workers in
    let (index, found, current) = attempts locked p.workers len 0 p.current_index in
    if len == 0
    then (none, p)
    else if found
    then (some index, record p { current_index = current })
    else (some (current % len), record p { current_index = fetch_add current })
