-- ===== src/Metrics.antt =====
-- src-server/src/metrics.rs: the counters of the server. The time is an argument, in seconds.
pub mod Counting
use bakpia_run.Prelude.{
  ℕ, zero, suc, ◌+◌, ◌-◌, ◌%◌, ◌^◌, Bool, Option, none, some, List, [], ◌∷◌, ltb, if◌then◌else◌,
  length, get_elem?, set, replicate,
}

pub record Metrics : Type 0 where
  pub total_requests : ℕ
  pub total_errors : ℕ
  pub start_time : ℕ
  pub requests_per_worker : List ℕ
  pub memory_per_worker : List ℕ

abbrev pub new : ℕ → ℕ → Metrics
new now worker_count = record {
  total_requests = 0;
  total_errors = 0;
  start_time = now;
  requests_per_worker = replicate worker_count 0;
  memory_per_worker = replicate worker_count 0;
}

-- `counters[i] += 1`
abbrev pub increment : List ℕ → ℕ → List ℕ
increment [] i = []
increment (n ∷ ns) zero = ((n + 1) % 2 ^ 64) ∷ ns
increment (n ∷ ns) (suc i) = n ∷ increment ns i

-- Both vectors have the length that `new` gave them.
unfoldable pub record_request : ℕ → ℕ → Metrics → Metrics
record_request worker_index memory m =
    let total : ℕ = (m.total_requests + 1) % 2 ^ 64 in
    if ltb worker_index (length m.requests_per_worker)
    then record m {
      total_requests = total;
      requests_per_worker = increment m.requests_per_worker worker_index;
      memory_per_worker = set m.memory_per_worker worker_index memory;
    }
    else record m { total_requests = total }

unfoldable pub record_error : Metrics → Metrics
record_error m = record m { total_errors = (m.total_errors + 1) % 2 ^ 64 }

unfoldable pub uptime_seconds : ℕ → Metrics → ℕ
uptime_seconds now m = now - m.start_time
