-- ===== src/AntiOom.antt =====
-- src-server/src/anti_oom.rs: the memory of processes and of the container, as the kernel reports it
-- in files, and one round of the monitor that recycles workers. What a path reads as is a parameter,
-- `none` where it cannot be read.
pub mod Round
pub mod Heaviest
use bakpia_run.Prelude.{
  ℕ, zero, suc, ◌+◌, ◌-◌, ◌*◌, ◌%◌, ◌^◌, max, Bool, true, false, ◌&&◌, Option, none, some, List, [],
  ◌∷◌, ◌++◌, ltb, leb, ◌==◌, if◌then◌else◌, ◌>>=◌,
}
use bakpia_run.Float.{F64}
use bakpia_run.Text.{Text, codes, text_eq, trim}
use bakpia_run.Text.Decimal.{decimal, parse_uint}
use bakpia_run.Text.Splitting.{first_word, lines, strip_prefix}
use bakpia_run.Config.{Config, or_else}
use bakpia_run.Worker.{
  Worker, Os, ProcMemoryStatus, Reason, refresh_proc_memory, should_restart, graceful_recycle,
}
use bakpia_run.WorkerPool.{WorkerPool}

abbrev pub Reader : Type 0
Reader = Text → Option Text

-- A text without a word has no number either. The product wraps.
unfoldable pub parse_kb_line : Text → ℕ
unfolding parse_uint first_word trim
parse_kb_line raw = or_else (parse_uint (2 ^ 64) (first_word (trim raw))) 0 * 1024 % 2 ^ 64

-- What a line says: the first of the names that it begins with.
status_line : ProcMemoryStatus → Text → ProcMemoryStatus
unfolding strip_prefix
status_line m line = elim (strip_prefix line (codes "VmRSS:")) [
  | some v ↦ record m { vm_rss_bytes = parse_kb_line v }
  | none ↦ elim (strip_prefix line (codes "VmHWM:")) [
    | some v ↦ record m { vm_hwm_bytes = parse_kb_line v }
    | none ↦ elim (strip_prefix line (codes "VmSize:")) [
      | some v ↦ record m { vm_size_bytes = parse_kb_line v }
      | none ↦ m
    ]
  ]
]

status_lines : ProcMemoryStatus → List Text → ProcMemoryStatus
unfolding status_line
status_lines m [] = m
status_lines m (l ∷ ls) = status_lines (status_line m l) ls

unfoldable pub read_process_proc_status : Reader → ℕ → Option ProcMemoryStatus
unfolding status_lines
read_process_proc_status read pid = do
  content ← read (codes "/proc/" ++ (decimal pid ++ codes "/status"))
  some (
      status_lines (record { pid = pid; vm_rss_bytes = 0; vm_hwm_bytes = 0; vm_size_bytes = 0 })
        (lines content))

first_total : List Text → Option ℕ
unfolding strip_prefix
first_total [] = none
first_total (l ∷ ls) =
    let rest = first_total ls in
    elim (strip_prefix l (codes "MemTotal:")) [ some v ↦ some (parse_kb_line v) | none ↦ rest ]

unfoldable pub read_host_memtotal_bytes : Reader → Option ℕ
unfolding first_total
read_host_memtotal_bytes read = do
  content ← read (codes "/proc/meminfo")
  first_total (lines content)

-- The last lines with the total and with the available memory.
meminfo : ℕ × ℕ → List Text → ℕ × ℕ
unfolding strip_prefix
meminfo (total, available) [] = (total, available)
meminfo (total, available) (l ∷ ls) = elim (strip_prefix l (codes "MemTotal:")) [
  | some v ↦ meminfo (parse_kb_line v, available) ls
  | none ↦ elim (strip_prefix l (codes "MemAvailable:")) [
    | some v ↦ meminfo (total, parse_kb_line v) ls
    | none ↦ meminfo (total, available) ls
  ]
]

unfoldable pub read_host_meminfo_used_and_total : Reader → Option (ℕ × ℕ)
unfolding meminfo
read_host_meminfo_used_and_total read = do
  content ← read (codes "/proc/meminfo")
  (total, available) ← some (meminfo (0, 0) (lines content))
  if ltb 0 total then some (total - available, total) else none

pub record CgroupMemoryStatus (F : Type 0) : Type 0 where
  pub source : Text
  pub current_bytes : ℕ
  pub max_bytes : ℕ
  pub usage_percent : F

-- `s.trim().parse::<u64>()`
abbrev pub number : Text → Option ℕ
number s = parse_uint (2 ^ 64) (trim s)

-- The limit of cgroups v2: the memory of the host where there is none.
v2_max : Reader → Text → ℕ
unfolding trim text_eq
v2_max read max_path =
    let raw = or_else (read max_path) (codes "max") in
    if text_eq (trim raw) (codes "max")
    then or_else (read_host_memtotal_bytes read) 0
    else or_else (number raw) 0

-- The limit of cgroups v1: the memory of the host where it cannot be read, or is 2^60 or more.
v1_max : Reader → ℕ
v1_max read =
    let host = or_else (read_host_memtotal_bytes read) 0 in
    elim (read (codes "/sys/fs/cgroup/memory/memory.limit_in_bytes") >>= number) [
      | none ↦ host
      | some m ↦ if ltb m (2 ^ 60) then m else host
    ]

module _ {F : Type 0} (f : F64 F) where
  abbrev measured : Text → ℕ → ℕ → CgroupMemoryStatus F
  measured source current limit = record {
    source = source;
    current_bytes = current;
    max_bytes = limit;
    usage_percent =
        if ltb 0 limit
        then f.mul (f.div (f.of_nat current) (f.of_nat limit)) (f.of_nat 100)
        else f.of_nat 0;
  }

  from_host : Reader → CgroupMemoryStatus F
  from_host read = elim (read_host_meminfo_used_and_total read) [
    | some (used, total) ↦ measured (codes "proc_meminfo") used total
    | none ↦ measured (codes "unavailable") 0 0
  ]

  from_v1 : Reader → CgroupMemoryStatus F
  unfolding from_host v1_max
  from_v1 read = elim (read (codes "/sys/fs/cgroup/memory/memory.usage_in_bytes") >>= number) [
    | some current ↦ measured (codes "cgroup_v1") current (v1_max read)
    | none ↦ from_host read
  ]

  unfoldable pub read_cgroup_v2_memory : Reader → Text → Text → CgroupMemoryStatus F
  unfolding from_v1 v2_max
  read_cgroup_v2_memory read current_path max_path = elim (read current_path >>= number) [
    | some current ↦ measured (codes "cgroup_v2") current (v2_max read max_path)
    | none ↦ from_v1 read
  ]

  -- The container is short of memory.
  unfoldable pub cgroup_pressure : Reader → Config → Bool
  cgroup_pressure read c =
      let m =
        read_cgroup_v2_memory read c.anti_oom.cgroup_memory_current_path
          c.anti_oom.cgroup_memory_max_path in
      ltb 0 m.max_bytes && f.ge m.usage_percent (f.of_nat c.anti_oom.cgroup_threshold_percent)

-- A worker that may be recycled for the container: the numbers of its pool and of itself, its
-- pool's configuration, and its resident memory.
pub record Candidate : Type 0 where
  pub pool : ℕ
  pub index : ℕ
  pub config : Config
  pub rss : ℕ

-- A worker whose memory was read anew: whether it is to be recycled, and as what it goes on.
unfoldable pub inspect : Os → Config → Worker → Worker × Bool
inspect os c w =
    let refreshed = refresh_proc_memory os w in
    elim (should_restart c refreshed) [
      | some reason ↦ ((graceful_recycle os c refreshed).worker, true)
      | none ↦ (refreshed, false)
    ]

-- The heavier of the candidate so far and a worker that is not recycled.
unfoldable pub heavier : Bool → Option Candidate → Candidate → Option Candidate
heavier pressure best new =
    if pressure && ltb 0 new.rss
    then elim best [ none ↦ some new | some b ↦ if leb new.rss b.rss then some b else some new ]
    else best

unfoldable pub inspect_workers :
    (ℕ → Os)
    → Bool
    → ℕ
    → Config
    → ℕ
    → List Worker
    → Option Candidate
    → List Worker × Option Candidate
inspect_workers os pressure pool c i [] best = ([], best)
inspect_workers os pressure pool c i (w ∷ ws) best =
    let (after, recycled) = inspect (os i) c w in
    let new : Candidate = record { pool = pool; index = i; config = c; rss = after.rss_bytes } in
    let next = if recycled then best else heavier pressure best new in
    let (rest, last) = inspect_workers os pressure pool c (suc i) ws next in (after ∷ rest, last)

unfoldable pub inspect_pools :
    (ℕ → ℕ → Os)
    → Bool
    → ℕ
    → List (Text × WorkerPool)
    → Option Candidate
    → List (Text × WorkerPool) × Option Candidate
unfolding inspect_workers
inspect_pools os pressure k [] best = ([], best)
inspect_pools os pressure k ((name, p) ∷ ps) best =
    let (workers, next) = inspect_workers (os k) pressure k p.config 0 p.workers best in
    let (rest, last) = inspect_pools os pressure (suc k) ps next in
    ((name, record p { workers = workers }) ∷ rest, last)

abbrev pub modify_at {ℓ} : {A : Type ℓ} → ℕ → (A → A) → List A → List A
modify_at n f [] = []
modify_at zero f (x ∷ xs) = f x ∷ xs
modify_at (suc n) f (x ∷ xs) = x ∷ modify_at n f xs

unfoldable pub recycle_candidate :
    Os → Candidate → List (Text × WorkerPool) → List (Text × WorkerPool)
recycle_candidate os b pools =
    modify_at b.pool
      (λ (name, p). (
        name,
        record p {
          workers = modify_at b.index (λ w. (graceful_recycle os b.config w).worker) p.workers;
        },
      ))
      pools

-- What one round of the monitor makes of the pools; `os` answers for each worker of each pool, and
-- `last_os` for the recycling at the end.
module _ {F : Type 0} (f : F64 F) where
  unfoldable pub monitor_round :
      Reader → (ℕ → ℕ → Os) → Os → Config → List (Text × WorkerPool) → List (Text × WorkerPool)
  unfolding inspect_pools recycle_candidate
  monitor_round read os last_os c pools =
      let (inspected, heaviest) = inspect_pools os (cgroup_pressure f read c) 0 pools none in
      if c.anti_oom.enabled
      then elim heaviest [ none ↦ inspected | some b ↦ recycle_candidate last_os b inspected ]
      else pools

-- The sleep before a round.
unfoldable pub interval_ms : Config → ℕ
interval_ms c = max c.anti_oom.check_interval_ms 200
