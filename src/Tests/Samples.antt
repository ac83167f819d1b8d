-- ===== src/Tests/Samples.antt =====
-- The data of the tests: a configuration with two pools, workers, what the system answers them, a
-- queue of two jobs, and the frames of a client.
use bakpia_run.Prelude.{
  if◌then◌else◌, ℕ, Bool, true, false, Option, none, some, List, [], ◌∷◌, leb, ◌+◌, ◌-◌, ◌*◌, ◌/◌,
  min,
}
use bakpia_run.Float.{F64}
use bakpia_run.Text.{text_eq, Text, codes}
use bakpia_run.Config.{Config, PoolConfig}
use bakpia_run.Worker.{Worker, Child, Os, child, running}
use bakpia_run.WorkerPool.{WorkerPool}
use bakpia_run.Queue.{Job, JobQueue, pending, Answer, ok}
use bakpia_run.DbProxy.Packet.Framing.{Frame}
use bakpia_run.DbProxy.Session.{Reply, refused, ConnectionState}

abbrev pub web_pool : PoolConfig
web_pool = record {
  name = codes "web";
  worker_count = 2;
  memory_limit_mb = none;
  max_requests = none;
  timeout_ms = none;
  patterns = codes "/*" ∷ [];
  headers = [];
}

abbrev pub api_pool : PoolConfig
api_pool = record {
  name = codes "api";
  worker_count = 3;
  memory_limit_mb = some 64;
  max_requests = none;
  timeout_ms = none;
  patterns = codes "/api/*" ∷ [];
  headers = (codes "x-pool", codes "api") ∷ [];
}

abbrev pub sample_config : Config
sample_config = record {
  config_path = codes "config/bakpiarun.yaml";
  server = record {
    host = codes "127.0.0.1";
    port = 8080;
    https_port = 8443;
    tls = record { enabled = false; cert_path = []; key_path = [] };
    admin_token = none;
    max_body_size_mb = 10;
    static_cache_max_age = 3600;
  };
  php = record {
    binary_path = codes "php";
    docroot = codes "public";
    worker_path = codes "worker.php";
    worker_count = 2;
    memory_limit_mb = 128;
    max_requests = 1000;
    timeout_ms = 30000;
    connection_pool_size = 4;
    upload_tmp_dir = codes "/tmp";
    max_payload_mb = 10;
    worker_startup_delay_ms = 50;
    rolling_restart_delay_ms = 100;
    default_content_type = codes "text/html";
    disable_functions = [];
    open_basedir_docroot = true;
  };
  socket_directory = codes "/tmp/s";
  logging = record {
    access_log_enabled = false;
    access_log = [];
    error_log_enabled = false;
    error_log = [];
  };
  rate_limit = record { enabled = false; requests_per_minute = 60; burst_size = 10 };
  security = record {
    x_frame_options = none;
    x_content_type_options = true;
    x_xss_protection = true;
    content_security_policy = none;
    strict_transport_security = none;
    referrer_policy = none;
    permissions_policy = none;
  };
  compression = record { enabled = true; min_size_bytes = 1024; level = 6 };
  anti_oom = record {
    enabled = true;
    check_interval_ms = 1000;
    worker_threshold_percent = 80;
    cgroup_threshold_percent = 85;
    cgroup_memory_current_path = [];
    cgroup_memory_max_path = [];
  };
  pools = api_pool ∷ web_pool ∷ [];
  queue = record { enabled = true; max_jobs = 100; poll_interval_ms = 1000 };
  db_proxy = record {
    enabled = false;
    listen_address = codes "127.0.0.1";
    listen_port = 3307;
    spoof_version = codes "8.0.36";
    target = record {
      host = codes "127.0.0.1";
      port = 3306;
      username = codes "root";
      password = [];
      database = codes "test";
    };
    pool = record { min_connections = 1; max_connections = 10 };
  };
}

-- An environment that sets the port.
abbrev pub port_only : Text → Option Text
port_only var = if text_eq var (codes "BAKPIARUN_PORT") then some (codes "9000") else none

-- Every pool starts; a pool is its number of workers.
abbrev pub start_pool : Config → PoolConfig → Option ℕ
start_pool c p = some p.worker_count

abbrev pub sample_child : Child
sample_child = record { id = some 41 }

-- A spawn that works, with a socket after twenty milliseconds.
abbrev pub good_os : Os
good_os = record {
  spawn = child sample_child;
  socket_exists = λ t. leb 20 t;
  proc_status = λ pid. none;
  try_wait = running;
}

abbrev pub busy_worker : Worker
busy_worker = record {
  index = 0;
  process = some (record { id = some 40 });
  pid = some 40;
  socket_path = codes "/tmp/s/worker_0.sock";
  requests_handled = 7;
  last_memory = 1000;
  last_peak = 2000;
  rss_bytes = 3000;
  hwm_bytes = 4000;
  active_requests = 1;
  draining = false;
  recycle_count = 2;
  connection_pool = [];
  pool_size = 4;
}

abbrev pub two_workers : WorkerPool
two_workers = record {
  workers = busy_worker ∷ record busy_worker { index = 1 } ∷ [];
  config = sample_config;
  current_index = 5;
}

abbrev pub nobody_locked : ℕ → ℕ → Bool
nobody_locked attempt k = false

abbrev pub mail_job : Job ℕ
mail_job = record {
  id = codes "j1";
  task = codes "mail";
  payload = 3;
  status = pending;
  created_at = codes "t0";
  completed_at = none;
  result = none;
}

abbrev pub two_jobs : JobQueue ℕ
two_jobs = record {
  jobs =
      (codes "j1", mail_job)
      ∷ (codes "j2", record mail_job { id = codes "j2"; task = codes "x" })
      ∷ [];
  queue = codes "j1" ∷ codes "j2" ∷ [];
}

-- One task is known.
abbrev pub sample_handlers : List (Text × (ℕ → Answer ℕ))
sample_handlers = (codes "mail", λ n. ok n) ∷ []

abbrev pub no_float : ℕ → Text
no_float bits = []

abbrev pub refusing : List Text → Text → Reply
refusing sent query = refused (codes "gone")

abbrev pub auth_frame : Frame
auth_frame = record { seq_id = 1; payload = 5 ∷ [] }

-- A query, and the end of the connection.
abbrev pub two_frames : List Frame
two_frames =
    record { seq_id = 0; payload = 3 ∷ codes "SELECT 1" }
    ∷ record { seq_id = 0; payload = 1 ∷ [] }
    ∷ []

abbrev pub one_statement : ConnectionState
one_statement = record { statements = (1, codes "SELECT ?") ∷ []; next_stmt_id = 2 }

-- Whole numbers in place of `f64`.
abbrev pub whole : F64 ℕ
whole = record {
  of_nat = λ n. n;
  secs = λ ns. ns / 1000000000;
  add = λ a b. a + b;
  sub = λ a b. a - b;
  mul = λ a b. a * b;
  div = λ a b. a / b;
  fmin = λ a b. min a b;
  ge = λ a b. leb b a;
  to_u32 = λ a. a;
  ceil_u64 = λ a. a;
}
