-- ===== src/Config.antt =====
-- src-server/src/config.rs: the configuration, its defaults, the overrides from the environment and
-- its validation. Reading and parsing the YAML file is left out.
pub mod Checks
pub mod Sockets
pub mod Sections
use bakpia_run.Prelude.{
  ℕ, ◌^◌, Bool, true, false, Option, none, some, List, [], ◌∷◌, ◌++◌, ltb, ◌==◌, if◌then◌else◌,
  ◌>>=◌,
}
use bakpia_run.Text.{Text, codes}
use bakpia_run.Text.Decimal.{parse_uint, decimal}

pub record AntiOomConfig : Type 0 where
  pub enabled : Bool
  pub check_interval_ms : ℕ
  pub worker_threshold_percent : ℕ
  pub cgroup_threshold_percent : ℕ
  pub cgroup_memory_current_path : Text
  pub cgroup_memory_max_path : Text

unfoldable pub default_anti_oom : AntiOomConfig
default_anti_oom = record {
  enabled = true;
  check_interval_ms = 1000;
  worker_threshold_percent = 80;
  cgroup_threshold_percent = 85;
  cgroup_memory_current_path = codes "/sys/fs/cgroup/memory.current";
  cgroup_memory_max_path = codes "/sys/fs/cgroup/memory.max";
}

pub record PoolConfig : Type 0 where
  pub name : Text
  pub worker_count : ℕ
  pub memory_limit_mb : Option ℕ
  pub max_requests : Option ℕ
  pub timeout_ms : Option ℕ
  pub patterns : List Text
  pub headers : List (Text × Text)

pub record QueueConfig : Type 0 where
  pub enabled : Bool
  pub max_jobs : ℕ
  pub poll_interval_ms : ℕ

pub record SecurityConfig : Type 0 where
  pub x_frame_options : Option Text
  pub x_content_type_options : Bool
  pub x_xss_protection : Bool
  pub content_security_policy : Option Text
  pub strict_transport_security : Option Text
  pub referrer_policy : Option Text
  pub permissions_policy : Option Text

unfoldable pub default_security : SecurityConfig
default_security = record {
  x_frame_options = some (codes "DENY");
  x_content_type_options = true;
  x_xss_protection = true;
  content_security_policy = none;
  strict_transport_security = none;
  referrer_policy = some (codes "strict-origin-when-cross-origin");
  permissions_policy = none;
}

pub record RateLimitConfig : Type 0 where
  pub enabled : Bool
  pub requests_per_minute : ℕ
  pub burst_size : ℕ

unfoldable pub default_rate_limit : RateLimitConfig
default_rate_limit = record { enabled = false; requests_per_minute = 60; burst_size = 10 }

pub record CompressionConfig : Type 0 where
  pub enabled : Bool
  pub min_size_bytes : ℕ
  pub level : ℕ

unfoldable pub default_compression : CompressionConfig
default_compression = record { enabled = true; min_size_bytes = 1024; level = 6 }

pub record TlsConfig : Type 0 where
  pub enabled : Bool
  pub cert_path : Text
  pub key_path : Text

pub record ServerConfig : Type 0 where
  pub host : Text
  pub port : ℕ
  pub https_port : ℕ
  pub tls : TlsConfig
  pub admin_token : Option Text
  pub max_body_size_mb : ℕ
  pub static_cache_max_age : ℕ

pub record PhpConfig : Type 0 where
  pub binary_path : Text
  pub docroot : Text
  pub worker_path : Text
  pub worker_count : ℕ
  pub memory_limit_mb : ℕ
  pub max_requests : ℕ
  pub timeout_ms : ℕ
  pub connection_pool_size : ℕ
  pub upload_tmp_dir : Text
  pub max_payload_mb : ℕ
  pub worker_startup_delay_ms : ℕ
  pub rolling_restart_delay_ms : ℕ
  pub default_content_type : Text
  pub disable_functions : Text
  pub open_basedir_docroot : Bool

pub record LoggingConfig : Type 0 where
  pub access_log_enabled : Bool
  pub access_log : Text
  pub error_log_enabled : Bool
  pub error_log : Text

pub record DbTargetConfig : Type 0 where
  pub host : Text
  pub port : ℕ
  pub username : Text
  pub password : Text
  pub database : Text

pub record DbPoolConfig : Type 0 where
  pub min_connections : ℕ
  pub max_connections : ℕ

pub record DbProxyConfig : Type 0 where
  pub enabled : Bool
  pub listen_address : Text
  pub listen_port : ℕ
  pub spoof_version : Text
  pub target : DbTargetConfig
  pub pool : DbPoolConfig

pub record Config : Type 0 where
  pub config_path : Text
  pub server : ServerConfig
  pub php : PhpConfig
  pub socket_directory : Text
  pub logging : LoggingConfig
  pub rate_limit : RateLimitConfig
  pub security : SecurityConfig
  pub compression : CompressionConfig
  pub anti_oom : AntiOomConfig
  pub pools : List PoolConfig
  pub queue : QueueConfig
  pub db_proxy : DbProxyConfig

-- The process environment: the value of a variable that is set and is text.
abbrev pub Env : Type 0
Env = Text → Option Text

abbrev pub or_else {ℓ} : {A : Type ℓ} → Option A → A → A
or_else none a = a
or_else (some b) a = b

-- A number of fewer than `bound` from a variable, where it is set and parses.
env_number : ℕ → Env → Text → Option ℕ
env_number bound env var = do s ← env var; parse_uint bound s

unfoldable pub apply_env_overrides : Env → Config → Config
unfolding env_number
apply_env_overrides env c = record c {
  server = record server {
    host = or_else (env (codes "BAKPIARUN_HOST")) server.host;
    port = or_else (env_number (2 ^ 16) env (codes "BAKPIARUN_PORT")) server.port;
  };
  php = record php {
    docroot = or_else (env (codes "BAKPIARUN_DOCROOT")) php.docroot;
    binary_path = or_else (env (codes "BAKPIARUN_PHP_BINARY")) php.binary_path;
    worker_count =
        or_else (env_number (2 ^ 64) env (codes "BAKPIARUN_WORKER_COUNT")) php.worker_count;
    memory_limit_mb =
        or_else (env_number (2 ^ 64) env (codes "BAKPIARUN_MEMORY_LIMIT_MB")) php.memory_limit_mb;
  };
}
  where
    open c use {server, php}

unfoldable pub get_worker_socket_path : Config → ℕ → Text
get_worker_socket_path c worker_index =
    c.socket_directory ++ (codes "/worker_" ++ (decimal worker_index ++ codes ".sock"))

pub data ConfigError : Type 0 where
  port_zero no_workers no_memory no_requests timeout_zero timeout_small : ConfigError

unfoldable pub validate : Config → Option ConfigError
validate c =
    if c.server.port == 0
    then some port_zero
    else if c.php.worker_count == 0
    then some no_workers
    else if c.php.memory_limit_mb == 0
    then some no_memory
    else if c.php.max_requests == 0
    then some no_requests
    else if c.php.timeout_ms == 0
    then some timeout_zero
    else if ltb c.php.timeout_ms 1000
    then some timeout_small
    else none
