-- ===== src/Config/Sections.antt =====
-- src-server/src/config.rs: the fields that a section of the file may leave out, with the defaults that
-- serde then takes. A section here is what the file gives.
use bakpia_run.Prelude.{ℕ, Bool, true, false, Option}
use bakpia_run.Text.{Text, codes}
use bakpia_run.Config.{
  QueueConfig, ServerConfig, TlsConfig, PhpConfig, DbProxyConfig, DbTargetConfig, DbPoolConfig,
  or_else,
}

abbrev pub default_true : Bool
default_true = true

abbrev pub default_queue_max_jobs : ℕ
default_queue_max_jobs = 10000

abbrev pub default_queue_poll_interval_ms : ℕ
default_queue_poll_interval_ms = 500

pub record QueueSection : Type 0 where
  pub enabled : Option Bool
  pub max_jobs : Option ℕ
  pub poll_interval_ms : Option ℕ

unfoldable pub queue_of : QueueSection → QueueConfig
queue_of s = record {
  enabled = or_else s.enabled default_true;
  max_jobs = or_else s.max_jobs default_queue_max_jobs;
  poll_interval_ms = or_else s.poll_interval_ms default_queue_poll_interval_ms;
}

abbrev pub default_max_body_size_mb : ℕ
default_max_body_size_mb = 50

abbrev pub default_static_cache_max_age : ℕ
default_static_cache_max_age = 31536000

pub record ServerSection : Type 0 where
  pub host : Text
  pub port : ℕ
  pub https_port : ℕ
  pub tls : TlsConfig
  pub admin_token : Option Text
  pub max_body_size_mb : Option ℕ
  pub static_cache_max_age : Option ℕ

unfoldable pub server_of : ServerSection → ServerConfig
server_of s = record {
  host = s.host;
  port = s.port;
  https_port = s.https_port;
  tls = s.tls;
  admin_token = s.admin_token;
  max_body_size_mb = or_else s.max_body_size_mb default_max_body_size_mb;
  static_cache_max_age = or_else s.static_cache_max_age default_static_cache_max_age;
}

abbrev pub default_php_binary : Text
default_php_binary = codes "php"

abbrev pub default_upload_tmp_dir : Text
default_upload_tmp_dir = codes "/tmp/bakpiarun_uploads"

abbrev pub default_max_payload_mb : ℕ
default_max_payload_mb = 100

abbrev pub default_worker_startup_delay_ms : ℕ
default_worker_startup_delay_ms = 500

abbrev pub default_rolling_restart_delay_ms : ℕ
default_rolling_restart_delay_ms = 200

abbrev pub default_content_type : Text
default_content_type = codes "text/html; charset=utf-8"

abbrev pub default_disable_functions : Text
default_disable_functions = codes "exec,passthru,shell_exec,system,proc_open,popen,pcntl_exec"

pub record PhpSection : Type 0 where
  pub binary_path : Option Text
  pub docroot : Text
  pub worker_path : Text
  pub worker_count : ℕ
  pub memory_limit_mb : ℕ
  pub max_requests : ℕ
  pub timeout_ms : ℕ
  pub connection_pool_size : ℕ
  pub upload_tmp_dir : Option Text
  pub max_payload_mb : Option ℕ
  pub worker_startup_delay_ms : Option ℕ
  pub rolling_restart_delay_ms : Option ℕ
  pub default_content_type : Option Text
  pub disable_functions : Option Text
  pub open_basedir_docroot : Option Bool

unfoldable pub php_of : PhpSection → PhpConfig
php_of s = record {
  binary_path = or_else s.binary_path default_php_binary;
  docroot = s.docroot;
  worker_path = s.worker_path;
  worker_count = s.worker_count;
  memory_limit_mb = s.memory_limit_mb;
  max_requests = s.max_requests;
  timeout_ms = s.timeout_ms;
  connection_pool_size = s.connection_pool_size;
  upload_tmp_dir = or_else s.upload_tmp_dir default_upload_tmp_dir;
  max_payload_mb = or_else s.max_payload_mb default_max_payload_mb;
  worker_startup_delay_ms = or_else s.worker_startup_delay_ms default_worker_startup_delay_ms;
  rolling_restart_delay_ms = or_else s.rolling_restart_delay_ms default_rolling_restart_delay_ms;
  default_content_type = or_else s.default_content_type default_content_type;
  disable_functions = or_else s.disable_functions default_disable_functions;
  open_basedir_docroot = or_else s.open_basedir_docroot default_true;
}

abbrev pub default_listen_address : Text
default_listen_address = codes "127.0.0.1"

abbrev pub default_db_proxy_port : ℕ
default_db_proxy_port = 3307

abbrev pub default_spoof_version : Text
default_spoof_version = codes "8.0.33-bakpiarun-proxy"

abbrev pub default_min_conn : ℕ
default_min_conn = 2

abbrev pub default_max_conn : ℕ
default_max_conn = 20

pub record DbPoolSection : Type 0 where
  pub min_connections : Option ℕ
  pub max_connections : Option ℕ

unfoldable pub db_pool_of : DbPoolSection → DbPoolConfig
db_pool_of s = record {
  min_connections = or_else s.min_connections default_min_conn;
  max_connections = or_else s.max_connections default_max_conn;
}

pub record DbProxySection : Type 0 where
  pub enabled : Option Bool
  pub listen_address : Option Text
  pub listen_port : Option ℕ
  pub spoof_version : Option Text
  pub target : DbTargetConfig
  pub pool : DbPoolSection

unfoldable pub db_proxy_of : DbProxySection → DbProxyConfig
unfolding db_pool_of
db_proxy_of s = record {
  enabled = or_else s.enabled false;
  listen_address = or_else s.listen_address default_listen_address;
  listen_port = or_else s.listen_port default_db_proxy_port;
  spoof_version = or_else s.spoof_version default_spoof_version;
  target = s.target;
  pool = db_pool_of s.pool;
}
