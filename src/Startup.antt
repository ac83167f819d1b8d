-- ===== src/Startup.antt =====
-- src-server/src/main.rs: how the process starts and ends. What the host answers is an argument.
pub mod Outcome
pub mod Guarding
use bakpia_run.Prelude.{
  ℕ, ◌-◌, ◌^◌, Bool, true, false, ◌&&◌, not, Option, none, some, List, [], ◌∷◌, ◌++◌, if◌then◌else◌,
  min, max, map, get_elem?,
}
use bakpia_run.Text.{Text, codes}
use bakpia_run.Text.Decimal.{address}
use bakpia_run.Config.{Config, PoolConfig, CompressionConfig, Env, apply_env_overrides}
use bakpia_run.Http.{Headers}
use bakpia_run.AdminAuth.{admin_auth}
use bakpia_run.Routing
use bakpia_run.Routing.{PoolManager, Made, made, panicked}
use bakpia_run.Worker.{Os}
use bakpia_run.WorkerPool.{WorkerPool}
use bakpia_run.App.{AppState}
use bakpia_run.App.Reload.{Loaded, loaded, unreadable}
use bakpia_run.Server.{start_pool, start_state, stop_all}

-- The answers to `TcpListener::bind`, to `create_dir_all`, to the parsing of a socket address, and to
-- the loading of a certificate with its key; `binds` and `creates_dir` are whether they succeed.
pub record Host : Type 0 where
  pub binds : Text → Bool
  pub creates_dir : Text → Bool
  pub parses_address : Text → Bool
  pub loads_tls : Text → Text → Bool

-- How the start ends: with an exit code, or a panic of `main`, and with the pools or the state that
-- has been built by then; or it serves, with HTTPS or without.
pub data Boot (F V : Type 0) : Type 0 where
  exits : ℕ → Boot F V
  panics : Boot F V
  panics_with : PoolManager WorkerPool → Boot F V
  panics_started : AppState F V → Boot F V
  serves : Bool → AppState F V → Boot F V

-- The listener for HTTPS, where it is enabled.
abbrev pub binds_https : Host → Config → Bool
binds_https h c =
    if c.server.tls.enabled then h.binds (address c.server.host c.server.https_port) else true

-- The set-up of HTTPS, whose failures panic.
abbrev pub sets_up_https : Host → Config → Bool
sets_up_https h c =
    if c.server.tls.enabled
    then h.parses_address (address c.server.host c.server.https_port)
      && h.loads_tls c.server.tls.cert_path c.server.tls.key_path
    else true

module _ {F V : Type 0} where
  -- From the end of `PoolManager::new` on.
  unfoldable pub after_pools : Host → Config → ℕ → Made WorkerPool → Boot F V
  after_pools h c now (panicked m) = panics_with m
  after_pools h c now (made m) =
      let st = start_state m now c in
      if sets_up_https h c then serves c.server.tls.enabled st else panics_started st

  -- The start of a configuration, with the overrides of the environment in it.
  unfoldable pub boot_with : Host → Config → (PoolConfig → ℕ → Os) → ℕ → Boot F V
  boot_with h c os now =
      if not (h.binds (address c.server.host c.server.port))
      then exits 1
      else if not (binds_https h c)
      then exits 1
      else if not (h.creates_dir c.socket_directory)
      then panics
      else after_pools h c now (Routing.make h.creates_dir (start_pool os) c)

  unfoldable pub boot : Host → Loaded → Env → (PoolConfig → ℕ → Os) → ℕ → Boot F V
  boot h (unreadable e) env os now = exits 1
  boot h (loaded c) env os now = boot_with h (apply_env_overrides env c) os now

-- The variable BAKPIA_ADMIN_TOKEN after the start: one that is set stays, also when it is empty.
unfoldable pub token_env : Env → Config → Option Text
token_env env c = elim (env (codes "BAKPIA_ADMIN_TOKEN")) [
  | some t ↦ some t
  | none ↦ c.server.admin_token
]

-- The middleware of the admin routes in a server that was started so.
unfoldable pub admin_allows : Env → Config → Headers → Bool
admin_allows env c headers = admin_auth (token_env env c) headers

pub data Method : Type 0 where
  get post other : Method

pub data Endpoint : Type 0 where
  php health metrics reload submit_job get_job_status : Endpoint

pub record Route : Type 0 where
  pub path : Text
  pub methods : List Method
  pub endpoint : Endpoint
  pub behind_auth : Bool

abbrev php_routes : List Route
php_routes =
    record { path = codes "/"; methods = get ∷ post ∷ []; endpoint = php; behind_auth = false }
    ∷ record {
      path = codes "/*path";
      methods = get ∷ post ∷ [];
      endpoint = php;
      behind_auth = false;
    }
    ∷ []

abbrev admin_routes : List Route
admin_routes =
    record { path = codes "/health"; methods = get ∷ []; endpoint = health; behind_auth = true }
    ∷ record { path = codes "/metrics"; methods = get ∷ []; endpoint = metrics; behind_auth = true }
    ∷ record { path = codes "/reload"; methods = get ∷ []; endpoint = reload; behind_auth = true }
    ∷ []

abbrev queue_routes : List Route
queue_routes =
    record {
      path = codes "/api/queue/submit";
      methods = post ∷ [];
      endpoint = submit_job;
      behind_auth = true;
    }
    ∷ record {
      path = codes "/api/queue/status/:id";
      methods = get ∷ [];
      endpoint = get_job_status;
      behind_auth = true;
    }
    ∷ []

-- The routes of the application.
unfoldable pub app_routes : Config → List Route
app_routes c =
    if c.queue.enabled
    then php_routes ++ (admin_routes ++ queue_routes)
    else php_routes ++ admin_routes

-- What a request comes to before a handler runs.
pub data Reply : Type 0 where
  not_found unauthorized method_not_allowed : Reply
  reached : Endpoint → Reply

-- axum's matching of paths and methods are arguments: the number of the path that fits, and whether a
-- method is among those that are registered. The layer of the admin routes runs before the test of the
-- method.
unfoldable pub dispatch :
    (List Text → Text → Option ℕ)
    → (List Method → Method → Bool)
    → Env
    → Config
    → Method
    → Text
    → Headers
    → Reply
dispatch matching accepts env c method path headers =
    elim (matching (map (λ r. r.path) (app_routes c)) path) [
      | none ↦ not_found
      | some i ↦ elim (get_elem? (app_routes c) i) [
        | none ↦ not_found
        | some r ↦
            if r.behind_auth && not (admin_allows env c headers)
            then unauthorized
            else if accepts r.methods method
            then reached r.endpoint
            else method_not_allowed
      ]
    ]

-- The level and the least size that the compression layer gets.
unfoldable pub compression_level : CompressionConfig → ℕ
compression_level c = min (max c.level 1) 9

unfoldable pub compression_min_size : CompressionConfig → ℕ
compression_min_size c = min c.min_size_bytes (2 ^ 16 - 1)

-- How a server that serves ends: by Ctrl-C, or because one of its listeners fails.
pub data End : Type 0 where
  interrupted http_failed https_failed : End

-- The exit code, after all pools are stopped.
unfoldable pub shut_down : {F V : Type 0} → End → AppState F V → ℕ × AppState F V
shut_down interrupted st = (0, record st { pool_manager = stop_all st.pool_manager })
shut_down http_failed st = (1, record st { pool_manager = stop_all st.pool_manager })
shut_down https_failed st = (1, record st { pool_manager = stop_all st.pool_manager })
