-- ===== src/Handler/Php/Flow.antt =====
-- src-server/src/handlers.rs: the order of `php_handler`'s steps, with each early return. Its
-- configuration and the answers of libraries and system are those of `World`.
use bakpia_run.Prelude.{
  ℕ, ◌+◌, ◌*◌, ◌%◌, ◌^◌, Option, none, some, List, if◌then◌else◌, get_elem?, ◌++◌,
}
use bakpia_run.Text.{Text, codes}
use bakpia_run.Config.{Config}
use bakpia_run.Routing.{get_pool_name_for_request, get_pool}
use bakpia_run.Worker.{Worker, ensure_running}
use bakpia_run.WorkerPool.{WorkerPool, get_next_worker}
use bakpia_run.RateLimiter.{RateLimitHeaders, Checked, allowed, limited}
use bakpia_run.StaticFile.{is_static_file, serve_static_file, find_php_file}
use bakpia_run.Http.{Response, plain}
use bakpia_run.App.{AppState, adjust, change_worker}
use bakpia_run.Handler.Request.{client_ip, content_type_of}
use bakpia_run.Handler.Upload.{clean_up}
use bakpia_run.Handler.Php.{
  HttpRequest, Body, bytes, unread, World, Exchange, html, too_many, limit_check, read_form,
  php_request, settle, count, reply,
}

module _ {F V : Type 0} where
  -- The worker is put back in its pool.
  unfoldable pub put_worker : Text → ℕ → Worker → AppState F V → AppState F V
  put_worker pool_name i worker st = record st {
    pool_manager = record (st.pool_manager) {
      pools = adjust pool_name (change_worker i (λ _. worker)) st.pool_manager.pools;
    };
  }

-- `first` is the number of the first new temporary file, `others` are the files that are there before.
module _ {F V : Type 0} (w : World F) (r : HttpRequest) (first : ℕ) (others : List ℕ) where
  -- An end of the request before it has temporary files.
  abbrev pub early : AppState F V → Option Response → Exchange F V
  early st response = record { response = response; state = st; temporary = others }

  -- With the body: PHP is asked while the worker counts the request, the temporary files go, and
  -- then the answer is looked at.
  unfoldable pub exchange :
      Option RateLimitHeaders
      → Text
      → Text
      → ℕ
      → Config
      → Worker
      → List ℕ
      → AppState F V
      → Exchange F V
  exchange rate file_path pool_name i pool_config worker body st =
      let form = read_form w st.config (content_type_of r.headers) body first others in
      let busy : Worker = record worker { active_requests = worker.active_requests + 1 } in
      let sent =
        w.send busy.socket_path pool_config.php.timeout_ms (php_request w r file_path body form) in
      let counted : AppState F V = record st { metrics = count w i sent st.metrics } in
      record {
        response = reply w st.config pool_config pool_name rate sent;
        state = put_worker pool_name i (settle w pool_config sent busy) counted;
        temporary = clean_up w.disk form.uploaded form.temporary;
      }

  unfoldable pub read_body :
      Option RateLimitHeaders
      → Text
      → Text
      → ℕ
      → Config
      → Worker
      → Body
      → AppState F V
      → Exchange F V
  read_body rate file_path pool_name i pool_config worker (unread e) st =
      early (put_worker pool_name i worker st) (
        some (
          html 400
            (codes "<h1>400 Bad Request</h1><p>Failed to read body: " ++ (e ++ codes "</p>"))))
  read_body rate file_path pool_name i pool_config worker (bytes body) st =
      exchange rate file_path pool_name i pool_config worker body st

  -- With the worker chosen: it is started where it does not run.
  unfoldable pub on_worker :
      Option RateLimitHeaders → Text → Text → ℕ → Config → Worker → AppState F V → Exchange F V
  on_worker rate file_path pool_name i pool_config worker st =
      let run = ensure_running w.os_before pool_config worker in
      let max_body_bytes = st.config.server.max_body_size_mb * 1024 % 2 ^ 64 * 1024 % 2 ^ 64 in
      elim run.error [
        | some e ↦ early (put_worker pool_name i run.worker st) (
            some (
              html 500
                (codes "<h1>500 Error</h1><p>Failed to start worker: " ++ (e ++ codes "</p>"))))
        | none ↦
            read_body rate file_path pool_name i pool_config run.worker (w.body max_body_bytes) st
      ]

  -- With the pool: it chooses the next worker.
  unfoldable pub on_pool :
      Option RateLimitHeaders → Text → Text → WorkerPool → AppState F V → Exchange F V
  on_pool rate file_path pool_name pool st =
      let (index, turned) = get_next_worker w.locked pool in
      let next : AppState F V = record st {
        pool_manager = record (st.pool_manager) {
          pools = adjust pool_name (λ _. turned) st.pool_manager.pools;
        };
      } in
      elim index [
        | none ↦ early next none
        | some i ↦ elim (get_elem? turned.workers i) [
          | none ↦ early next none
          | some worker ↦ on_worker rate file_path pool_name i pool.config worker next
        ]
      ]

  -- With the PHP file: the request is routed to a pool.
  unfoldable pub route : Option RateLimitHeaders → Text → AppState F V → Exchange F V
  route rate file_path st = elim (get_pool_name_for_request st.pool_manager r.path r.headers) [
    | none ↦
        early st (some (html 500 (codes "<h1>500 Error</h1><p>No suitable worker pool found</p>")))
    | some pool_name ↦ elim (get_pool st.pool_manager pool_name) [
      | none ↦ early st none
      | some pool ↦ on_pool rate file_path pool_name pool st
    ]
  ]

  -- Within the limit: a static file, a PHP file, or nothing that is there.
  unfoldable pub dispatch : Option RateLimitHeaders → AppState F V → Exchange F V
  dispatch rate st =
      if is_static_file r.path
      then early st (
          serve_static_file w.files st.config.php.docroot r.path
            st.config.server.static_cache_max_age)
      else elim (find_php_file w.files st.config.php.docroot r.path) [
        | none ↦ early st (
            some (
              plain 404 (
                codes
                  "<h1>404 Not Found</h1><p>The requested URL was not found on this server.</p>")))
        | some file_path ↦ route rate file_path st
      ]

  unfoldable pub admit : Option Checked → AppState F V → Exchange F V
  admit none st = dispatch none st
  admit (some (allowed headers)) st = dispatch (some headers) st
  admit (some (limited e)) st = early st (some (too_many e))

  unfoldable pub php_handler : AppState F V → Exchange F V
  php_handler st =
      let (checked, limiter) = limit_check w (client_ip r.headers r.addr) st.rate_limiter in
      admit checked (record st { rate_limiter = limiter })
