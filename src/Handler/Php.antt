-- ===== src/Handler/Php.antt =====
-- src-server/src/handlers.rs: `php_handler`, from the limit of requests to the response. One request
-- at a time; the log and the standard output are left out.
pub mod Flow
pub mod Serving
pub mod Answers
use bakpia_run.Prelude.{
  ℕ, ◌+◌, ◌-◌, ◌*◌, ◌%◌, ◌^◌, Bool, true, false, ◌&&◌, Option, none, some, List, [], ◌∷◌, ◌++◌, ltb,
  leb, any, not, if◌then◌else◌, length, get_elem?,
}
use bakpia_run.Prelude.Maps.{get}
use bakpia_run.Text.{Text, codes, is_empty, eq_ignore_ascii_case}
use bakpia_run.Text.Decimal.{decimal}
use bakpia_run.Text.Matching.{text_keys}
use bakpia_run.Text.Splitting.{contains}
use bakpia_run.Float.{F64}
use bakpia_run.Config.{Config, or_else}
use bakpia_run.Routing.{HeaderMap, get_pool_name_for_request, get_pool}
use bakpia_run.Worker.{Worker, Os, ensure_running, update_stats, should_restart, graceful_recycle}
use bakpia_run.WorkerPool.{WorkerPool, get_next_worker}
use bakpia_run.RateLimiter.{
  RateLimiter, RateLimitHeaders, RateLimitError, Checked, allowed, limited, check_rate_limit,
}
use bakpia_run.Metrics.{Metrics, record_request, record_error}
use bakpia_run.StaticFile.{Files, is_static_file, serve_static_file, find_php_file}
use bakpia_run.Security.{apply_security_headers}
use bakpia_run.Http.{Response, plain, header}
use bakpia_run.App.{AppState, adjust, change_worker}
use bakpia_run.Handler.Request.{
  PhpRequest, PhpResponse, client_ip, header_map, cookies_of, content_type_of, form_params,
  boundary_of,
}
use bakpia_run.Handler.Upload.{Field, Disk, Form, empty_form, add_fields, clean_up}

pub record HttpRequest : Type 0 where
  pub method : Text
  pub uri : Text
  pub path : Text
  pub query : Option Text
  pub query_params : List (Text × Text)
  pub headers : HeaderMap
  pub addr : Text

pub data Body : Type 0 where
  bytes : List ℕ → Body
  unread : Text → Body

-- What `send_to_php_worker` gives within the time limit, or that it gives nothing.
pub data Sent : Type 0 where
  answered : PhpResponse → Sent
  refused : Text → Sent
  timed_out : Sent

-- What the libraries, the system and PHP answer during the request: `now` in nanoseconds, the parser of
-- addresses, the files, the locks of the workers, the system before and after PHP works, the body up
-- to a length, its text, the decoder of percent signs, the fields of a multipart body with a boundary,
-- PHP at a socket with a limit of time, and the `http` crate on values and headers.
pub record World (F : Type 0) : Type 0 where
  pub f64 : F64 F
  pub now : ℕ
  pub parse_ip : Text → Option ℕ
  pub files : Files
  pub locked : ℕ → ℕ → Bool
  pub os_before : Os
  pub os_after : Os
  pub body : ℕ → Body
  pub from_utf8_lossy : List ℕ → Text
  pub decode : Text → Option Text
  pub fields : Text → List ℕ → List Field
  pub disk : Disk
  pub uuid : ℕ → Text
  pub send : Text → ℕ → PhpRequest → Sent
  pub from_str : Text → Option Text
  pub valid : Text → Text → Bool

-- The end of the request: `none` where the handler panics. `temporary` are the temporary files on the
-- disk.
pub record Exchange (F V : Type 0) : Type 0 where
  pub response : Option Response
  pub state : AppState F V
  pub temporary : List ℕ

-- `Html(..)` with a status
abbrev pub html : ℕ → Text → Response
html status body = record {
  status = status;
  headers = (codes "content-type", codes "text/html; charset=utf-8") ∷ [];
  body = body;
}

pub too_many : RateLimitError → Response
too_many e = record {
  status = 429;
  headers =
      (codes "Content-Type", codes "application/json")
      ∷ (codes "X-RateLimit-Limit", decimal e.limit)
      ∷ (codes "X-RateLimit-Remaining", codes "0")
      ∷ (codes "X-RateLimit-Reset", decimal e.reset)
      ∷ (codes "Retry-After", decimal e.reset)
      ∷ [];
  body =
      codes "{\"error\":\"Rate limit exceeded\",\"limit\":"
      ++ (decimal e.limit ++ (codes ",\"reset\":" ++ (decimal e.reset ++ codes "}")));
}

-- `StatusCode::from_u16(status).unwrap_or(StatusCode::OK)`
abbrev pub from_u16 : ℕ → ℕ
from_u16 status = if leb 100 status && ltb status 1000 then status else 200

-- The headers of PHP but its content type.
pub other_headers : List (Text × Text) → List (Text × Text) → List (Text × Text)
other_headers [] hs = hs
other_headers ((k, v) ∷ php) hs =
    if eq_ignore_ascii_case k (codes "content-type")
    then other_headers php hs
    else other_headers php (header k v hs)

-- The headers of the response that come from PHP, the pool and the configuration.
unfoldable pub response_headers : Config → Text → PhpResponse → List (Text × Text)
response_headers c pool_name php =
    let content_type =
      or_else (get (codes "content-type") php.headers)
        (or_else (get (codes "Content-Type") php.headers) c.php.default_content_type) in
    other_headers php.headers
      ((codes "Content-Type", content_type) ∷ (codes "X-BakpiaRun-Pool", pool_name) ∷ [])

abbrev pub limit_headers : Option RateLimitHeaders → List (Text × Text) → List (Text × Text)
limit_headers none hs = hs
limit_headers (some l) hs = header (codes "X-RateLimit-Reset") (decimal l.reset) (
    header (codes "X-RateLimit-Remaining") (decimal l.remaining)
      (header (codes "X-RateLimit-Limit") (decimal l.limit) hs))

module _ {F : Type 0} (w : World F) where
  -- The client's place under the limit; without an address that parses there is none.
  pub limit_check : Text → RateLimiter F → Option Checked × RateLimiter F
  limit_check ip l = elim (w.parse_ip ip) [
    | none ↦ (none, l)
    | some address ↦
        let (checked, after) = check_rate_limit w.f64 address w.now l in (some checked, after)
  ]

  -- What the body gives, with the temporary files that are on the disk before.
  pub read_form : Config → Text → List ℕ → ℕ → List ℕ → Form
  read_form c content_type body first others =
      let start = record empty_form { temporary = others } in
      let boundary = boundary_of content_type in
      if contains content_type (codes "multipart/form-data")
      then (if is_empty boundary
          then start
          else add_fields w.disk w.uuid c.php.upload_tmp_dir first (w.fields boundary body) start)
      else if contains content_type (codes "application/x-www-form-urlencoded")
      then record start { post_params = form_params w.decode (w.from_utf8_lossy body) }
      else start

  pub php_request : HttpRequest → Text → List ℕ → Form → PhpRequest
  php_request r file_path body form = record {
    method = r.method;
    uri = r.uri;
    file_path = file_path;
    query_string = or_else r.query [];
    query_params = r.query_params;
    post_params = form.post_params;
    cookies = cookies_of r.headers;
    headers = header_map r.headers [];
    body = w.from_utf8_lossy body;
    content_type = content_type_of r.headers;
    content_length = decimal (length body);
    files = form.files;
  }

  -- The worker after PHP has answered: counted, and recycled when it has reached a limit.
  pub finish : Config → PhpResponse → Worker → Worker
  finish pool_config php worker =
      let updated = update_stats w.os_after php.memory php.peak worker in
      elim (should_restart pool_config updated) [
        | none ↦ updated
        | some reason ↦ (graceful_recycle w.os_after pool_config updated).worker
      ]

  -- The worker after the exchange with PHP; the request in flight is over.
  pub settle : Config → Sent → Worker → Worker
  settle pool_config sent worker =
      let idle = record worker { active_requests = worker.active_requests - 1 } in
      elim sent [
        | answered php ↦ finish pool_config php idle
        | refused e ↦ (ensure_running w.os_after pool_config idle).worker
        | timed_out ↦ (graceful_recycle w.os_after pool_config idle).worker
      ]

  pub count : ℕ → Sent → Metrics → Metrics
  count worker_index (answered php) m = record_request worker_index php.memory m
  count worker_index (refused e) m = record_error m
  count worker_index timed_out m = record_error m

  -- The response made of PHP's; the builder keeps its first refusal of a header, and panics in the end.
  pub respond : Config → Text → Option RateLimitHeaders → PhpResponse → Option Response
  respond c pool_name rate php =
      let named = response_headers c pool_name php in
      if any (λ (h : Text × Text). not (w.valid h.0 h.1)) named
      then none
      else some (record {
        status = from_u16 php.status;
        headers = limit_headers rate (apply_security_headers w.from_str named c.security);
        body = php.body;
      })

  pub reply : Config → Config → Text → Option RateLimitHeaders → Sent → Option Response
  reply c pool_config pool_name rate (answered php) = respond c pool_name rate php
  reply c pool_config pool_name rate (refused e) =
      some (html 500 (codes "<h1>500 Error</h1><p>" ++ (e ++ codes "</p>")))
  reply c pool_config pool_name rate timed_out = some (
      html 504 (
        codes
          "<h1>504 Gateway Timeout</h1><p>The server did not receive a timely response from the PHP worker.</p><p>Timeout: "
        ++ (decimal pool_config.php.timeout_ms ++ codes "ms</p>")))
