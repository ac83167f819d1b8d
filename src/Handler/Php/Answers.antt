-- ===== src/Handler/Php/Answers.antt =====
-- src-server/src/handlers.rs: when `php_handler` gives a response and does not panic.
use bakpia_run.Prelude.{
  ℕ, ◌<◌, ◌≡◌, refl, inl, inr, true, not, any, arith, Bool-cases, Option-cases, Option, none, some,
  List, length, ◌++◌,
}
use bakpia_run.Text.{Text, codes}
use bakpia_run.Text.Splitting.{trim_start_matches}
use bakpia_run.Config.{Config}
use bakpia_run.Routing.{get_pool, get_pool_name_for_request}
use bakpia_run.Routing.Choice.{get_pool-IsRouted}
use bakpia_run.StaticFile.{is_static_file, serve_static_file, find_php_file}
use bakpia_run.Worker.{Worker, ensure_running}
use bakpia_run.WorkerPool.{WorkerPool, get_next_worker}
use bakpia_run.WorkerPool.Choice.{get_next_worker-bounds}
use bakpia_run.RateLimiter.{RateLimitHeaders, Checked, allowed, limited}
use bakpia_run.Http.{Response}
use bakpia_run.App.{AppState}
use bakpia_run.App.Pools.{get-Each, get_elem?-lt}
use bakpia_run.Handler.Request.{PhpRequest, PhpResponse}
use bakpia_run.Handler.Php.{
  World, HttpRequest, response_headers, Sent, answered, refused, timed_out, Body, bytes, unread,
  respond, reply,
}
use bakpia_run.Handler.Php.Flow.{
  exchange, read_body, on_worker, on_pool, route, dispatch, admit, php_handler,
}
use bakpia_run.App.Serving.{IsReady, IsServing}

-- How a request ends, with the configuration `c` and the pool it is routed to, if any: with a
-- response, or in one of two panics.
pub data Ends {F : Type 0} (w : World F) (r : HttpRequest) (c : Config) (routed : Option Text)
    : Option Response → Type 0 where
  with_response : (response : Response) → Ends w r c routed (some response)
  bad_header :
      (pool_name socket_path : Text) (limit : ℕ) (request : PhpRequest) (php : PhpResponse)
      → routed ≡ some pool_name
      → w.send socket_path limit request ≡ answered php
      → any (λ (h : Text × Text). not (w.valid h.0 h.1)) (response_headers c pool_name php) ≡ true
      → Ends w r c routed none
  vanished :
      (path content : Text)
      → is_static_file r.path ≡ true
      → path ≡ c.php.docroot ++ (codes "/" ++ trim_start_matches b'/' r.path)
      → w.files.read path ≡ some content
      → w.files.metadata path ≡ none
      → Ends w r c routed none

module _ {F : Type 0} (w : World F) (r : HttpRequest) (c : Config) (routed : Option Text) where
  serve_static_file-Ends :
      (age : ℕ)
      → is_static_file r.path ≡ true
      → Ends w r c routed (serve_static_file w.files c.php.docroot r.path age)
  unfolding serve_static_file
  serve_static_file-Ends age static =
      let path = c.php.docroot ++ (codes "/" ++ trim_start_matches b'/' r.path) in
      elim (Option-cases (serve_static_file w.files c.php.docroot r.path age)) [
        | inr (answer, e) ↦ rw e (with_response answer)
        | inl panicked ↦ elim (Option-cases (w.files.read path)) [
          | inl gone ↦ absurd (ground (arith, gone, panicked))
          | inr (content, read) ↦ elim (Option-cases (w.files.metadata path)) [
            | inr (m, there) ↦ absurd (ground (arith, read, there, panicked))
            | inl lost ↦ rw panicked (vanished path content static refl read lost)
          ]
        ]
      ]

  respond-Ends :
      (pool_name : Text) (rate : Option RateLimitHeaders) (php : PhpResponse) (socket_path : Text)
      (limit : ℕ) (request : PhpRequest)
      → routed ≡ some pool_name
      → w.send socket_path limit request ≡ answered php
      → Ends w r c routed (respond w c pool_name rate php)
  unfolding respond
  respond-Ends pool_name rate php socket_path limit request named sends =
      elim (Bool-cases
        (any (λ (h : Text × Text). not (w.valid h.0 h.1)) (response_headers c pool_name php))) [
          | inl bad ↦
              rw (bad, respond) (bad_header pool_name socket_path limit request php named sends bad)
          | inr fine ↦ rw (fine, respond) (with_response _)
        ]

  reply-Ends :
      (pool_config : Config) (pool_name : Text) (rate : Option RateLimitHeaders) (sent : Sent)
      (socket_path : Text) (limit : ℕ) (request : PhpRequest)
      → routed ≡ some pool_name
      → w.send socket_path limit request ≡ sent
      → Ends w r c routed (reply w c pool_config pool_name rate sent)
  unfolding reply
  reply-Ends pool_config pool_name rate (answered php) socket_path limit request named sends =
      respond-Ends pool_name rate php socket_path limit request named sends
  reply-Ends pool_config pool_name rate (refused e) socket_path limit request named sends =
      with_response _
  reply-Ends pool_config pool_name rate timed_out socket_path limit request named sends =
      with_response _

module _ {F V : Type 0} (w : World F) (r : HttpRequest) (first : ℕ) (others : List ℕ) where
  module _ (rate : Option RateLimitHeaders) (file_path pool_name : Text)
      (routed : Option Text) where
    read_body-Ends :
        (i : ℕ) (c : Config) (worker : Worker) (body : Body) (st : AppState F V)
        → routed ≡ some pool_name
        → Ends w r st.config routed
            (read_body w r first others rate file_path pool_name i c worker body st).response
    unfolding read_body exchange
    read_body-Ends i c worker (unread e) st named = with_response _
    read_body-Ends i c worker (bytes body) st named =
        reply-Ends w r st.config routed c pool_name rate _ _ _ _ named refl

    on_worker-Ends :
        (i : ℕ) (c : Config) (worker : Worker) (st : AppState F V)
        → routed ≡ some pool_name
        → Ends w r st.config routed
            (on_worker w r first others rate file_path pool_name i c worker st).response
    unfolding on_worker
    on_worker-Ends i c worker st named =
        let run = ensure_running w.os_before c worker in
        elim (Option-cases run.error) [
          | inl started ↦ rw (started, on_worker) (read_body-Ends i c run.worker _ st named)
          | inr (e, failed_to) ↦ rw (failed_to, on_worker) (with_response _)
        ]

    on_pool-Ends :
        (pool : WorkerPool) (st : AppState F V)
        → routed ≡ some pool_name
        → 0 < length pool.workers
        → Ends w r st.config routed
            (on_pool w r first others rate file_path pool_name pool st).response
    unfolding on_pool
    on_pool-Ends pool st named many =
        let turned = (get_next_worker w.locked pool).1 in
        let (choice, same, kept) = get_next_worker-bounds w.locked pool in
        elim choice [
          | inl (none_chosen, empty) ↦ absurd (omega (arith, many, empty))
          | inr (i, chosen, below) ↦
              let (worker, there) = get_elem?-lt turned.workers i (rw same below) in
              rw (chosen, there, on_pool) (on_worker-Ends i pool.config worker _ named)
        ]

  route-Ends :
      (rate : Option RateLimitHeaders) (file_path : Text) (st : AppState F V)
      → IsServing st.pool_manager
      → Ends w r st.config
          (get_pool_name_for_request st.pool_manager r.path r.headers)
          (route w r first others rate file_path st).response
  unfolding route get_pool
  route-Ends rate file_path st v =
      elim (Option-cases (get_pool_name_for_request st.pool_manager r.path r.headers)) [
        | inl unrouted ↦ rw (unrouted, route) (with_response _)
        | inr (name, routed) ↦
            let (pool, there) =
              get_pool-IsRouted st.pool_manager r.path r.headers name v.routed routed in
            rw (routed, there, route)
              (on_pool-Ends rate file_path name (some name) pool st refl
                (get-Each IsReady name pool st.pool_manager.pools v.ready there).has_workers)
      ]

  dispatch-Ends :
      (rate : Option RateLimitHeaders) (st : AppState F V)
      → IsServing st.pool_manager
      → Ends w r st.config
          (get_pool_name_for_request st.pool_manager r.path r.headers)
          (dispatch w r first others rate st).response
  unfolding dispatch
  dispatch-Ends rate st v = elim (Bool-cases (is_static_file r.path)) [
    | inl static ↦ rw (static, dispatch) (serve_static_file-Ends w r st.config _ _ static)
    | inr dynamic ↦ elim (Option-cases (find_php_file w.files st.config.php.docroot r.path)) [
      | inl missing ↦ rw (dynamic, missing, dispatch) (with_response _)
      | inr (file_path, found) ↦ rw (dynamic, found, dispatch) (route-Ends rate file_path st v)
    ]
  ]

  admit-Ends :
      (checked : Option Checked) (st : AppState F V)
      → IsServing st.pool_manager
      → Ends w r st.config
          (get_pool_name_for_request st.pool_manager r.path r.headers)
          (admit w r first others checked st).response
  unfolding admit
  admit-Ends none st v = dispatch-Ends none st v
  admit-Ends (some (allowed headers)) st v = dispatch-Ends (some headers) st v
  admit-Ends (some (limited e)) st v = with_response _

  -- Every request to `php_handler` gets a response, whatever the client and the system do, when every
  -- routing rule leads to a pool and every pool has workers, but for two panics: the `http`
  -- crate refuses a header that is made from PHP's answer, the pool's name or the content type, or a static file loses its metadata after it was read.
  pub php_handler-Ends :
      (st : AppState F V)
      → IsServing st.pool_manager
      → Ends w r st.config
          (get_pool_name_for_request st.pool_manager r.path r.headers)
          (php_handler w r first others st).response
  unfolding php_handler
  php_handler-Ends st v = admit-Ends _ _ v
