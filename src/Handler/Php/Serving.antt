-- ===== src/Handler/Php/Serving.antt =====
-- src-server/src/handlers.rs: what `php_handler` leaves behind, whichever way it ends.
use bakpia_run.Prelude.{
  ℕ, ◌+◌, ◌-◌, ◌<◌, refl, inl, inr, arith, Bool-cases, Option-cases, Option, none, some, List, [],
  get_elem?, All,
}
use bakpia_run.Text.{Text, codes, is_empty}
use bakpia_run.Text.Splitting.{contains}
use bakpia_run.Config.{Config}
use bakpia_run.Routing.{get_pool, get_pool_name_for_request}
use bakpia_run.StaticFile.{is_static_file, find_php_file}
use bakpia_run.Worker.{Worker, update_stats, should_restart, ensure_running}
use bakpia_run.WorkerPool.{WorkerPool, get_next_worker}
use bakpia_run.WorkerPool.Choice.{get_next_worker-bounds}
use bakpia_run.RateLimiter.{RateLimitHeaders, Checked, allowed, limited}
use bakpia_run.App.{AppState, change_worker}
use bakpia_run.App.Pools.{get-Each, get_elem?-All}
use bakpia_run.App.Serving.{
  IsQuiet, IsReady, IsServing, graceful_recycle-IsQuiet, ensure_running-IsQuiet,
  update_stats-IsQuiet, adjust-IsServing, change_worker-IsReady,
}
use bakpia_run.Handler.Request.{PhpResponse, boundary_of}
use bakpia_run.Handler.Upload.{Disk, clean_up}
use bakpia_run.Handler.Upload.Cleanup.{Leaves, clean_up-add_fields}
use bakpia_run.Handler.Php.{
  World, Exchange, HttpRequest, Sent, answered, refused, timed_out, Body, bytes, unread, read_form,
  finish, settle,
}
use bakpia_run.Handler.Php.Flow.{
  put_worker, exchange, read_body, on_worker, on_pool, route, dispatch, admit, php_handler,
}

-- Where nothing was stored, nothing is left.
none_stored : (d : Disk) (first : ℕ) (others : List ℕ) → Leaves d first others others
none_stored d first others = ([], refl, tt)

module _ {F : Type 0} (w : World F) where
  finish-IsQuiet :
      (c : Config) (php : PhpResponse) (worker : Worker)
      → IsQuiet worker
      → IsQuiet (finish w c php worker)
  unfolding finish
  finish-IsQuiet c php worker v =
      let updated = update_stats w.os_after php.memory php.peak worker in
      let quiet = update_stats-IsQuiet w.os_after php.memory php.peak worker v in
      elim (Option-cases (should_restart c updated)) [
        | inl none_reached ↦ rw (none_reached, finish) quiet
        | inr (reason, reached) ↦
            rw (reached, finish) (graceful_recycle-IsQuiet w.os_after c updated quiet)
      ]

  busy-IsQuiet :
      (worker : Worker)
      → IsQuiet worker
      → IsQuiet (record worker { active_requests = worker.active_requests + 1 - 1 })
  busy-IsQuiet worker v = record {
    settled = ground (arith, v.settled);
    no_requests = omega (arith, v.no_requests);
  }

  -- The request in flight is taken off the worker again, whatever came of it.
  settle-IsQuiet :
      (c : Config) (sent : Sent) (worker : Worker)
      → IsQuiet worker
      → IsQuiet (settle w c sent (record worker { active_requests = worker.active_requests + 1 }))
  unfolding settle
  settle-IsQuiet c (answered php) worker v = finish-IsQuiet c php _ (busy-IsQuiet worker v)
  settle-IsQuiet c (refused e) worker v =
      ensure_running-IsQuiet w.os_after c _ (busy-IsQuiet worker v)
  settle-IsQuiet c timed_out worker v =
      graceful_recycle-IsQuiet w.os_after c _ (busy-IsQuiet worker v)

  read_form-temporary :
      (c : Config) (content_type : Text) (body : List ℕ) (first : ℕ) (others : List ℕ)
      → All (λ k. k < first) others
      → (let form = read_form w c content_type body first others in
          Leaves w.disk first others (clean_up w.disk form.uploaded form.temporary))
  unfolding read_form clean_up
  read_form-temporary c content_type body first others below =
      let early = none_stored w.disk first others in
      elim (Bool-cases (contains content_type (codes "multipart/form-data"))) [
        | inl multipart ↦ elim (Bool-cases (is_empty (boundary_of content_type))) [
          | inl unbounded ↦ rw (multipart, unbounded, read_form) early
          | inr bounded ↦
              rw (multipart, bounded, read_form)
                (clean_up-add_fields w.disk w.uuid c.php.upload_tmp_dir first others
                  (w.fields (boundary_of content_type) body) below)
        ]
        | inr other ↦
            elim (Bool-cases (contains content_type (codes "application/x-www-form-urlencoded"))) [
              | inl encoded ↦ rw (other, encoded, read_form) early
              | inr plain ↦ rw (other, plain, read_form) early
            ]
      ]

module _ {F V : Type 0} where
  put_worker-IsServing :
      (pool_name : Text) (i : ℕ) (worker : Worker) (st : AppState F V)
      → IsQuiet worker
      → IsServing st.pool_manager
      → IsServing (put_worker pool_name i worker st).pool_manager
  unfolding put_worker
  put_worker-IsServing pool_name i worker st quiet v =
      adjust-IsServing pool_name (change_worker i (λ _. worker)) st.pool_manager
        (λ p. change_worker-IsReady i worker p quiet) v

  -- Nothing of a request is left: no worker holds it, and no temporary file but one whose removal
  -- failed.
  abbrev pub IsOver : Disk → ℕ → List ℕ → Exchange F V → Type 0
  IsOver d first others x = IsServing x.state.pool_manager × Leaves d first others x.temporary

module _ {F V : Type 0} (w : World F) (r : HttpRequest) (first : ℕ) (others : List ℕ) where
  module _ (rate : Option RateLimitHeaders) (file_path pool_name : Text) where
    read_body-IsOver :
        (i : ℕ) (c : Config) (worker : Worker) (body : Body) (st : AppState F V)
        → All (λ k. k < first) others
        → IsQuiet worker
        → IsServing st.pool_manager
        → IsOver w.disk first others
            (read_body w r first others rate file_path pool_name i c worker body st)
    unfolding read_body exchange
    read_body-IsOver i c worker (unread e) st below quiet v =
        (put_worker-IsServing pool_name i worker st quiet v, none_stored w.disk first others)
    read_body-IsOver i c worker (bytes body) st below quiet v = (
      put_worker-IsServing pool_name i _ _ (settle-IsQuiet w c _ worker quiet) v,
      read_form-temporary w st.config _ body first others below,
    )

    on_worker-IsOver :
        (i : ℕ) (c : Config) (worker : Worker) (st : AppState F V)
        → All (λ k. k < first) others
        → IsQuiet worker
        → IsServing st.pool_manager
        → IsOver w.disk first others
            (on_worker w r first others rate file_path pool_name i c worker st)
    unfolding on_worker
    on_worker-IsOver i c worker st below quiet v =
        let run = ensure_running w.os_before c worker in
        let ensured = ensure_running-IsQuiet w.os_before c worker quiet in
        elim (Option-cases run.error) [
          | inl started ↦
              rw (started, on_worker) (read_body-IsOver i c run.worker _ st below ensured v)
          | inr (e, failed_to) ↦
              rw (failed_to, on_worker)
                (
                  put_worker-IsServing pool_name i run.worker st ensured v,
                  none_stored w.disk first others,
                )
        ]

    on_pool-IsOver :
        (pool : WorkerPool) (st : AppState F V)
        → All (λ k. k < first) others
        → IsReady pool
        → IsServing st.pool_manager
        → IsOver w.disk first others (on_pool w r first others rate file_path pool_name pool st)
    unfolding on_pool
    on_pool-IsOver pool st below is_ready v =
        let turned = (get_next_worker w.locked pool).1 in
        let same = (get_next_worker-bounds w.locked pool).1 in
        let still_ready : IsReady turned = record {
          has_workers = rw same is_ready.has_workers;
          quiet = rw same is_ready.quiet;
        } in
        let next =
          adjust-IsServing pool_name (λ _. turned) st.pool_manager (λ _ _. still_ready) v in
        elim (Option-cases (get_next_worker w.locked pool).0) [
          | inl empty ↦ rw (empty, on_pool) (next, none_stored w.disk first others)
          | inr (i, chosen) ↦ elim (Option-cases (get_elem? turned.workers i)) [
            | inl missing ↦ rw (chosen, missing, on_pool) (next, none_stored w.disk first others)
            | inr (worker, there) ↦
                rw (chosen, there, on_pool)
                  (on_worker-IsOver i pool.config worker _ below
                    (get_elem?-All IsQuiet turned.workers i worker still_ready.quiet there) next)
          ]
        ]

  route-IsOver :
      (rate : Option RateLimitHeaders) (file_path : Text) (st : AppState F V)
      → All (λ k. k < first) others
      → IsServing st.pool_manager
      → IsOver w.disk first others (route w r first others rate file_path st)
  unfolding route get_pool
  route-IsOver rate file_path st below v =
      elim (Option-cases (get_pool_name_for_request st.pool_manager r.path r.headers)) [
        | inl unrouted ↦ rw (unrouted, route) (v, none_stored w.disk first others)
        | inr (name, routed) ↦ elim (Option-cases (get_pool st.pool_manager name)) [
          | inl missing ↦ rw (routed, missing, route) (v, none_stored w.disk first others)
          | inr (pool, there) ↦
              rw (routed, there, route)
                (on_pool-IsOver rate file_path name pool st below
                  (get-Each IsReady name pool st.pool_manager.pools v.ready there) v)
        ]
      ]

  dispatch-IsOver :
      (rate : Option RateLimitHeaders) (st : AppState F V)
      → All (λ k. k < first) others
      → IsServing st.pool_manager
      → IsOver w.disk first others (dispatch w r first others rate st)
  unfolding dispatch
  dispatch-IsOver rate st below v = elim (Bool-cases (is_static_file r.path)) [
    | inl static ↦ rw (static, dispatch) (v, none_stored w.disk first others)
    | inr dynamic ↦ elim (Option-cases (find_php_file w.files st.config.php.docroot r.path)) [
      | inl missing ↦ rw (dynamic, missing, dispatch) (v, none_stored w.disk first others)
      | inr (file_path, found) ↦
          rw (dynamic, found, dispatch) (route-IsOver rate file_path st below v)
    ]
  ]

  admit-IsOver :
      (checked : Option Checked) (st : AppState F V)
      → All (λ k. k < first) others
      → IsServing st.pool_manager
      → IsOver w.disk first others (admit w r first others checked st)
  unfolding admit
  admit-IsOver none st below v = dispatch-IsOver none st below v
  admit-IsOver (some (allowed headers)) st below v = dispatch-IsOver (some headers) st below v
  admit-IsOver (some (limited e)) st below v = (v, none_stored w.disk first others)

  -- However a request to `php_handler` ends, by a response of any status or by a panic, nothing of it is
  -- left: every routing rule still leads to a pool, every pool still has its workers, each of them
  -- settled and with no request in flight, and the temporary files on the disk are those that were
  -- there before, and new ones that the disk did not remove. It starts with the pools in this state, and the older temporary files have numbers
  -- below those of the new ones.
  pub php_handler-IsOver :
      (st : AppState F V)
      → All (λ k. k < first) others
      → IsServing st.pool_manager
      → IsOver w.disk first others (php_handler w r first others st)
  unfolding php_handler
  php_handler-IsOver st below v = admit-IsOver _ _ below v
