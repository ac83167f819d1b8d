-- ===== src/Server/Lifetime.antt =====
-- The server from its start on: whatever comes, it can serve the next request.
use mathlib.Core.Path.{subst}
use bakpia_run.Prelude.{Bool, ℕ, ◌≤◌, ◌≡◌, inl, inr, arith, Option-cases, some, List, [], ◌∷◌, All}
use bakpia_run.Config.{Config, PoolConfig, Env, apply_env_overrides}
use bakpia_run.Routing
use bakpia_run.Routing.{build_pool_config, get_pool_name_for_request}
use bakpia_run.Routing.Choice.{IsReached-IsRouted, started}
use bakpia_run.Routing.Starting.{StartsWell, new-All}
use bakpia_run.Worker.{Os}
use bakpia_run.WorkerPool
use bakpia_run.WorkerPool.{WorkerPool}
use bakpia_run.WorkerPool.Starting.{length-start_all-new}
use bakpia_run.WorkerPool.Invariant.{start_all-new-All}
use bakpia_run.Text.{Text}
use bakpia_run.App.{AppState}
use bakpia_run.App.Serving.{IsQuiet, IsReady, IsServing}
use bakpia_run.App.Reload.{Loaded, loaded, unreadable}
use bakpia_run.App.Reload.Ready.{
  HasWorkers, LoadsWorkers, IsQuiet-IsKept, reload_handler-IsServing, on_hangup-IsServing,
}
use bakpia_run.AntiOom.Round.{monitor_round-IsServing}
use bakpia_run.Handler.Php.{World, HttpRequest}
use bakpia_run.Handler.Php.Flow.{php_handler}
use bakpia_run.Handler.Php.Serving.{php_handler-IsOver}
use bakpia_run.Handler.Php.Answers.{Ends, php_handler-Ends}
use bakpia_run.Handler.Health.{health_handler}
use bakpia_run.Handler.Health.Alive.{refresh_pools-IsServing}
use bakpia_run.Handler.Report.{metrics_handler}
use bakpia_run.Handler.Jobs.{submit_job}
use bakpia_run.Startup.{Host, Boot, serves, boot}
use bakpia_run.Startup.Outcome.{
  Booted, port_in_use, no_directory, no_pool_directory, no_https, serving, boot_with-Booted,
}
use bakpia_run.Server.{
  Event, requested, submitted, polled, health_asked, metrics_asked, reload_asked, hung_up,
  monitored, after, history, start_pool, start_state,
}

-- The configuration files that are read give every pool a worker.
abbrev pub IsSound : {F V : Type 0} → Event F V → Type 0
IsSound (requested w r) = Unit {0}
IsSound (submitted id now task payload) = Unit {0}
IsSound (polled handlers now) = Unit {0}
IsSound (health_asked f read now os) = Unit {0}
IsSound (metrics_asked f two_decimals read now os) = Unit {0}
IsSound (reload_asked load os env) = (path : Text) → LoadsWorkers env (load path)
IsSound (hung_up load config_path os env) = LoadsWorkers env (load config_path)
IsSound (monitored f read os last_os) = Unit {0}

IsReady-start_pool :
    (os : PoolConfig → ℕ → Os) (c : Config) (p : PoolConfig) (pool : WorkerPool)
    → 1 ≤ p.worker_count
    → start_pool os c p ≡ some pool
    → IsReady pool
unfolding start_pool
IsReady-start_pool os c p pool many starts =
    let fresh = WorkerPool.new p.worker_count c in
    let ready : IsReady (WorkerPool.start_all (os p) c fresh).0 = record {
      has_workers = rw (length-start_all-new (os p) c p.worker_count) many;
      quiet = start_all-new-All IsQuiet IsQuiet-IsKept (os p) c p.worker_count;
    } in
    elim (Option-cases (WorkerPool.start_all (os p) c fresh).1) [
      | inl fine ↦ subst IsReady (ground (arith, fine, starts)) ready
      | inr (e, fails) ↦ absurd (ground (arith, fails, starts))
    ]

StartsWell-each :
    (os : PoolConfig → ℕ → Os) (c : Config) (ps : List PoolConfig)
    → All (λ (p : PoolConfig). 1 ≤ p.worker_count) ps
    → All (StartsWell IsReady (start_pool os) c) ps
StartsWell-each os c [] h = tt
StartsWell-each os c (p ∷ ps) (hp, h) = (
  λ pool starts. IsReady-start_pool os (build_pool_config c p) p pool hp starts,
  StartsWell-each os c ps h,
)

new-IsServing :
    (os : PoolConfig → ℕ → Os) (c : Config)
    → HasWorkers c
    → IsServing (Routing.new (start_pool os) c)
new-IsServing os c many = record {
  routed = IsReached-IsRouted (started c);
  ready = new-All IsReady (start_pool os) c (StartsWell-each os c c.pools many);
}

module _ {F V : Type 0} where
  after-IsServing :
      (e : Event F V) (st : AppState F V)
      → IsSound e
      → IsServing st.pool_manager
      → IsServing (after e st).pool_manager
  unfolding after submit_job health_handler metrics_handler
  after-IsServing (requested w r) st sound v = (php_handler-IsOver w r 0 [] st tt v).0
  after-IsServing (submitted id now task payload) st sound v = ground arith
  after-IsServing (polled handlers now) st sound v = v
  after-IsServing (health_asked f read now os) st sound v =
      refresh_pools-IsServing os st.pool_manager v
  after-IsServing (metrics_asked f two_decimals read now os) st sound v =
      refresh_pools-IsServing os st.pool_manager v
  after-IsServing (reload_asked load os env) st sound v =
      reload_handler-IsServing load os env st sound v
  after-IsServing (hung_up load config_path os env) st sound v =
      on_hangup-IsServing load config_path os env st sound v
  after-IsServing (monitored f read os last_os) st sound v =
      monitor_round-IsServing f read os last_os st.config st.pool_manager v

  history-IsServing :
      (es : List (Event F V)) (st : AppState F V)
      → All IsSound es
      → IsServing st.pool_manager
      → IsServing (history es st).pool_manager
  unfolding history
  history-IsServing [] st sound v = v
  history-IsServing (e ∷ es) st (first, later) v =
      history-IsServing es (after e st) later (after-IsServing e st first v)

  Booted-IsServing :
      (h : Host) (os : PoolConfig → ℕ → Os) (now : ℕ) (c : Config)
      → HasWorkers c
      → (o : Boot F V) (tls : Bool) (st : AppState F V) → Booted h os now c o
      → o ≡ serves tls st
      → IsServing st.pool_manager
  unfolding start_state
  Booted-IsServing h os now c many _ tls st (port_in_use why) e = absurd (ground (arith, e))
  Booted-IsServing h os now c many _ tls st (no_directory bound why) e = absurd (ground (arith, e))
  Booted-IsServing h os now c many _ tls st (no_pool_directory bound dir before p later s f why) e =
      absurd (ground (arith, e))
  Booted-IsServing h os now c many _ tls st (no_https bound dir fine on why) e =
      absurd (ground (arith, e))
  Booted-IsServing h os now c many _ tls st (serving bound dir fine up) e =
      let same : start_state (Routing.new (start_pool os) c) now c ≡ st = ground (arith, e) in
      subst (λ (s : AppState F V). IsServing s.pool_manager) same (new-IsServing os c many)

  -- When the server has started, then after any requests, submissions and rounds of the queue, health
  -- checks, metrics, reloads and rounds of the monitor, every routing rule leads to a pool, every pool
  -- has its workers, each of them settled and without a request, and the next request is answered and
  -- not lost in a panic, but in two cases: PHP answered, and the `http` crate refuses a header of this
  -- answer, the pool's name, or the content type; or a static file loses its metadata between its
  -- reading and their use.
  -- Every configuration that is read, at the start and later, gives each pool at least one worker.
  pub boot-Ends :
      (h : Host) (file : Loaded) (env : Env) (os : PoolConfig → ℕ → Os) (now : ℕ) (tls : Bool)
      (st : AppState F V) (es : List (Event F V)) (w : World F) (r : HttpRequest)
      → boot h file env os now ≡ serves tls st
      → LoadsWorkers env file
      → All IsSound es
      → IsServing (history es st).pool_manager
        × Ends w r
            (history es st).config
            (get_pool_name_for_request (history es st).pool_manager r.path r.headers)
            (php_handler w r 0 [] (history es st)).response
  unfolding boot
  boot-Ends h (unreadable e) env os now tls st es w r starts many sound =
      absurd (ground (arith, starts))
  boot-Ends h (loaded c) env os now tls st es w r starts many sound =
      let config = apply_env_overrides env c in
      let serving = history-IsServing es st sound (
        Booted-IsServing h os now config many _ tls st (boot_with-Booted h os now config) starts) in
      (serving, php_handler-Ends w r 0 [] (history es st) serving)
