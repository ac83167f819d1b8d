-- ===== src/Handler/Health/Alive.antt =====
-- src-server/src/handlers.rs: what the health check says of the workers, and what it leaves.
use bakpia_run.Prelude.{
  ℕ, suc, ◌≤◌, ◌≡◌, ◌↔◌, ◌==◌, ==_iff, refl, sym, ap, ◌∙◌, inl, inr, arith, Bool-cases,
  Option-cases, List, [], ◌∷◌, ◌||◌, length, All,
}
use bakpia_run.Prelude.Maps.{contains_key}
use bakpia_run.Text.{Text, text_eq}
use bakpia_run.Text.Matching.{text_keys}
use bakpia_run.Float.{F64}
use bakpia_run.Routing.{PoolManager}
use bakpia_run.Worker.{Worker, Os}
use bakpia_run.Worker.Activity.{refresh-process}
use bakpia_run.WorkerPool.{WorkerPool}
use bakpia_run.WorkerPool.Starting.{HasProcess}
use bakpia_run.AntiOom.{Reader}
use bakpia_run.App.{AppState}
use bakpia_run.App.Pools.{Each, IsRouted-names}
use bakpia_run.App.Serving.{IsQuiet, IsReady, IsServing, refresh-IsQuiet}
use bakpia_run.Handler.Health.{
  alive_workers, sum_of, refresh_workers, refresh_pools, health_handler,
}

alive_workers-le : (ws : List Worker) → alive_workers ws ≤ length ws
unfolding alive_workers
alive_workers-le [] = omega arith
alive_workers-le (w ∷ ws) = ground (arith, alive_workers-le ws)

alive_workers_iff : (ws : List Worker) → (alive_workers ws ≡ length ws) ↔ All HasProcess ws
unfolding alive_workers
alive_workers_iff [] = (λ h. tt, λ h. refl)
alive_workers_iff (w ∷ ws) =
    let le = alive_workers-le ws in
    let (go, back) = alive_workers_iff ws in
    (
      λ h. elim (Option-cases w.process) [
        | inl dead ↦ absurd (ground (arith, dead, h, le))
        | inr (p, there) ↦ (λ e. absurd (ground (arith, e, there)), go (ground (arith, there, h)))
      ],
      λ (hw, h). elim (Option-cases w.process) [
        | inl dead ↦ absurd (hw dead)
        | inr (p, there) ↦ ground (arith, there, back h)
      ],
    )

-- Every worker of every pool has a process.
abbrev pub AllAlive : List (Text × WorkerPool) → Type 0
AllAlive ps = Each (λ p. All HasProcess p.workers) ps

sum_of-le : (ps : List (Text × WorkerPool)) → sum_of alive_workers ps ≤ sum_of length ps
sum_of-le [] = omega arith
sum_of-le ((name, p) ∷ ps) = omega (arith, alive_workers-le p.workers, sum_of-le ps)

sum_of-AllAlive :
    (ps : List (Text × WorkerPool)) → (sum_of alive_workers ps ≡ sum_of length ps) ↔ AllAlive ps
sum_of-AllAlive [] = (λ h. tt, λ h. refl)
sum_of-AllAlive ((name, p) ∷ ps) =
    let le = alive_workers-le p.workers in
    let les = sum_of-le ps in
    let (go, back) = alive_workers_iff p.workers in
    let (goes, backs) = sum_of-AllAlive ps in
    (
      λ h. (go (omega (arith, h, le, les)), goes (omega (arith, h, le, les))),
      λ (hp, h). omega (arith, back hp, backs h),
    )

refresh_workers-HasProcess :
    (os : ℕ → Os) (i : ℕ) (ws : List Worker)
    → All HasProcess (refresh_workers os i ws) ↔ All HasProcess ws
unfolding refresh_workers
refresh_workers-HasProcess os i [] = (λ h. h, λ h. h)
refresh_workers-HasProcess os i (w ∷ ws) =
    let same = refresh-process (os i) w in
    let (go, back) = refresh_workers-HasProcess os (suc i) ws in
    (λ (hw, h). (λ e. hw (same ∙ e), go h), λ (hw, h). (λ e. hw (sym same ∙ e), back h))

refresh_pools-AllAlive :
    (os : ℕ → ℕ → Os) (k : ℕ) (ps : List (Text × WorkerPool))
    → AllAlive (refresh_pools os k ps) ↔ AllAlive ps
unfolding refresh_pools
refresh_pools-AllAlive os k [] = (λ h. h, λ h. h)
refresh_pools-AllAlive os k ((name, p) ∷ ps) =
    let (go, back) = refresh_workers-HasProcess (os k) 0 p.workers in
    let (goes, backs) = refresh_pools-AllAlive os (suc k) ps in
    (λ (hp, h). (go hp, goes h), λ (hp, h). (back hp, backs h))

refresh_workers-IsQuiet :
    (os : ℕ → Os) (i : ℕ) (ws : List Worker)
    → All IsQuiet ws
    → All IsQuiet (refresh_workers os i ws)
unfolding refresh_workers
refresh_workers-IsQuiet os i [] h = h
refresh_workers-IsQuiet os i (w ∷ ws) (hw, h) =
    (refresh-IsQuiet (os i) w hw, refresh_workers-IsQuiet os (suc i) ws h)

length-refresh_workers :
    (os : ℕ → Os) (i : ℕ) (ws : List Worker) → length (refresh_workers os i ws) ≡ length ws
unfolding refresh_workers
length-refresh_workers os i [] = refl
length-refresh_workers os i (w ∷ ws) = ap suc (length-refresh_workers os (suc i) ws)

refresh_pools-IsReady :
    (os : ℕ → ℕ → Os) (k : ℕ) (ps : List (Text × WorkerPool))
    → Each IsReady ps
    → Each IsReady (refresh_pools os k ps)
unfolding refresh_pools
refresh_pools-IsReady os k [] h = h
refresh_pools-IsReady os k ((name, p) ∷ ps) (hp, h) = (
  record {
    has_workers = rw (length-refresh_workers (os k) 0 p.workers) hp.has_workers;
    quiet = refresh_workers-IsQuiet (os k) 0 p.workers hp.quiet;
  },
  refresh_pools-IsReady os (suc k) ps h,
)

contains_key-refresh_pools :
    (key : Text) (os : ℕ → ℕ → Os) (k : ℕ) (ps : List (Text × WorkerPool))
    → contains_key key (refresh_pools os k ps) ≡ contains_key key ps
unfolding refresh_pools contains_key
contains_key-refresh_pools key os k [] = refl
contains_key-refresh_pools key os k ((name, p) ∷ ps) =
    ap (λ b. text_eq name key || b) (contains_key-refresh_pools key os (suc k) ps)

pub refresh_pools-IsServing :
    (os : ℕ → ℕ → Os) (m : PoolManager WorkerPool)
    → IsServing m
    → IsServing (record m { pools = refresh_pools os 0 m.pools })
refresh_pools-IsServing os m v = record {
  routed =
      IsRouted-names m.pools (refresh_pools os 0 m.pools)
        (λ key. contains_key-refresh_pools key os 0 m.pools) m.routing_table v.routed;
  ready = refresh_pools-IsReady os 0 m.pools v.ready;
}

module _ {F V : Type 0} where
  -- The health check answers 200 exactly when every worker of every pool has a child process, and 503
  -- exactly when some worker has none. It looks at the handle of the process only, whatever the system
  -- says of the process.
  pub health_handler_iff :
      (f : F64 F) (read : Reader) (now : ℕ) (os : ℕ → ℕ → Os) (st : AppState F V)
      → (((health_handler f read now os st).0.status_code ≡ 200) ↔ AllAlive st.pool_manager.pools)
        × (((health_handler f read now os st).0.status_code ≡ 503)
            ↔ (¬ AllAlive st.pool_manager.pools))
  unfolding health_handler
  health_handler_iff f read now os st =
      let ps = refresh_pools os 0 st.pool_manager.pools in
      let (go, back) = sum_of-AllAlive ps in
      let (strip, dress) = refresh_pools-AllAlive os 0 st.pool_manager.pools in
      elim (Bool-cases (sum_of alive_workers ps == sum_of length ps)) [
        | inl all ↦
            let alive = strip (go ((==_iff _ _).0 all)) in
            rw (all, health_handler)
              ((λ h. alive, λ h. refl), (λ h. absurd (ground (arith, h)), λ no. absurd (no alive)))
        | inr some_dead ↦
            let dead : ¬ AllAlive st.pool_manager.pools = λ alive. absurd (
              ground (
                arith,
                some_dead,
                back (dress alive),
                ==_iff (sum_of alive_workers ps) (sum_of length ps),
              )) in
            rw (some_dead, health_handler)
              (
                (λ h. absurd (ground (arith, h)), λ alive. absurd (dead alive)),
                (λ h. dead, λ no. refl),
              )
      ]
