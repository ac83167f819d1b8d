-- ===== src/AntiOom/Round.antt =====
-- src-server/src/anti_oom.rs: what a round of the monitor keeps, and which worker it recycles for the
-- container.
use bakpia_run.Prelude.{
  ℕ, zero, suc, ◌≡◌, refl, ap, ◌∙◌, inl, inr, Bool, ◌||◌, Bool-cases, Option-cases, Option, none,
  List, [], ◌∷◌, length, All,
}
use bakpia_run.Float.{F64}
use bakpia_run.Prelude.Maps.{contains_key}
use bakpia_run.Text.{Text, text_eq}
use bakpia_run.Text.Matching.{text_keys}
use bakpia_run.Routing.{PoolManager}
use bakpia_run.Config.{Config}
use bakpia_run.Worker.{Worker, Os, refresh_proc_memory, should_restart}
use bakpia_run.WorkerPool.{WorkerPool}
use bakpia_run.App.Pools.{Each, IsRouted-names}
use bakpia_run.App.Serving.{IsQuiet, IsReady, IsServing, graceful_recycle-IsQuiet, refresh-IsQuiet}
use bakpia_run.AntiOom.{
  Reader, Candidate, inspect, inspect_workers, inspect_pools, modify_at, recycle_candidate,
  monitor_round, cgroup_pressure,
}

inspect-IsQuiet : (os : Os) (c : Config) (w : Worker) → IsQuiet w → IsQuiet (inspect os c w).0
unfolding inspect
inspect-IsQuiet os c w v =
    let refreshed = refresh_proc_memory os w in
    let quiet = refresh-IsQuiet os w v in
    elim (Option-cases (should_restart c refreshed)) [
      | inl stays ↦ rw (stays, inspect) quiet
      | inr (reason, goes) ↦ rw (goes, inspect) (graceful_recycle-IsQuiet os c refreshed quiet)
    ]

inspect_workers-IsQuiet :
    (os : ℕ → Os) (pressure : Bool) (k : ℕ) (c : Config) (i : ℕ) (ws : List Worker)
    (best : Option Candidate)
    → All IsQuiet ws
    → All IsQuiet (inspect_workers os pressure k c i ws best).0
unfolding inspect_workers
inspect_workers-IsQuiet os pressure k c i [] best h = h
inspect_workers-IsQuiet os pressure k c i (w ∷ ws) best (hw, h) =
    (inspect-IsQuiet (os i) c w hw, inspect_workers-IsQuiet os pressure k c (suc i) ws _ h)

length-inspect_workers :
    (os : ℕ → Os) (pressure : Bool) (k : ℕ) (c : Config) (i : ℕ) (ws : List Worker)
    (best : Option Candidate)
    → length (inspect_workers os pressure k c i ws best).0 ≡ length ws
unfolding inspect_workers
length-inspect_workers os pressure k c i [] best = refl
length-inspect_workers os pressure k c i (w ∷ ws) best =
    ap suc (length-inspect_workers os pressure k c (suc i) ws _)

inspect_pools-IsReady :
    (os : ℕ → ℕ → Os) (pressure : Bool) (k : ℕ) (ps : List (Text × WorkerPool))
    (best : Option Candidate)
    → Each IsReady ps
    → Each IsReady (inspect_pools os pressure k ps best).0
unfolding inspect_pools
inspect_pools-IsReady os pressure k [] best h = h
inspect_pools-IsReady os pressure k ((name, p) ∷ ps) best (hp, h) = (
  record {
    has_workers =
        rw (length-inspect_workers (os k) pressure k p.config 0 p.workers best) hp.has_workers;
    quiet = inspect_workers-IsQuiet (os k) pressure k p.config 0 p.workers best hp.quiet;
  },
  inspect_pools-IsReady os pressure (suc k) ps _ h,
)

modify_at-All {ℓ} :
    {A : Type ℓ} (P : A → Type 0) (n : ℕ) (f : A → A) (xs : List A)
    → ((x : A) → P x → P (f x))
    → All P xs
    → All P (modify_at n f xs)
modify_at-All P n f [] keep h = h
modify_at-All P zero f (x ∷ xs) keep (hx, h) = (keep x hx, h)
modify_at-All P (suc n) f (x ∷ xs) keep (hx, h) = (hx, modify_at-All P n f xs keep h)

length-modify_at :
    (n : ℕ) (f : Worker → Worker) (ws : List Worker) → length (modify_at n f ws) ≡ length ws
length-modify_at n f [] = refl
length-modify_at zero f (w ∷ ws) = refl
length-modify_at (suc n) f (w ∷ ws) = ap suc (length-modify_at n f ws)

recycle_candidate-IsReady :
    (os : Os) (b : Candidate) (ps : List (Text × WorkerPool))
    → Each IsReady ps
    → Each IsReady (recycle_candidate os b ps)
unfolding recycle_candidate
recycle_candidate-IsReady os b ps h =
    modify_at-All (λ (np : Text × WorkerPool). IsReady np.1) b.pool _ ps
      (λ np v. record {
        has_workers = rw (length-modify_at b.index _ np.1.workers) v.has_workers;
        quiet =
            modify_at-All IsQuiet b.index _ np.1.workers
              (λ w q. graceful_recycle-IsQuiet os b.config w q) v.quiet;
      })
      h

-- The names of the pools stay.
contains_key-inspect_pools :
    (key : Text) (os : ℕ → ℕ → Os) (pressure : Bool) (k : ℕ) (ps : List (Text × WorkerPool))
    (best : Option Candidate)
    → contains_key key (inspect_pools os pressure k ps best).0 ≡ contains_key key ps
unfolding inspect_pools contains_key
contains_key-inspect_pools key os pressure k [] best = refl
contains_key-inspect_pools key os pressure k ((name, p) ∷ ps) best =
    ap (λ b. text_eq name key || b) (contains_key-inspect_pools key os pressure (suc k) ps _)

contains_key-modify_at :
    (key : Text) (n : ℕ) (f : WorkerPool → WorkerPool) (ps : List (Text × WorkerPool))
    → contains_key key (modify_at n (λ (name, p). (name, f p)) ps) ≡ contains_key key ps
unfolding contains_key
contains_key-modify_at key n f [] = refl
contains_key-modify_at key zero f ((name, p) ∷ ps) = refl
contains_key-modify_at key (suc n) f ((name, p) ∷ ps) =
    ap (λ b. text_eq name key || b) (contains_key-modify_at key n f ps)

contains_key-recycle_candidate :
    (key : Text) (os : Os) (b : Candidate) (ps : List (Text × WorkerPool))
    → contains_key key (recycle_candidate os b ps) ≡ contains_key key ps
unfolding recycle_candidate
contains_key-recycle_candidate key os b ps = contains_key-modify_at key b.pool _ ps

module _ {F : Type 0} (f : F64 F) where
  monitor_round-IsReady :
      (read : Reader) (os : ℕ → ℕ → Os) (last_os : Os) (c : Config) (ps : List (Text × WorkerPool))
      → Each IsReady ps
      → Each IsReady (monitor_round f read os last_os c ps)
  unfolding monitor_round
  monitor_round-IsReady read os last_os c ps h =
      let pressure = cgroup_pressure f read c in
      let inspected = inspect_pools-IsReady os pressure 0 ps none h in
      elim (Bool-cases c.anti_oom.enabled) [
        | inr off ↦ rw (off, monitor_round) h
        | inl on ↦ elim (Option-cases (inspect_pools os pressure 0 ps none).1) [
          | inl nobody ↦ rw (on, nobody, monitor_round) inspected
          | inr (b, heaviest) ↦
              rw (on, heaviest, monitor_round) (recycle_candidate-IsReady last_os b _ inspected)
        ]
      ]

  monitor_round-contains_key :
      (key : Text) (read : Reader) (os : ℕ → ℕ → Os) (last_os : Os) (c : Config)
      (ps : List (Text × WorkerPool))
      → contains_key key (monitor_round f read os last_os c ps) ≡ contains_key key ps
  unfolding monitor_round
  monitor_round-contains_key key read os last_os c ps =
      let pressure = cgroup_pressure f read c in
      let same = contains_key-inspect_pools key os pressure 0 ps none in
      elim (Bool-cases c.anti_oom.enabled) [
        | inr off ↦ rw (off, monitor_round) refl
        | inl on ↦ elim (Option-cases (inspect_pools os pressure 0 ps none).1) [
          | inl nobody ↦ rw (on, nobody, monitor_round) same
          | inr (b, heaviest) ↦
              rw (on, heaviest, monitor_round)
                (contains_key-recycle_candidate key last_os b _ ∙ same)
        ]
      ]

  pub monitor_round-IsServing :
      (read : Reader) (os : ℕ → ℕ → Os) (last_os : Os) (c : Config) (m : PoolManager WorkerPool)
      → IsServing m
      → IsServing (record m { pools = monitor_round f read os last_os c m.pools })
  monitor_round-IsServing read os last_os c m v = record {
    routed =
        IsRouted-names m.pools (monitor_round f read os last_os c m.pools)
          (λ key. monitor_round-contains_key key read os last_os c m.pools) m.routing_table
          v.routed;
    ready = monitor_round-IsReady read os last_os c m.pools v.ready;
  }
