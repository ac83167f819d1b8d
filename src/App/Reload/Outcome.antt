-- ===== src/App/Reload/Outcome.antt =====
-- What a reload leaves behind.
use bakpia_run.Prelude.{
  ℕ, suc, ◌≡◌, refl, inl, inr, Option, none, some, List, [], ◌∷◌, arith, length, Option-cases,
}
use bakpia_run.Text.{Text}
use bakpia_run.Text.Matching.{text_keys}
use bakpia_run.Config.{Config, Env, apply_env_overrides, validate}
use bakpia_run.Prelude.Maps.{contains_key}
use bakpia_run.Routing.{update_routing_table}
use bakpia_run.Routing.Choice.{IsRouted, update_routing_table-IsRouted}
use bakpia_run.Worker.{Os}
use bakpia_run.WorkerPool.{WorkerPool}
use bakpia_run.WorkerPool.Starting.{Started, reload-Started}
use bakpia_run.App.{AppState}
use bakpia_run.App.Pools.{IsRouted-names}
use bakpia_run.App.Reload.{
  Loaded, loaded, unreadable, pool_specific_config, reload_pools, ReloadOutcome, load_failed,
  rejected, reloaded, install, reload_with,
}

-- The pools afterwards, next to the pools before and the results: the same names, each with the
-- configuration for its name and as many workers as that says, all running or with an error.
abbrev pub Follow :
    Config
    → List (Text × WorkerPool)
    → List (Text × WorkerPool)
    → List (Text × Option Text)
    → Type 0
Follow c [] [] [] = Unit {0}
Follow c ((name, p) ∷ ps) ((name', p') ∷ ps') ((n, error) ∷ rs) =
    (name' ≡ name)
    × (n ≡ name)
    × (p'.config ≡ pool_specific_config c name)
    × (length p'.workers ≡ (pool_specific_config c name).php.worker_count)
    × Started p'.workers error
    × Follow c ps ps' rs
Follow c [] [] (_ ∷ _) = ⊥
Follow c [] (_ ∷ _) _ = ⊥
Follow c (_ ∷ _) [] _ = ⊥
Follow c (_ ∷ _) (_ ∷ _) [] = ⊥

reload_pools-Follow :
    (os : ℕ → ℕ → Os) (c : Config) (k : ℕ) (ps : List (Text × WorkerPool))
    → Follow c ps (reload_pools os c k ps).0 (reload_pools os c k ps).1
unfolding reload_pools
reload_pools-Follow os c k [] = tt
reload_pools-Follow os c k ((name, p) ∷ ps) =
    let (started, count, config) = reload-Started (os k) (pool_specific_config c name) p in
    (refl, refl, config, count, started, reload_pools-Follow os c (suc k) ps)

contains_key-reload_pools :
    (os : ℕ → ℕ → Os) (c : Config) (k : ℕ) (ps : List (Text × WorkerPool)) (name : Text)
    → contains_key name (reload_pools os c k ps).0 ≡ contains_key name ps
unfolding reload_pools contains_key
contains_key-reload_pools os c k [] name = refl
contains_key-reload_pools os c k ((n, p) ∷ ps) name =
    ground (arith, contains_key-reload_pools os c (suc k) ps name)

-- What the outcome of a reload says of the state before and after it.
abbrev pub Reloads :
    {F V : Type 0} → Env → Loaded → ReloadOutcome → AppState F V → AppState F V → Type 0
Reloads env file (load_failed e) before after = (file ≡ unreadable e) × (after ≡ before)
Reloads env file (rejected e) before after =
    (c : Config) × (file ≡ loaded c)
    × (validate (apply_env_overrides env c) ≡ some e)
    × (after ≡ before)
Reloads env file (reloaded results) before after =
    (c : Config) × (file ≡ loaded c)
    × (after.config ≡ apply_env_overrides env c)
    × (validate after.config ≡ none)
    × Follow after.config before.pool_manager.pools after.pool_manager.pools results
    × IsRouted after.pool_manager

module _ {F V : Type 0} where
  pub install-IsRouted :
      (os : ℕ → ℕ → Os) (c : Config) (st : AppState F V) → IsRouted (install os c st).1.pool_manager
  unfolding install
  install-IsRouted os c st =
      let m = update_routing_table st.pool_manager c in
      IsRouted-names m.pools (reload_pools os c 0 m.pools).0
        (contains_key-reload_pools os c 0 m.pools) m.routing_table
        (update_routing_table-IsRouted st.pool_manager c)

  -- A reload whose file cannot be read, or whose configuration is rejected by the validation, changes
  -- nothing. Any other one stores the configuration with the overrides of the environment, gives
  -- every pool the configuration and the number of workers for its name, with all of them running
  -- unless that pool reports an error, and leaves a routing table that names existing pools only.
  pub reload_with-Reloads :
      (os : ℕ → ℕ → Os) (env : Env) (file : Loaded) (st : AppState F V)
      → Reloads env file (reload_with os env file st).0 st (reload_with os env file st).1
  unfolding reload_with
  reload_with-Reloads os env (unreadable e) st = (refl, refl)
  reload_with-Reloads os env (loaded c) st =
      elim (Option-cases (validate (apply_env_overrides env c))) [
        | inr (e, k) ↦ simp (k, reload_with) (c, refl, k, refl)
        | inl k ↦
            simp (k, reload_with)
              (unfold install update_routing_table in
                (
                  c,
                  refl,
                  refl,
                  k,
                  reload_pools-Follow os (apply_env_overrides env c) 0 st.pool_manager.pools,
                  install-IsRouted os (apply_env_overrides env c) st,
                ))
      ]
