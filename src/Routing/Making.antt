-- ===== src/Routing/Making.antt =====
-- src-server/src/pool_manager.rs: when `PoolManager::new` panics, and with which pools.
use bakpia_run.Prelude.{
  ◌≡◌, refl, arith, inl, inr, Bool, true, false, Bool-cases, Option, List, [], ◌∷◌, ◌++◌, All, ap,
}
use bakpia_run.Text.{Text}
use bakpia_run.Config.{Config, PoolConfig}
use bakpia_run.Routing.{
  PoolManager, build_pool_config, add_pool, add_pools, Made, made, panicked, make_pools, make,
}
use bakpia_run.Routing

-- The pool's own socket directory can be made, or cannot.
abbrev pub directory : (Text → Bool) → Config → PoolConfig → Bool
directory creates_dir c p = creates_dir (build_pool_config c p).socket_directory

module _ {ℓ} {Pool : Type ℓ} (creates_dir : Text → Bool) (start : Config → PoolConfig → Option Pool)
    (c : Config) where
  -- The pools before the first one whose directory cannot be made are started, and no later one.
  pub data MadeFrom (m : PoolManager Pool) (ps : List PoolConfig) : Made Pool → Type ℓ where
    all_made :
        All (λ p. directory creates_dir c p ≡ true) ps
        → MadeFrom m ps (made (add_pools start c m ps))
    stopped_at :
        (before : List PoolConfig) (p : PoolConfig) (later : List PoolConfig)
        → ps ≡ before ++ (p ∷ later)
        → All (λ q. directory creates_dir c q ≡ true) before
        → directory creates_dir c p ≡ false
        → MadeFrom m ps (panicked (add_pools start c m before))

  step-MadeFrom :
      (m : PoolManager Pool) (p : PoolConfig) (ps : List PoolConfig) (o : Made Pool)
      → directory creates_dir c p ≡ true
      → MadeFrom (add_pool start c m p) ps o
      → MadeFrom m (p ∷ ps) o
  unfolding add_pools
  step-MadeFrom m p ps _ fine (all_made rest) = all_made (fine, rest)
  step-MadeFrom m p ps _ fine (stopped_at before q later same ok fails) =
      stopped_at (p ∷ before) q later (ap (λ qs. p ∷ qs) same) (fine, ok) fails

  pub make_pools-MadeFrom :
      (m : PoolManager Pool) (ps : List PoolConfig)
      → MadeFrom m ps (make_pools creates_dir start c m ps)
  unfolding make_pools add_pools
  make_pools-MadeFrom m [] = all_made tt
  make_pools-MadeFrom m (p ∷ ps) = elim (Bool-cases (directory creates_dir c p)) [
    | inl fine ↦
        rw (fine, make_pools)
          (step-MadeFrom m p ps _ fine (make_pools-MadeFrom (add_pool start c m p) ps))
    | inr fails ↦ rw (fails, make_pools) (stopped_at [] p ps refl tt fails)
  ]

  abbrev pools_of : Made Pool → PoolManager Pool
  pools_of (made m) = m
  pools_of (panicked m) = m

  made_from :
      (start_with m : PoolManager Pool) (ps : List PoolConfig) (o : Made Pool)
      → MadeFrom start_with ps o
      → o ≡ made m
      → add_pools start c start_with ps ≡ m
  made_from start_with m ps _ (all_made fine) e = ap pools_of e
  made_from start_with m ps _ (stopped_at before p later same fine fails) e =
      absurd (ground (arith, e))

  -- Where it does not panic it makes the manager of all pools that start.
  pub make-new :
      (m : PoolManager Pool) → make creates_dir start c ≡ made m → Routing.new start c ≡ m
  unfolding make Routing.new
  make-new m e = made_from _ m c.pools _ (make_pools-MadeFrom _ c.pools) e
