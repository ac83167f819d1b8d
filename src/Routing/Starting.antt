-- ===== src/Routing/Starting.antt =====
-- src-server/src/pool_manager.rs: what holds of every pool that `PoolManager::new` puts in the manager.
use bakpia_run.Prelude.{◌≡◌, inl, inr, Bool-cases, Option-cases, Option, some, List, [], ◌∷◌, All}
use bakpia_run.Prelude.Maps.{insert}
use bakpia_run.Text.{Text, text_eq}
use bakpia_run.Text.Matching.{text_keys}
use bakpia_run.Config.{Config, PoolConfig}
use bakpia_run.Routing.{PoolManager, build_pool_config, new, add_pool, add_pools}

module _ {Pool : Type 0} (P : Pool → Type 0) where
  pub insert-All :
      (k : Text) (pool : Pool) (m : List (Text × Pool))
      → P pool
      → All (λ (np : Text × Pool). P np.1) m
      → All (λ (np : Text × Pool). P np.1) (insert k pool m)
  unfolding insert
  insert-All k pool [] hp h = (hp, tt)
  insert-All k pool ((j, q) ∷ m) hp (hq, h) = elim (Bool-cases (text_eq j k)) [
    | inl same ↦ rw same (hp, h)
    | inr other ↦ rw other (hq, insert-All k pool m hp h)
  ]

  module _ (start : Config → PoolConfig → Option Pool) (c : Config) where
    -- A pool that starts has the property.
    abbrev pub StartsWell : PoolConfig → Type 0
    StartsWell p = (pool : Pool) → start (build_pool_config c p) p ≡ some pool → P pool

    add_pool-All :
        (m : PoolManager Pool) (p : PoolConfig)
        → StartsWell p
        → All (λ (np : Text × Pool). P np.1) m.pools
        → All (λ (np : Text × Pool). P np.1) (add_pool start c m p).pools
    unfolding add_pool
    add_pool-All m p well h = elim (Option-cases (start (build_pool_config c p) p)) [
      | inl fails ↦ rw (fails, add_pool) h
      | inr (pool, starts) ↦
          rw (starts, add_pool) (insert-All p.name pool m.pools (well pool starts) h)
    ]

    add_pools-All :
        (m : PoolManager Pool) (ps : List PoolConfig)
        → All StartsWell ps
        → All (λ (np : Text × Pool). P np.1) m.pools
        → All (λ (np : Text × Pool). P np.1) (add_pools start c m ps).pools
    unfolding add_pools
    add_pools-All m [] well h = h
    add_pools-All m (p ∷ ps) (wp, well) h =
        add_pools-All (add_pool start c m p) ps well (add_pool-All m p wp h)

    pub new-All : All StartsWell c.pools → All (λ (np : Text × Pool). P np.1) (new start c).pools
    unfolding new
    new-All well = add_pools-All (record { pools = []; routing_table = [] }) c.pools well tt
