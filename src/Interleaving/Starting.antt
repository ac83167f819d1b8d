-- ===== src/Interleaving/Starting.antt =====
-- The server at rest, as a state without requests of Interleaving.
use bakpia_run.Prelude.{
  ℕ, zero, suc, ◌+◌, ◌≤◌, ◌≡◌, refl, ap, ◌∙◌, arith, true, ◌||◌, List, [], ◌∷◌, ◌++◌, All,
  All-append, All-map, length, length-append,
}
use bakpia_run.Prelude.Maps.{contains_key}
use bakpia_run.Text.{Text, text_eq}
use bakpia_run.Text.Matching.{text_keys}
use bakpia_run.Routing.{RoutingRule}
use bakpia_run.Worker
use bakpia_run.Worker.{Worker}
use bakpia_run.Worker.Activity.{new-active}
use bakpia_run.WorkerPool.{WorkerPool}
use bakpia_run.App.{AppState}
use bakpia_run.App.Pools.{Each}
use bakpia_run.App.Serving.{IsQuiet, IsReady, IsServing}
use bakpia_run.Interleaving.{SharedPool}
use bakpia_run.Interleaving.Steps.{fresh_refs, System}
use bakpia_run.Interleaving.Counted.{AllBelow, IsUnused, fresh_refs-below}
use bakpia_run.Interleaving.Choosing.{IsRoutable, HasRefs, length-fresh_refs}

abbrev pub all_workers : List (Text × WorkerPool) → List Worker
all_workers [] = []
all_workers ((name, p) ∷ ps) = p.workers ++ all_workers ps

-- The workers are numbered through, pool by pool.
abbrev pub share_pools : ℕ → List (Text × WorkerPool) → List (Text × SharedPool)
share_pools next [] = []
share_pools next ((name, p) ∷ ps) =
    (
      name,
      record {
        refs = fresh_refs next (length p.workers);
        config = p.config;
        current_index = p.current_index;
      },
    )
    ∷ share_pools (next + length p.workers) ps

-- The worker with a number, and an unused one for the numbers behind.
abbrev pub nth : List Worker → ℕ → Worker
nth [] j = Worker.new 0 [] 0
nth (w ∷ ws) zero = w
nth (w ∷ ws) (suc j) = nth ws j

abbrev pub share : {F V : Type 0} → AppState F V → System
share st = record {
  shared = record {
    pool_manager = record {
      pools = share_pools 0 st.pool_manager.pools;
      routing_table = st.pool_manager.routing_table;
    };
    store = nth (all_workers st.pool_manager.pools);
    next = length (all_workers st.pool_manager.pools);
    metrics = st.metrics;
  };
  requests = [];
}

nth-active :
    (ws : List Worker) (j : ℕ)
    → All (λ (w : Worker). w.active_requests ≡ 0) ws
    → (nth ws j).active_requests ≡ 0
nth-active [] j h = new-active 0 [] 0
nth-active (w ∷ ws) zero (h, hs) = h
nth-active (w ∷ ws) (suc j) (h, hs) = nth-active ws j hs

share_pools-below :
    (ps : List (Text × WorkerPool)) (next m : ℕ)
    → next + length (all_workers ps) ≤ m
    → Each (AllBelow m) (share_pools next ps)
share_pools-below [] next m h = tt
share_pools-below ((name, p) ∷ ps) next m h = (
  fresh_refs-below next (length p.workers) m
      (omega (arith, h, length-append p.workers (all_workers ps))),
  share_pools-below ps (next + length p.workers) m
      (omega (arith, h, length-append p.workers (all_workers ps))),
)

contains_key-share_pools :
    (key : Text) (ps : List (Text × WorkerPool)) (next : ℕ)
    → contains_key key (share_pools next ps) ≡ contains_key key ps
unfolding contains_key
contains_key-share_pools key [] next = refl
contains_key-share_pools key ((name, p) ∷ ps) next =
    ap (λ b. text_eq name key || b) (contains_key-share_pools key ps (next + length p.workers))

share_pools-filled :
    (ps : List (Text × WorkerPool)) (next : ℕ)
    → Each IsReady ps
    → Each HasRefs (share_pools next ps)
share_pools-filled [] next h = tt
share_pools-filled ((name, p) ∷ ps) next (h, hs) = (
  omega (arith, length-fresh_refs next (length p.workers), h.has_workers),
  share_pools-filled ps (next + length p.workers) hs,
)

all_workers-idle :
    (ps : List (Text × WorkerPool))
    → Each IsReady ps
    → All (λ (w : Worker). w.active_requests ≡ 0) (all_workers ps)
all_workers-idle [] h = tt
all_workers-idle ((name, p) ∷ ps) (h, hs) =
    All-append (λ (w : Worker). w.active_requests ≡ 0) p.workers (all_workers ps)
      (All-map IsQuiet {Q = λ (w : Worker). w.active_requests ≡ 0} (λ w q. q.no_requests) p.workers
        h.quiet)
      (all_workers-idle ps hs)

-- A server that is ready to serve, as it is after its start, has no request counted, and its routes
-- lead to pools with workers.
share-IsRoutable :
    {F V : Type 0} (st : AppState F V)
    → IsServing st.pool_manager
    → IsUnused (share st) × IsRoutable (share st).shared []
share-IsRoutable st v =
    let ps = st.pool_manager.pools in
    (
      record {
        no_requests = refl;
        idle = λ j. nth-active (all_workers ps) j (all_workers-idle ps v.ready);
        in_store = share_pools-below ps 0 (length (all_workers ps)) (omega arith);
      },
      record {
        routed =
            All-map (λ (r : RoutingRule). contains_key r.pool_name ps ≡ true)
              {Q = λ (r : RoutingRule). contains_key r.pool_name (share_pools 0 ps) ≡ true}
              (λ r h. contains_key-share_pools r.pool_name ps 0 ∙ h) st.pool_manager.routing_table
              v.routed;
        filled = share_pools-filled ps 0 v.ready;
        known = tt;
      },
    )
