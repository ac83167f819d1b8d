-- ===== src/Interleaving/Choosing.antt =====
-- handlers.rs: the `unwrap` on the pool, and `get_next_worker`, with many requests at once.
use mathlib.Core.Path.{subst}
use bakpia_run.Prelude.{
  ℕ, zero, suc, ◌≤◌, ◌<◌, ◌≡◌, refl, sym, ap, inl, inr, arith, Bool, some, List, [], ◌∷◌, ◌++◌, All,
  All-append, All-split, All-map, length, length-map, get_elem?,
}
use bakpia_run.Prelude.Maps.{contains_key-get}
use bakpia_run.Text.{Text}
use bakpia_run.Text.Matching.{text_keys}
use bakpia_run.Config.{Config}
use bakpia_run.Routing.{PoolManager, get_pool, update_routing_table}
use bakpia_run.Routing.Starting.{insert-All}
use bakpia_run.Routing.Choice.{IsRouted, update_routing_table-IsRouted}
use bakpia_run.WorkerPool.{get_next_worker}
use bakpia_run.WorkerPool.Choice.{get_next_worker-bounds}
use bakpia_run.App.Pools.{Each, get-Each, get_elem?-lt}
use bakpia_run.Interleaving.{
  SharedPool, Shared, Pc, arrived, named, assigned, prepared, waiting, received, recorded,
  over_limit, finished, abandoned, view, put_pool,
}
use bakpia_run.Interleaving.Steps.{
  fresh_refs, System, Step, arrive, pick, leave, tend, retable, reconfigure, repopulate, Reach,
  here, later,
}
use bakpia_run.Interleaving.Counted.{Move-Each, Leave-pools}
use bakpia_run.Interleaving.Routes.{
  Keeps, same-Keeps, put_pool-Keeps, Move-Keeps, IsNamed, IsNamed-Keeps, Move-IsNamed,
  Leave-IsNamed, IsRouted-Keeps,
}

abbrev pub HasRefs : SharedPool → Type 0
HasRefs s = 1 ≤ length s.refs

-- Every rule leads to a pool that is there, every pool has a worker, and every request that has the
-- name of a pool has the name of one that is there.
pub record IsRoutable (m : Shared) (requests : List Pc) : Type 0 where
  pub routed : IsRouted m.pool_manager
  pub filled : Each HasRefs m.pool_manager.pools
  pub known : All (IsNamed m.pool_manager) requests

-- A change of the pools that leaves the names, and the requests alone.
Keeps-IsRoutable :
    {m m' : Shared} (requests : List Pc)
    → Keeps m m'
    → Each HasRefs m'.pool_manager.pools
    → IsRoutable m requests
    → IsRoutable m' requests
Keeps-IsRoutable {m} {m'} requests keeps filled v = record {
  routed = IsRouted-Keeps keeps v.routed;
  filled = filled;
  known =
      All-map (IsNamed m.pool_manager) {Q = IsNamed m'.pool_manager} (IsNamed-Keeps keeps) requests
        v.known;
}

-- One request among the others goes a step.
one-IsRoutable :
    {m m' : Shared} (p q : Pc) (before after : List Pc)
    → Keeps m m'
    → Each HasRefs m'.pool_manager.pools
    → IsNamed m.pool_manager q
    → IsRoutable m (before ++ (p ∷ after))
    → IsRoutable m' (before ++ (q ∷ after))
one-IsRoutable {m} {m'} p q before after keeps filled fits v =
    let (b, old, a) = All-split (IsNamed m.pool_manager) before p after v.known in
    Keeps-IsRoutable (before ++ (q ∷ after)) keeps filled (record {
      routed = v.routed;
      filled = v.filled;
      known = All-append (IsNamed m.pool_manager) before (q ∷ after) b (fits, a);
    })

pub length-fresh_refs : (next count : ℕ) → length (fresh_refs next count) ≡ count
unfolding fresh_refs
length-fresh_refs next zero = refl
length-fresh_refs next (suc count) = ap suc (length-fresh_refs (suc next) count)

put_pool-IsRoutable :
    (m : Shared) (requests : List Pc) (name : Text) (p q : SharedPool)
    → get_pool m.pool_manager name ≡ some p
    → HasRefs q
    → IsRoutable m requests
    → IsRoutable (put_pool m name q) requests
put_pool-IsRoutable m requests name p q there full v =
    Keeps-IsRoutable requests (put_pool-Keeps m name p q there)
      (insert-All HasRefs name q m.pool_manager.pools full v.filled) v

IsNamed-retable :
    (pm : PoolManager SharedPool) (c : Config) (p : Pc)
    → IsNamed pm p
    → IsNamed (update_routing_table pm c) p
unfolding update_routing_table
IsNamed-retable pm c (named name) h = h
IsNamed-retable pm c arrived h = tt
IsNamed-retable pm c (assigned i k d) h = tt
IsNamed-retable pm c (prepared i k d) h = tt
IsNamed-retable pm c (waiting i k d) h = tt
IsNamed-retable pm c (received i k d sent) h = tt
IsNamed-retable pm c (recorded k d sent) h = tt
IsNamed-retable pm c (over_limit k d) h = tt
IsNamed-retable pm c (finished e) h = tt
IsNamed-retable pm c (abandoned k e) h = tt

Step-IsRoutable :
    {Loads : Config → Type 0} {s t : System}
    → Step Loads s t
    → ((c : Config) → Loads c → 1 ≤ c.php.worker_count)
    → IsRoutable s.shared s.requests
    → IsRoutable t.shared t.requests
unfolding get_pool update_routing_table
Step-IsRoutable {s} arrive filled v = record {
  routed = v.routed;
  filled = v.filled;
  known = All-append (IsNamed s.shared.pool_manager) s.requests (arrived ∷ []) v.known (tt, tt);
}
Step-IsRoutable {s} (pick before after split move) filled v =
    let w = subst (IsRoutable s.shared) split v in
    one-IsRoutable _ _ before after (Move-Keeps move)
      (Move-Each (λ ks. 1 ≤ length ks) move w.filled) (Move-IsNamed move w.routed) w
Step-IsRoutable {s} (leave before after split left) filled v =
    let w = subst (IsRoutable s.shared) split v in
    one-IsRoutable _ _ before after (same-Keeps (Leave-pools left))
      (subst (λ pm. Each HasRefs pm.pools) (sym (Leave-pools left)) w.filled) (Leave-IsNamed left) w
Step-IsRoutable (tend k u) filled v = record {
  routed = v.routed;
  filled = v.filled;
  known = v.known;
}
Step-IsRoutable {s} (retable c) filled v = record {
  routed = update_routing_table-IsRouted s.shared.pool_manager c;
  filled = v.filled;
  known =
      All-map (IsNamed s.shared.pool_manager) (IsNamed-retable s.shared.pool_manager c) s.requests
        v.known;
}
Step-IsRoutable {s} (reconfigure name c p there) filled v =
    put_pool-IsRoutable s.shared s.requests name p _ there
      (get-Each HasRefs name p s.shared.pool_manager.pools v.filled there) v
Step-IsRoutable {s} (repopulate name c p there changed loads) filled v =
    let w =
      put_pool-IsRoutable s.shared s.requests name p
        (record p { refs = fresh_refs s.shared.next c.php.worker_count; config = c }) there
        (omega (arith, length-fresh_refs s.shared.next c.php.worker_count, filled c loads)) v in
    record { routed = w.routed; filled = w.filled; known = w.known }

Reach-IsRoutable :
    {Loads : Config → Type 0} {s t : System}
    → Reach Loads s t
    → ((c : Config) → Loads c → 1 ≤ c.php.worker_count)
    → IsRoutable s.shared s.requests
    → IsRoutable t.shared t.requests
Reach-IsRoutable here filled v = v
Reach-IsRoutable (later before step) filled v =
    Step-IsRoutable step filled (Reach-IsRoutable before filled v)

chooses :
    (locked : ℕ → ℕ → Bool) (m : Shared) (p : SharedPool)
    → 1 ≤ length p.refs
    → (i : ℕ) × ((get_next_worker locked (view m p)).0 ≡ some i) × (i < length p.refs)
chooses locked m p full = elim (get_next_worker-bounds locked (view m p)).0 [
  | inl (panic, empty) ↦ absurd (omega (arith, length-map p.refs m.store, empty, full))
  | inr (i, chosen, inside) ↦ (i, chosen, omega (arith, length-map p.refs m.store, inside))
]

-- From a state in which every rule leads to a pool and every pool has a worker, and as long as no
-- reload leaves a pool without workers: a request that has been given the name of a pool can choose a
-- worker. However requests, departures of clients, the monitor and reloads come between, there is a
-- pool of this name, and whatever workers of it are locked, `get_next_worker` answers with the index
-- of one of them.
pub Reach-chooses :
    {Loads : Config → Type 0} {s t : System} (before after : List Pc) (name : Text)
    (locked : ℕ → ℕ → Bool)
    → ((c : Config) → Loads c → 1 ≤ c.php.worker_count)
    → IsRoutable s.shared s.requests
    → Reach Loads s t
    → t.requests ≡ before ++ (named name ∷ after)
    → (p : SharedPool) × (i : ℕ) × (k : ℕ) × (get_pool t.shared.pool_manager name ≡ some p)
      × ((get_next_worker locked (view t.shared p)).0 ≡ some i)
      × (get_elem? p.refs i ≡ some k)
unfolding get_pool
Reach-chooses {s} {t} before after name locked filled v run at =
    let w = subst (IsRoutable t.shared) at (Reach-IsRoutable run filled v) in
    let (b, known, a) =
      All-split (IsNamed t.shared.pool_manager) before (named name) after w.known in
    let (p, there) = contains_key-get name t.shared.pool_manager.pools known in
    let full : 1 ≤ length p.refs =
      get-Each HasRefs name p t.shared.pool_manager.pools w.filled there in
    let (i, chosen, inside) = chooses locked t.shared p full in
    let (k, ref) = get_elem?-lt p.refs i inside in (p, i, k, there, chosen, ref)
