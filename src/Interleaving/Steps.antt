-- ===== src/Interleaving/Steps.antt =====
-- src-server/src/main.rs, handlers.rs and worker_pool.rs: the server as a whole with many requests, in
-- steps.
use bakpia_run.Prelude.{
  length, false, ◌==◌, ℕ, zero, suc, ◌+◌, ◌-◌, ◌≡◌, ◌&&◌, some, List, [], ◌∷◌, ◌++◌, ltb, leb,
  if◌then◌else◌,
}
use bakpia_run.Text.{Text}
use bakpia_run.Text.Matching.{text_keys}
use bakpia_run.Config.{Config, get_worker_socket_path}
use bakpia_run.Routing.{get_pool, update_routing_table}
use bakpia_run.Worker
use bakpia_run.Worker.{
  Worker, Os, Reason, start, stop, refresh_proc_memory, graceful_recycle, ensure_running,
  replace_process, should_restart, update_stats,
}
use bakpia_run.Interleaving.{
  SharedPool, Shared, Pc, put, put_pool, Move, Leave, Upkeep, tended, arrived,
}

-- The numbers of `count` new workers.
unfoldable pub fresh_refs : ℕ → ℕ → List ℕ
fresh_refs next zero = []
fresh_refs next (suc count) = next ∷ fresh_refs (suc next) count

-- A reload changes the number of a pool's workers: it gets new ones, the old ones stay in the store.
abbrev pub renew : Shared → Text → SharedPool → Config → Shared
renew s name p c =
    record (put_pool s name
      (record p { refs = fresh_refs s.next c.php.worker_count; config = c })) {
        store = λ j.
            if leb s.next j && ltb j (s.next + c.php.worker_count)
            then Worker.new (j - s.next) (get_worker_socket_path c (j - s.next))
                c.php.connection_pool_size
            else s.store j;
        next = s.next + c.php.worker_count;
      }

pub record System : Type 0 where
  pub shared : Shared
  pub requests : List Pc

-- One step of the server: a request arrives, one of them goes on or is left by its client, a worker is
-- tended, or a reload changes the routing table or a pool. `Loads` tells the configurations that a
-- reload gives to a pool whose number of workers it changes.
pub data Step (Loads : Config → Type 0) (s : System) : System → Type 0 where
  arrive : Step Loads s (record s { requests = s.requests ++ (arrived ∷ []) })
  pick :
      (before after : List Pc) {p q : Pc} {m : Shared}
      → s.requests ≡ before ++ (p ∷ after)
      → Move s.shared p m q
      → Step Loads s (record { shared = m; requests = before ++ (q ∷ after) })
  leave :
      (before after : List Pc) {p q : Pc} {m : Shared}
      → s.requests ≡ before ++ (p ∷ after)
      → Leave s.shared p m q
      → Step Loads s (record { shared = m; requests = before ++ (q ∷ after) })
  tend :
      (k : ℕ) (u : Upkeep)
      → Step Loads s (record s { shared = put s.shared k (tended u (s.shared.store k)) })
  retable :
      (c : Config)
      → Step Loads s (record s {
        shared = record (s.shared) { pool_manager = update_routing_table s.shared.pool_manager c };
      })
  reconfigure :
      (name : Text) (c : Config) (p : SharedPool)
      → get_pool s.shared.pool_manager name ≡ some p
      → Step Loads s (record s { shared = put_pool s.shared name (record p { config = c }) })
  repopulate :
      (name : Text) (c : Config) (p : SharedPool)
      → get_pool s.shared.pool_manager name ≡ some p
      → (length p.refs == c.php.worker_count) ≡ false
      → Loads c
      → Step Loads s (record s { shared = renew s.shared name p c })

pub data Reach (Loads : Config → Type 0) (s : System) : System → Type 0 where
  here : Reach Loads s s
  later : {t u : System} → Reach Loads s t → Step Loads t u → Reach Loads s u
