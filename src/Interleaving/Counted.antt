-- ===== src/Interleaving/Counted.antt =====
-- In every state that the server reaches, each worker counts exactly the requests that are with it.
use mathlib.Core.Path.{subst}
use bakpia_run.Prelude.{
  ℕ, zero, suc, ◌+◌, ◌-◌, ◌<◌, ◌≤◌, ◌≡◌, refl, sym, ◌∙◌, inl, inr, arith, Bool-cases, List, [], ◌∷◌,
  ◌++◌, All, All-append, All-split, All-map, leb, ltb, ◌&&◌,
}
use bakpia_run.Text.{Text}
use bakpia_run.Config.{Config, get_worker_socket_path}
use bakpia_run.Routing.{get_pool, update_routing_table}
use bakpia_run.Routing.Starting.{insert-All}
use bakpia_run.Worker.Activity.{new-active}
use bakpia_run.App.Pools.{Each, get-Each}
use bakpia_run.Interleaving.{
  SharedPool, Shared, Pc, arrived, named, assigned, prepared, waiting, received, recorded,
  over_limit, finished, abandoned, Move, choose, Leave, tended, turn_away, route, ensure,
  ensure_fails, unreadable, take, receive, record_answer, record_refusal, record_timeout,
  settle_within, settle_over, settle_refusal, settle_timeout, recycle, leave_named, leave_assigned,
  leave_prepared, leave_waiting, leave_received, leave_recorded, leave_refusal, leave_timeout,
  leave_recycle,
}
use bakpia_run.Interleaving.Steps.{
  fresh_refs, renew, System, Step, arrive, pick, leave, tend, retable, reconfigure, repopulate,
  Reach, here, later,
}
use bakpia_run.Interleaving.Counting.{
  counts, in_flight, tally-append, in_flight-above, IsBelow, put-kept, tended-active,
}
use bakpia_run.Interleaving.Counting.Moves.{Counts, Move-Counts, Leave-Counts}

-- What holds of every pool's workers is kept by a step of a request.
module _ (P : List ℕ → Type 0) where
  pub Move-Each :
      {m m' : Shared} {p q : Pc}
      → Move m p m' q
      → Each (λ (s : SharedPool). P s.refs) m.pool_manager.pools
      → Each (λ (s : SharedPool). P s.refs) m'.pool_manager.pools
  unfolding get_pool
  Move-Each {m} (choose locked p i k {name} there chosen at) h =
      insert-All (λ (s : SharedPool). P s.refs) name _ m.pool_manager.pools
        (get-Each (λ (s : SharedPool). P s.refs) name p m.pool_manager.pools h there) h
  Move-Each turn_away h = h
  Move-Each (route path headers name e) h = h
  Move-Each (ensure os e) h = h
  Move-Each (ensure_fails os e f) h = h
  Move-Each unreadable h = h
  Move-Each take h = h
  Move-Each (receive sent) h = h
  Move-Each record_answer h = h
  Move-Each record_refusal h = h
  Move-Each record_timeout h = h
  Move-Each (settle_within os e) h = h
  Move-Each (settle_over os reason e) h = h
  Move-Each (settle_refusal os) h = h
  Move-Each (settle_timeout os) h = h
  Move-Each (recycle os) h = h

-- A step that leaves the pools alone.
pub Leave-pools : {m m' : Shared} {p q : Pc} → Leave m p m' q → m'.pool_manager ≡ m.pool_manager
Leave-pools leave_named = refl
Leave-pools (leave_assigned checked cut) = refl
Leave-pools leave_prepared = refl
Leave-pools leave_waiting = refl
Leave-pools leave_received = refl
Leave-pools leave_recorded = refl
Leave-pools (leave_refusal checked cut) = refl
Leave-pools (leave_timeout cut) = refl
Leave-pools (leave_recycle cut) = refl

abbrev pub AllBelow : ℕ → SharedPool → Type 0
AllBelow n s = All (λ k. k < n) s.refs

record IsCounted (m : Shared) (requests : List Pc) : Type 0 where
  counted : (j : ℕ) → (m.store j).active_requests ≡ in_flight j requests
  below : All (IsBelow m.next) requests
  refs : Each (AllBelow m.next) m.pool_manager.pools

-- The counters after one request among the others went a step.
Counts-IsCounted :
    {m m' : Shared} {p q : Pc} (before after : List Pc)
    → IsCounted m (before ++ (p ∷ after))
    → Counts m p m' q
    → Each (AllBelow m.next) m'.pool_manager.pools
    → IsCounted m' (before ++ (q ∷ after))
Counts-IsCounted {m} {m'} {p} {q} before after v c pools =
    let (b, bp, a) = All-split (IsBelow m.next) before p after v.below in
    record {
      counted = λ j. omega (
        arith,
        c.counted j,
        v.counted j,
        tally-append (counts j) before (p ∷ after),
        tally-append (counts j) before (q ∷ after),
      );
      below =
          subst (λ n. All (IsBelow n) (before ++ (q ∷ after))) (sym c.same_next)
            (All-append (IsBelow m.next) before (q ∷ after) b (c.below, a));
      refs = subst (λ n. Each (AllBelow n) m'.pool_manager.pools) (sym c.same_next) pools;
    }

counts-le :
    (m : Shared) (before : List Pc) (p : Pc) (after : List Pc)
    → IsCounted m (before ++ (p ∷ after))
    → (j : ℕ) → counts j p ≤ (m.store j).active_requests
counts-le m before p after v j =
    omega (arith, v.counted j, tally-append (counts j) before (p ∷ after))

pub fresh_refs-below :
    (next count m : ℕ) → next + count ≤ m → All (λ k. k < m) (fresh_refs next count)
unfolding fresh_refs
fresh_refs-below next zero m h = tt
fresh_refs-below next (suc count) m h =
    (omega (arith, h), fresh_refs-below (suc next) count m (omega (arith, h)))

pub fresh_refs-above : (next count : ℕ) → All (λ k. next ≤ k) (fresh_refs next count)
unfolding fresh_refs
fresh_refs-above next zero = tt
fresh_refs-above next (suc count) = (
  omega arith,
  All-map (λ k. suc next ≤ k) {Q = λ k. next ≤ k} (λ k le. omega (arith, le))
      (fresh_refs (suc next) count) (fresh_refs-above (suc next) count),
)

IsBelow-more : (n m : ℕ) → n ≤ m → (p : Pc) → IsBelow n p → IsBelow m p
IsBelow-more n m le (assigned i k c) h = omega (arith, le, h)
IsBelow-more n m le (prepared i k c) h = omega (arith, le, h)
IsBelow-more n m le (waiting i k c) h = omega (arith, le, h)
IsBelow-more n m le (received i k c sent) h = omega (arith, le, h)
IsBelow-more n m le (recorded k c sent) h = omega (arith, le, h)
IsBelow-more n m le (over_limit k c) h = omega (arith, le, h)
IsBelow-more n m le (abandoned k e) h = omega (arith, le, h)
IsBelow-more n m le arrived h = tt
IsBelow-more n m le (named name) h = tt
IsBelow-more n m le (finished e) h = tt

AllBelow-more : (n m : ℕ) → n ≤ m → (s : SharedPool) → AllBelow n s → AllBelow m s
AllBelow-more n m le s h =
    All-map (λ k. k < n) {Q = λ k. k < m} (λ k lt. omega (arith, le, lt)) s.refs h

-- A reload that gives a pool new workers: none of them counts a request, and no request is with them.
renew-IsCounted :
    (m : Shared) (requests : List Pc) (name : Text) (p : SharedPool) (c : Config)
    → IsCounted m requests
    → IsCounted (renew m name p c) requests
renew-IsCounted m requests name p c v = record {
  counted = λ j. elim (Bool-cases (leb m.next j && ltb j (m.next + c.php.worker_count))) [
    | inl new ↦ rw new (
        new-active (j - m.next) (get_worker_socket_path c (j - m.next)) c.php.connection_pool_size
        ∙ sym (in_flight-above m.next j requests (ground (arith, new)) v.below))
    | inr old ↦ rw old (v.counted j)
  ];
  below =
      All-map (IsBelow m.next) (IsBelow-more m.next (m.next + c.php.worker_count) (omega arith))
        requests v.below;
  refs =
      insert-All (AllBelow (m.next + c.php.worker_count)) name _ m.pool_manager.pools
        (fresh_refs-below m.next c.php.worker_count (m.next + c.php.worker_count) (omega arith))
        (All-map (λ (np : Text × SharedPool). AllBelow m.next np.1)
          (λ np h. AllBelow-more m.next (m.next + c.php.worker_count) (omega arith) np.1 h)
          m.pool_manager.pools v.refs);
}

Step-IsCounted :
    {Loads : Config → Type 0} {s t : System}
    → Step Loads s t
    → IsCounted s.shared s.requests
    → IsCounted t.shared t.requests
unfolding get_pool update_routing_table
Step-IsCounted {s} arrive v = record {
  counted = λ j. omega (arith, v.counted j, tally-append (counts j) s.requests (arrived ∷ []));
  below = All-append (IsBelow s.shared.next) s.requests (arrived ∷ []) v.below (tt, tt);
  refs = v.refs;
}
Step-IsCounted {s} (pick before after {p} split move) v =
    let w = subst (IsCounted s.shared) split v in
    let (b, bp, a) = All-split (IsBelow s.shared.next) before p after w.below in
    Counts-IsCounted before after w
      (Move-Counts move bp w.refs (counts-le s.shared before p after w))
      (Move-Each (λ ks. All (λ k. k < s.shared.next) ks) move w.refs)
Step-IsCounted {s} (leave before after {p} split left) v =
    let w = subst (IsCounted s.shared) split v in
    let (b, bp, a) = All-split (IsBelow s.shared.next) before p after w.below in
    Counts-IsCounted before after w (Leave-Counts left bp (counts-le s.shared before p after w))
      (subst (λ pm. Each (AllBelow s.shared.next) pm.pools) (sym (Leave-pools left)) w.refs)
Step-IsCounted {s} (tend k u) v = record {
  counted = λ j.
      put-kept s.shared k (tended u (s.shared.store k)) (tended-active u (s.shared.store k)) j
      ∙ v.counted j;
  below = v.below;
  refs = v.refs;
}
Step-IsCounted (retable c) v = record { counted = v.counted; below = v.below; refs = v.refs }
Step-IsCounted {s} (reconfigure name c p there) v = record {
  counted = v.counted;
  below = v.below;
  refs =
      insert-All (AllBelow s.shared.next) name _ s.shared.pool_manager.pools
        (get-Each (AllBelow s.shared.next) name p s.shared.pool_manager.pools v.refs there) v.refs;
}
Step-IsCounted {s} (repopulate name c p there changed loads) v =
    renew-IsCounted s.shared s.requests name p c v

-- A server before its first request.
pub record IsUnused (s : System) : Type 0 where
  pub no_requests : s.requests ≡ []
  pub idle : (j : ℕ) → (s.shared.store j).active_requests ≡ 0
  pub in_store : Each (AllBelow s.shared.next) s.shared.pool_manager.pools

IsUnused-IsCounted : (s : System) → IsUnused s → IsCounted s.shared s.requests
IsUnused-IsCounted s v =
    subst (IsCounted s.shared) (sym v.no_requests)
      (record { counted = v.idle; below = tt; refs = v.in_store })

Reach-IsCounted :
    {Loads : Config → Type 0} {s t : System}
    → Reach Loads s t
    → IsCounted s.shared s.requests
    → IsCounted t.shared t.requests
Reach-IsCounted here v = v
Reach-IsCounted (later before step) v = Step-IsCounted step (Reach-IsCounted before v)

-- From a server before its first request, however requests, departures of clients, the monitor and
-- reloads interleave, `active_requests` of each worker, also of one that a reload has taken out of its
-- pool, is the number of the requests that wait for that worker, or have its answer and have not yet
-- settled with it, or whose clients left meanwhile.
pub Reach-counted :
    {Loads : Config → Type 0} {s t : System} (j : ℕ)
    → IsUnused s
    → Reach Loads s t
    → (t.shared.store j).active_requests ≡ in_flight j t.requests
Reach-counted {s} j unused run = (Reach-IsCounted run (IsUnused-IsCounted s unused)).counted j
