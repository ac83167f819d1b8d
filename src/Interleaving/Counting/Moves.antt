-- ===== src/Interleaving/Counting/Moves.antt =====
-- What one step of a request does to the counters.

use bakpia_run.Prelude.{ℕ, ◌+◌, ◌<◌, ◌≤◌, ◌≡◌, ==_iff, refl, ap, arith, All}
use bakpia_run.Config.{Config}
use bakpia_run.Routing.{get_pool}
use bakpia_run.Worker.{Worker}
use bakpia_run.Worker.Activity.{graceful_recycle-active, ensure_running-active, update_stats-active}
use bakpia_run.Handler.Php.{Sent, answered, refused, timed_out}
use bakpia_run.App.Pools.{Each, get-Each, get_elem?-All}
use bakpia_run.Interleaving.{
  SharedPool, Shared, Pc, recorded, put, ended, Move, turn_away, route, choose, ensure,
  ensure_fails, unreadable, take, receive, record_answer, record_refusal, record_timeout,
  settle_within, settle_over, settle_refusal, settle_timeout, recycle, Leave, leave_named,
  leave_assigned, leave_prepared, leave_waiting, leave_received, leave_recorded, leave_refusal,
  leave_timeout, leave_recycle,
}
use bakpia_run.Interleaving.Counting.{
  counts, IsBelow, cut_recycle-active, cut_ensure-active, put-active, put-kept,
}

-- What a step does to the counters: worker `j` counts the request before as it did, and after as well.
pub record Counts (m : Shared) (p : Pc) (m' : Shared) (q : Pc) : Type 0 where
  pub same_next : m'.next ≡ m.next
  pub below : IsBelow m.next q
  pub counted :
      (j : ℕ) → (m'.store j).active_requests + counts j p ≡ (m.store j).active_requests + counts j q

-- A step of a request that leaves the store alone.
still-Counts :
    (m : Shared) (p q : Pc)
    → IsBelow m.next q
    → ((j : ℕ) → counts j p ≡ counts j q)
    → Counts m p m q
still-Counts m p q b same = record {
  same_next = refl;
  below = b;
  counted = λ j. ap (λ n. (m.store j).active_requests + n) (same j);
}

-- A step that changes a worker and neither starts nor ends a request with it.
kept-Counts :
    (m : Shared) (p q : Pc) (k : ℕ) (w : Worker)
    → IsBelow m.next q
    → ((j : ℕ) → counts j p ≡ counts j q)
    → w.active_requests ≡ (m.store k).active_requests
    → Counts m p (put m k w) q
kept-Counts m p q k w b same h = record {
  same_next = refl;
  below = b;
  counted = λ j. omega (arith, same j, put-kept m k w h j);
}

counts-here :
    (m : Shared) (k : ℕ) (c : Config) (sent : Sent)
    → ((j : ℕ) → counts j (recorded k c sent) ≤ (m.store j).active_requests)
    → 1 ≤ (m.store k).active_requests
counts-here m k c sent h = ground (arith, h k, ==_iff k k)

-- A step that ends a request with worker `k`.
ended-Counts :
    (m : Shared) (c : Config) (sent : Sent) (q : Pc) (k : ℕ) (w : Worker)
    → IsBelow m.next q
    → ((j : ℕ) → counts j q ≡ 0)
    → ((j : ℕ) → counts j (recorded k c sent) ≤ (m.store j).active_requests)
    → w.active_requests ≡ (ended (m.store k)).active_requests
    → Counts m (recorded k c sent) (put m k w) q
ended-Counts m c sent q k w b none_after le h = record {
  same_next = refl;
  below = b;
  counted = λ j.
      ground
        (arith, none_after j, put-active m k w 1 0 (omega (arith, h, counts-here m k c sent le)) j);
}

pub Move-Counts :
    {m m' : Shared} {p q : Pc}
    → Move m p m' q
    → IsBelow m.next p
    → Each (λ (s : SharedPool). All (λ k. k < m.next) s.refs) m.pool_manager.pools
    → ((j : ℕ) → counts j p ≤ (m.store j).active_requests)
    → Counts m p m' q
unfolding get_pool
Move-Counts {m} turn_away b refs le = still-Counts m _ _ tt (λ j. refl)
Move-Counts {m} (route path headers name e) b refs le = still-Counts m _ _ tt (λ j. refl)
Move-Counts {m} (choose locked p i k {name} there chosen at) b refs le = record {
  same_next = refl;
  below =
      get_elem?-All (λ k. k < m.next) p.refs i k
        (get-Each (λ (s : SharedPool). All (λ k. k < m.next) s.refs) name p m.pool_manager.pools
          refs there)
        at;
  counted = λ j. refl;
}
Move-Counts {m} (ensure os {i} {k} {c} e) b refs le =
    kept-Counts m _ _ k _ b (λ j. refl) (ensure_running-active os c (m.store k))
Move-Counts {m} (ensure_fails os e {i} {k} {c} h) b refs le =
    kept-Counts m _ _ k _ tt (λ j. refl) (ensure_running-active os c (m.store k))
Move-Counts {m} unreadable b refs le = still-Counts m _ _ tt (λ j. refl)
Move-Counts {m} (take {i} {k} {c}) b refs le = record {
  same_next = refl;
  below = b;
  counted = λ j. ground (
    arith,
    put-active m k (record (m.store k) { active_requests = (m.store k).active_requests + 1 }) 0 1
        (omega arith) j,
  );
}
Move-Counts {m} (receive sent) b refs le = still-Counts m _ _ b (λ j. refl)
Move-Counts record_answer b refs le = record { same_next = refl; below = b; counted = λ j. refl }
Move-Counts record_refusal b refs le = record { same_next = refl; below = b; counted = λ j. refl }
Move-Counts record_timeout b refs le = record { same_next = refl; below = b; counted = λ j. refl }
Move-Counts {m} (settle_within os {k} {c} {php} within) b refs le =
    ended-Counts m c (answered php) _ k _ tt (λ j. refl) le
      (update_stats-active os php.memory php.peak (ended (m.store k)))
Move-Counts {m} (settle_over os reason {k} {c} {php} over) b refs le =
    ended-Counts m c (answered php) _ k _ b (λ j. refl) le
      (update_stats-active os php.memory php.peak (ended (m.store k)))
Move-Counts {m} (settle_refusal os {k} {c} {e}) b refs le =
    ended-Counts m c (refused e) _ k _ tt (λ j. refl) le
      (ensure_running-active os c (ended (m.store k)))
Move-Counts {m} (settle_timeout os {k} {c}) b refs le =
    ended-Counts m c timed_out _ k _ tt (λ j. refl) le
      (graceful_recycle-active os c (ended (m.store k)))
Move-Counts {m} (recycle os {k} {c}) b refs le =
    kept-Counts m _ _ k _ tt (λ j. refl) (graceful_recycle-active os c (m.store k))

pub Leave-Counts :
    {m m' : Shared} {p q : Pc}
    → Leave m p m' q
    → IsBelow m.next p
    → ((j : ℕ) → counts j p ≤ (m.store j).active_requests)
    → Counts m p m' q
Leave-Counts {m} leave_named b le = still-Counts m _ _ tt (λ j. refl)
Leave-Counts {m} (leave_assigned checked cut {i} {k} {c}) b le =
    kept-Counts m _ _ k _ tt (λ j. refl) (cut_ensure-active checked cut (m.store k))
Leave-Counts {m} leave_prepared b le = still-Counts m _ _ tt (λ j. refl)
Leave-Counts {m} leave_waiting b le = still-Counts m _ _ b (λ j. refl)
Leave-Counts {m} leave_received b le = still-Counts m _ _ b (λ j. refl)
Leave-Counts {m} leave_recorded b le = still-Counts m _ _ b (λ j. refl)
Leave-Counts {m} (leave_refusal checked cut {k} {c} {e}) b le =
    ended-Counts m c (refused e) _ k _ tt (λ j. refl) le
      (cut_ensure-active checked cut (ended (m.store k)))
Leave-Counts {m} (leave_timeout cut {k} {c}) b le =
    ended-Counts m c timed_out _ k _ tt (λ j. refl) le (cut_recycle-active cut (ended (m.store k)))
Leave-Counts {m} (leave_recycle cut {k} {c}) b le =
    kept-Counts m _ _ k _ tt (λ j. refl) (cut_recycle-active cut (m.store k))
