-- ===== src/Interleaving/Counting.antt =====
-- The counters of the workers and the requests that they count.
pub mod Moves
use mathlib.Core.Path.{subst}
use bakpia_run.Prelude.{
  ℕ, zero, suc, ◌+◌, ◌-◌, ◌<◌, ◌≤◌, ◌≡◌, ◌==◌, ==_iff, refl, sym, ap, ◌∙◌, inl, inr, Bool, true,
  false, arith, Bool-cases, Option, none, some, List, [], ◌∷◌, ◌++◌, All, All-append, if◌then◌else◌,
  get_elem?, leb, ltb, ◌&&◌,
}
use bakpia_run.Text.{Text}
use bakpia_run.Config.{Config}
use bakpia_run.Routing.{get_pool}
use bakpia_run.Routing.Starting.{insert-All}
use bakpia_run.Worker
use bakpia_run.Worker.{
  Worker, Os, ensure_running, update_stats, graceful_recycle, start, stop, check_health,
}
use bakpia_run.Worker.Activity.{
  refresh-active, start-active, stop-active, graceful_recycle-active, replace_process-active,
  ensure_running-active, update_stats-active, new-active, check_health-active,
}
use bakpia_run.Handler.Php.{Sent}
use bakpia_run.App.Pools.{Each, get-Each}
use bakpia_run.Interleaving.{
  SharedPool, Shared, Ending, Pc, arrived, named, assigned, prepared, waiting, received, recorded,
  over_limit, finished, abandoned, view, put, put_pool, ended, Cut, in_wait, in_stop, in_start,
  cut_recycle, cut_ensure, Move, turn_away, route, choose, ensure, ensure_fails, unreadable, take,
  receive, record_answer, record_refusal, record_timeout, settle_within, settle_over,
  settle_refusal, settle_timeout, recycle, Leave, leave_named, leave_assigned, leave_prepared,
  leave_waiting, leave_received, leave_recorded, leave_refusal, leave_timeout, leave_recycle,
  Upkeep, refreshes, recycles, stops, starts, tended,
}
use bakpia_run.Interleaving.Steps.{
  fresh_refs, renew, System, Step, arrive, pick, leave, tend, retable, reconfigure, repopulate,
  Reach, here, later,
}

-- Whether a request is counted by worker `j`.
abbrev pub counts : ℕ → Pc → ℕ
counts j (waiting i k c) = if k == j then 1 else 0
counts j (received i k c sent) = if k == j then 1 else 0
counts j (recorded k c sent) = if k == j then 1 else 0
counts j (abandoned k e) = if k == j then 1 else 0
counts j arrived = 0
counts j (named name) = 0
counts j (assigned i k c) = 0
counts j (prepared i k c) = 0
counts j (over_limit k c) = 0
counts j (finished e) = 0

-- The sum of a number for each request.
abbrev pub tally : (Pc → ℕ) → List Pc → ℕ
tally f [] = 0
tally f (p ∷ ps) = f p + tally f ps

pub tally-append : (f : Pc → ℕ) (ps qs : List Pc) → tally f (ps ++ qs) ≡ tally f ps + tally f qs
tally-append f [] qs = omega arith
tally-append f (p ∷ ps) qs = omega (arith, tally-append f ps qs)

-- The requests that worker `j` counts.
abbrev pub in_flight : ℕ → List Pc → ℕ
in_flight j ps = tally (counts j) ps

-- A request's worker is in the store.
abbrev pub IsBelow : ℕ → Pc → Type 0
IsBelow n (assigned i k c) = k < n
IsBelow n (prepared i k c) = k < n
IsBelow n (waiting i k c) = k < n
IsBelow n (received i k c sent) = k < n
IsBelow n (recorded k c sent) = k < n
IsBelow n (over_limit k c) = k < n
IsBelow n (abandoned k e) = k < n
IsBelow n arrived = Unit {0}
IsBelow n (named name) = Unit {0}
IsBelow n (finished e) = Unit {0}

counts-above : (n j : ℕ) (p : Pc) → n ≤ j → IsBelow n p → counts j p ≡ 0
counts-above n j (waiting i k c) le h = ground (arith, le, h)
counts-above n j (received i k c sent) le h = ground (arith, le, h)
counts-above n j (recorded k c sent) le h = ground (arith, le, h)
counts-above n j (abandoned k e) le h = ground (arith, le, h)
counts-above n j arrived le h = refl
counts-above n j (named name) le h = refl
counts-above n j (assigned i k c) le h = refl
counts-above n j (prepared i k c) le h = refl
counts-above n j (over_limit k c) le h = refl
counts-above n j (finished e) le h = refl

pub in_flight-above : (n j : ℕ) (ps : List Pc) → n ≤ j → All (IsBelow n) ps → in_flight j ps ≡ 0
in_flight-above n j [] le h = refl
in_flight-above n j (p ∷ ps) le (hp, h) =
    omega (arith, counts-above n j p le hp, in_flight-above n j ps le h)

pub cut_recycle-active :
    (cut : Cut) (w : Worker) → (cut_recycle cut w).active_requests ≡ w.active_requests
cut_recycle-active in_wait w = refl
cut_recycle-active in_stop w = refl
cut_recycle-active (in_start os c) w = replace_process-active os c (record w { draining = true })

pub cut_ensure-active :
    (checked : Os) (cut : Cut) (w : Worker)
    → (cut_ensure checked cut w).active_requests ≡ w.active_requests
cut_ensure-active checked in_wait w = refl
cut_ensure-active checked in_stop w = check_health-active checked w
cut_ensure-active checked (in_start os c) w =
    start-active os c (stop (check_health checked w).0)
    ∙ stop-active (check_health checked w).0
    ∙ check_health-active checked w

pub tended-active : (u : Upkeep) (w : Worker) → (tended u w).active_requests ≡ w.active_requests
tended-active (refreshes os) w = refresh-active os w
tended-active (recycles os c) w = graceful_recycle-active os c w
tended-active stops w = stop-active w
tended-active (starts os c) w = start-active os c w

pub put-active :
    (m : Shared) (k : ℕ) (w : Worker) (a b : ℕ)
    → w.active_requests + a ≡ (m.store k).active_requests + b
    → (j : ℕ)
    → ((put m k w).store j).active_requests + (if k == j then a else 0)
      ≡ (m.store j).active_requests + (if k == j then b else 0)
put-active m k w a b h j = ground (arith, h, ==_iff k j, ==_iff j k)

pub put-kept :
    (m : Shared) (k : ℕ) (w : Worker)
    → w.active_requests ≡ (m.store k).active_requests
    → (j : ℕ) → ((put m k w).store j).active_requests ≡ (m.store j).active_requests
put-kept m k w h j = ground (arith, h, ==_iff j k)
