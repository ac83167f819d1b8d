-- ===== src/Interleaving/Abandoned.antt =====
-- What is left behind by a client that leaves while a worker counts its request.

use bakpia_run.Prelude.{
  ℕ, ◌≤◌, ◌≡◌, ◌==◌, refl, ap, arith, false, some, All, List, [], ◌∷◌, ◌++◌, if◌then◌else◌,
}
use bakpia_run.Config.{Config}
use bakpia_run.Worker.{Worker, Child, Os, graceful_recycle}
use bakpia_run.Worker.Lifecycle.{Event, history}
use bakpia_run.Worker.Lifecycle.Stuck.{IsRoutine, history-IsStuck, graceful_recycle-draining}
use bakpia_run.WorkerPool.{is_free}
use bakpia_run.Worker.Waiting.{graceful_recycle_waits}
use bakpia_run.Interleaving.{
  Shared, Pc, arrived, named, assigned, prepared, waiting, received, recorded, over_limit, finished,
  abandoned, in_wait, cut_recycle, Move, turn_away, route, choose, ensure, ensure_fails, unreadable,
  take, receive, record_answer, record_refusal, record_timeout, settle_within, settle_over,
  settle_refusal, settle_timeout, recycle, Leave, leave_named, leave_assigned, leave_prepared,
  leave_waiting, leave_received, leave_recorded, leave_refusal, leave_timeout, leave_recycle,
}
use bakpia_run.Interleaving.Steps.{
  System, Step, arrive, pick, leave, tend, retable, reconfigure, repopulate, Reach, here, later,
}
use bakpia_run.Interleaving.Counting.{counts, tally, tally-append, in_flight}
use bakpia_run.Interleaving.Counted.{IsUnused, Reach-counted}

-- Whether a request was left by its client while worker `j` counted it.
abbrev pub is_left : ℕ → Pc → ℕ
is_left j (abandoned k e) = if k == j then 1 else 0
is_left j arrived = 0
is_left j (named name) = 0
is_left j (assigned i k c) = 0
is_left j (prepared i k c) = 0
is_left j (waiting i k c) = 0
is_left j (received i k c sent) = 0
is_left j (recorded k c sent) = 0
is_left j (over_limit k c) = 0
is_left j (finished e) = 0

is_left-counts : (j : ℕ) (p : Pc) → is_left j p ≤ counts j p
is_left-counts j (abandoned k e) = omega arith
is_left-counts j arrived = omega arith
is_left-counts j (named name) = omega arith
is_left-counts j (assigned i k c) = omega arith
is_left-counts j (prepared i k c) = omega arith
is_left-counts j (waiting i k c) = omega arith
is_left-counts j (received i k c sent) = omega arith
is_left-counts j (recorded k c sent) = omega arith
is_left-counts j (over_limit k c) = omega arith
is_left-counts j (finished e) = omega arith

left-in_flight : (j : ℕ) (ps : List Pc) → tally (is_left j) ps ≤ in_flight j ps
left-in_flight j [] = omega arith
left-in_flight j (p ∷ ps) = omega (arith, is_left-counts j p, left-in_flight j ps)

-- A request that a step takes on was not left before.
Move-left : {m m' : Shared} {p q : Pc} (j : ℕ) → Move m p m' q → is_left j p ≡ 0
Move-left j turn_away = refl
Move-left j (route path headers name e) = refl
Move-left j (choose locked p i k there chosen at) = refl
Move-left j (ensure os e) = refl
Move-left j (ensure_fails os e f) = refl
Move-left j unreadable = refl
Move-left j take = refl
Move-left j (receive sent) = refl
Move-left j record_answer = refl
Move-left j record_refusal = refl
Move-left j record_timeout = refl
Move-left j (settle_within os e) = refl
Move-left j (settle_over os reason e) = refl
Move-left j (settle_refusal os) = refl
Move-left j (settle_timeout os) = refl
Move-left j (recycle os) = refl

Leave-left : {m m' : Shared} {p q : Pc} (j : ℕ) → Leave m p m' q → is_left j p ≡ 0
Leave-left j leave_named = refl
Leave-left j (leave_assigned checked cut) = refl
Leave-left j leave_prepared = refl
Leave-left j leave_waiting = refl
Leave-left j leave_received = refl
Leave-left j leave_recorded = refl
Leave-left j (leave_refusal checked cut) = refl
Leave-left j (leave_timeout cut) = refl
Leave-left j (leave_recycle cut) = refl

more_left :
    (f : Pc → ℕ) (ps before after : List Pc) (p q : Pc)
    → ps ≡ before ++ (p ∷ after)
    → f p ≡ 0
    → tally f ps ≤ tally f (before ++ (q ∷ after))
more_left f ps before after p q split none_left = omega (
  arith,
  ap (tally f) split,
  none_left,
  tally-append f before (p ∷ after),
  tally-append f before (q ∷ after),
)

Step-left :
    {Loads : Config → Type 0} {s t : System} (j : ℕ)
    → Step Loads s t
    → tally (is_left j) s.requests ≤ tally (is_left j) t.requests
Step-left {s} j arrive = omega (arith, tally-append (is_left j) s.requests (arrived ∷ []))
Step-left {s} j (pick before after {p} {q} split move) =
    more_left (is_left j) s.requests before after p q split (Move-left j move)
Step-left {s} j (leave before after {p} {q} split left) =
    more_left (is_left j) s.requests before after p q split (Leave-left j left)
Step-left j (tend k u) = omega arith
Step-left j (retable c) = omega arith
Step-left j (reconfigure name c p there) = omega arith
Step-left j (repopulate name c p there changed loads) = omega arith

Reach-left :
    {Loads : Config → Type 0} {s t : System} (j : ℕ)
    → Reach Loads s t
    → tally (is_left j) s.requests ≤ tally (is_left j) t.requests
Reach-left j here = omega arith
Reach-left j (later before step) = omega (arith, Reach-left j before, Step-left j step)

Reach-trans :
    {Loads : Config → Type 0} {s t u : System} → Reach Loads s t → Reach Loads t u → Reach Loads s u
Reach-trans run here = run
Reach-trans run (later before step) = later (Reach-trans run before) step

-- A client that leaves while a worker counts its request leaves the count raised for good: in every
-- state that the server reaches from there, any recycling of this worker that is not already
-- draining sleeps at least the whole two seconds, whatever the other requests do.
pub abandoned_delays :
    {Loads : Config → Type 0} {s t u : System} (k : ℕ) (os : Os) (c : Config)
    → IsUnused s
    → Reach Loads s t
    → 1 ≤ tally (is_left k) t.requests
    → Reach Loads t u
    → (u.shared.store k).draining ≡ false
    → 2000 ≤ (graceful_recycle os c (u.shared.store k)).slept_ms
abandoned_delays {s} {t} {u} k os c unused run left rest idle = ground (
  arith,
  graceful_recycle_waits os c (u.shared.store k) idle,
  Reach-counted k unused (Reach-trans run rest),
  left,
  Reach-left k rest,
  left-in_flight k u.requests,
)

-- A worker with a running process whose recycling is cut off in the wait for requests stays draining
-- with this process through every later operation of the handlers and the monitor for as long as the
-- process runs: the router finds it not free even when nobody holds its lock, and a recycling leaves
-- it as it is and does not sleep.
pub cut_recycle_sticks :
    (w : Worker) (p : Child) (es : List Event) (os : Os) (c : Config)
    → w.process ≡ some p
    → All IsRoutine es
    → (let v = history es (cut_recycle in_wait w) in
        (v.process ≡ some p)
        × (v.recycle_count ≡ w.recycle_count)
        × (is_free false (some v) ≡ false)
        × ((graceful_recycle os c v).worker ≡ v)
        × ((graceful_recycle os c v).slept_ms ≡ 0))
cut_recycle_sticks w p es os c runs routine =
    let stuck =
      history-IsStuck p w.recycle_count es (cut_recycle in_wait w) routine
        (record { draining = refl; process = runs; recycled = refl }) in
    let (same, at_once) =
      graceful_recycle-draining os c (history es (cut_recycle in_wait w)) stuck.draining in
    (stuck.process, stuck.recycled, rw stuck.draining refl, same, at_once)
