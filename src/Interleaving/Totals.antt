-- ===== src/Interleaving/Totals.antt =====
-- The totals of the metrics, with many requests at once.
use mathlib.Core.Path.{subst}
use bakpia_run.Prelude.{ℕ, ◌+◌, ◌^◌, ◌%◌, ◌≡◌, refl, sym, ap, ◌∙◌, arith, List, [], ◌∷◌, ◌++◌}
use bakpia_run.Metrics.{Metrics, record_request, record_error}
use bakpia_run.Config.{Config}
use bakpia_run.Interleaving.{
  Shared, Ending, ending_of, unrecorded, served, erred, Pc, arrived, named, assigned, prepared,
  waiting, received, recorded, over_limit, finished, abandoned, Move, turn_away, route, choose,
  ensure, ensure_fails, unreadable, take, receive, record_answer, record_refusal, record_timeout,
  settle_within, settle_over, settle_refusal, settle_timeout, recycle, Leave, leave_named,
  leave_assigned, leave_prepared, leave_waiting, leave_received, leave_recorded, leave_refusal,
  leave_timeout, leave_recycle,
}
use bakpia_run.Interleaving.Steps.{
  System, Step, arrive, pick, leave, tend, retable, reconfigure, repopulate, Reach, here, later,
}
use bakpia_run.Interleaving.Counting.{tally, tally-append}

-- What the metrics have recorded of a request.
abbrev pub ending : Pc → Ending
ending arrived = unrecorded
ending (named name) = unrecorded
ending (assigned i k c) = unrecorded
ending (prepared i k c) = unrecorded
ending (waiting i k c) = unrecorded
ending (received i k c sent) = unrecorded
ending (recorded k c sent) = ending_of sent
ending (over_limit k c) = served
ending (finished e) = e
ending (abandoned k e) = e

abbrev if_served : Ending → ℕ
if_served served = 1
if_served erred = 0
if_served unrecorded = 0

abbrev if_erred : Ending → ℕ
if_erred served = 0
if_erred erred = 1
if_erred unrecorded = 0

abbrev pub one_served : Pc → ℕ
one_served p = if_served (ending p)

abbrev pub one_erred : Pc → ℕ
one_erred p = if_erred (ending p)

-- What a step does to the totals, if `a` and `b` requests had been recorded besides this one.
record Records (m : Metrics) (p : Pc) (m' : Metrics) (q : Pc) : Type 0 where
  requests_total :
      (a : ℕ)
      → m.total_requests ≡ (a + one_served p) % 2 ^ 64
      → m'.total_requests ≡ (a + one_served q) % 2 ^ 64
  errors_total :
      (b : ℕ)
      → m.total_errors ≡ (b + one_erred p) % 2 ^ 64
      → m'.total_errors ≡ (b + one_erred q) % 2 ^ 64

-- A step that leaves the metrics alone.
kept-Records : (m : Metrics) (p q : Pc) → ending p ≡ ending q → Records m p m q
kept-Records m p q same = record {
  requests_total = λ a h. subst (λ e. m.total_requests ≡ (a + (if_served e)) % 2 ^ 64) same h;
  errors_total = λ b h. subst (λ e. m.total_errors ≡ (b + (if_erred e)) % 2 ^ 64) same h;
}

record_request-total :
    (i memory a : ℕ) (m : Metrics)
    → m.total_requests ≡ (a + 0) % 2 ^ 64
    → (record_request i memory m).total_requests ≡ (a + 1) % 2 ^ 64
unfolding record_request
record_request-total i memory a m h = ground (arith, h)

record_request-errors :
    (i memory : ℕ) (m : Metrics) → (record_request i memory m).total_errors ≡ m.total_errors
unfolding record_request
record_request-errors i memory m = ground arith

error-Records :
    (m : Metrics) (p q : Pc)
    → ending p ≡ unrecorded
    → ending q ≡ erred
    → Records m p (record_error m) q
unfolding record_error
error-Records m p q before after = record {
  requests_total = λ a h. omega (arith, h, ap if_served before, ap if_served after);
  errors_total = λ b h. omega (arith, h, ap if_erred before, ap if_erred after);
}

Move-Records : {m m' : Shared} {p q : Pc} → Move m p m' q → Records m.metrics p m'.metrics q
Move-Records {m} turn_away = kept-Records m.metrics _ _ refl
Move-Records {m} (route path headers name e) = kept-Records m.metrics _ _ refl
Move-Records {m} (choose locked p i k there chosen at) = kept-Records m.metrics _ _ refl
Move-Records {m} (ensure os e) = kept-Records m.metrics _ _ refl
Move-Records {m} (ensure_fails os e f) = kept-Records m.metrics _ _ refl
Move-Records {m} unreadable = kept-Records m.metrics _ _ refl
Move-Records {m} take = kept-Records m.metrics _ _ refl
Move-Records {m} (receive sent) = kept-Records m.metrics _ _ refl
Move-Records {m} (record_answer {i} {k} {c} {php}) = record {
  requests_total = λ a h. record_request-total i php.memory a m.metrics h;
  errors_total = λ b h. record_request-errors i php.memory m.metrics ∙ h;
}
Move-Records {m} record_refusal = error-Records m.metrics _ _ refl refl
Move-Records {m} record_timeout = error-Records m.metrics _ _ refl refl
Move-Records {m} (settle_within os e) = kept-Records m.metrics _ _ refl
Move-Records {m} (settle_over os reason e) = kept-Records m.metrics _ _ refl
Move-Records {m} (settle_refusal os) = kept-Records m.metrics _ _ refl
Move-Records {m} (settle_timeout os) = kept-Records m.metrics _ _ refl
Move-Records {m} (recycle os) = kept-Records m.metrics _ _ refl

Leave-Records : {m m' : Shared} {p q : Pc} → Leave m p m' q → Records m.metrics p m'.metrics q
Leave-Records {m} leave_named = kept-Records m.metrics _ _ refl
Leave-Records {m} (leave_assigned checked cut) = kept-Records m.metrics _ _ refl
Leave-Records {m} leave_prepared = kept-Records m.metrics _ _ refl
Leave-Records {m} leave_waiting = kept-Records m.metrics _ _ refl
Leave-Records {m} leave_received = kept-Records m.metrics _ _ refl
Leave-Records {m} leave_recorded = kept-Records m.metrics _ _ refl
Leave-Records {m} (leave_refusal checked cut) = kept-Records m.metrics _ _ refl
Leave-Records {m} (leave_timeout cut) = kept-Records m.metrics _ _ refl
Leave-Records {m} (leave_recycle cut) = kept-Records m.metrics _ _ refl

-- The totals are the numbers of the requests recorded.
abbrev IsRecorded : Metrics → List Pc → Type 0
IsRecorded m ps =
    (m.total_requests ≡ tally one_served ps % 2 ^ 64)
    × (m.total_errors ≡ tally one_erred ps % 2 ^ 64)

abbrev others : (f : Pc → ℕ) (before after : List Pc) → ℕ
others f before after = tally f before + tally f after

tally-others :
    (f : Pc → ℕ) (before after : List Pc) (p : Pc)
    → tally f (before ++ (p ∷ after)) ≡ others f before after + f p
tally-others f before after p = omega (arith, tally-append f before (p ∷ after))

Records-IsRecorded :
    {m m' : Metrics} {p q : Pc} (before after : List Pc)
    → Records m p m' q
    → IsRecorded m (before ++ (p ∷ after))
    → IsRecorded m' (before ++ (q ∷ after))
Records-IsRecorded {m} {m'} {p} {q} before after r (requests, errors) = (
  r.requests_total (others one_served before after)
        (requests ∙ ap (λ n. n % 2 ^ 64) (tally-others one_served before after p))
      ∙ ap (λ n. n % 2 ^ 64) (sym (tally-others one_served before after q)),
  r.errors_total (others one_erred before after)
        (errors ∙ ap (λ n. n % 2 ^ 64) (tally-others one_erred before after p))
      ∙ ap (λ n. n % 2 ^ 64) (sym (tally-others one_erred before after q)),
)

Step-IsRecorded :
    {Loads : Config → Type 0} {s t : System}
    → Step Loads s t
    → IsRecorded s.shared.metrics s.requests
    → IsRecorded t.shared.metrics t.requests
Step-IsRecorded {s} arrive (requests, errors) = (
  requests
      ∙ ap (λ n. n % 2 ^ 64) (omega (arith, tally-append one_served s.requests (arrived ∷ []))),
  errors ∙ ap (λ n. n % 2 ^ 64) (omega (arith, tally-append one_erred s.requests (arrived ∷ []))),
)
Step-IsRecorded {s} (pick before after split move) v =
    Records-IsRecorded before after (Move-Records move)
      (subst (IsRecorded s.shared.metrics) split v)
Step-IsRecorded {s} (leave before after split left) v =
    Records-IsRecorded before after (Leave-Records left)
      (subst (IsRecorded s.shared.metrics) split v)
Step-IsRecorded (tend k u) v = v
Step-IsRecorded (retable c) v = v
Step-IsRecorded (reconfigure name c p there) v = v
Step-IsRecorded (repopulate name c p there changed loads) v = v

-- From fresh metrics and no requests, however requests, departures of clients, the monitor and reloads
-- interleave, the totals of the metrics are the numbers of the requests recorded as answered and as
-- failed, modulo 2^64: none is lost or recorded twice, and a client that leaves takes none back.
pub Reach-IsRecorded :
    {Loads : Config → Type 0} {s t : System}
    → s.requests ≡ []
    → s.shared.metrics.total_requests ≡ 0
    → s.shared.metrics.total_errors ≡ 0
    → Reach Loads s t
    → (t.shared.metrics.total_requests ≡ tally one_served t.requests % 2 ^ 64)
      × (t.shared.metrics.total_errors ≡ tally one_erred t.requests % 2 ^ 64)
Reach-IsRecorded {s} no_requests requests errors here =
    subst (IsRecorded s.shared.metrics) (sym no_requests) (requests, errors)
Reach-IsRecorded no_requests requests errors (later before step) =
    Step-IsRecorded step (Reach-IsRecorded no_requests requests errors before)
