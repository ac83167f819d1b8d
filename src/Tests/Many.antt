-- ===== src/Tests/Many.antt =====
-- Many requests at once: one request on its way through a pool of two workers, and a reload.
use bakpia_run.Prelude.{
  ℕ, ◌+◌, ◌≤◌, ◌≡◌, ◌%◌, ◌^◌, refl, arith, false, none, some, [], ◌∷◌, get_elem?,
}
use bakpia_run.Prelude.Maps.{get, contains_key}
use bakpia_run.Config.{Config}
use bakpia_run.Text.{codes, text_eq, ends_with, starts_with}
use bakpia_run.Text.Matching.{text_keys}
use bakpia_run.Routing.{match_headers, match_pattern, get_pool, get_pool_name_for_request}
use bakpia_run.Worker.{Worker, ensure_running, graceful_recycle}
use bakpia_run.Worker.Lifecycle.{history, refreshes, ensures, IsSettled, ensure_running-IsSettled}
use bakpia_run.Worker.Replacing.{ensure_running-stopped}
use bakpia_run.WorkerPool.{attempts, get_next_worker, is_free}
use bakpia_run.Metrics
use bakpia_run.Handler.Request.{PhpResponse}
use bakpia_run.Handler.Php.{answered}
use bakpia_run.Interleaving.{
  SharedPool, Shared, named, waiting, recorded, abandoned, unrecorded, view, put, put_pool,
  cut_recycle, in_wait, route, choose, ensure, take, receive, record_answer, leave_waiting,
}
use bakpia_run.Interleaving.Steps.{System, Reach, here, later, arrive, pick, leave}
use bakpia_run.Interleaving.Counting.{in_flight}
use bakpia_run.Interleaving.Counted.{IsUnused, Reach-counted}
use bakpia_run.Interleaving.Abandoned.{abandoned_delays, cut_recycle_sticks}
use bakpia_run.Interleaving.Choosing.{IsRoutable, Reach-chooses}
use bakpia_run.Interleaving.Totals.{Reach-IsRecorded}
use bakpia_run.Tests.Samples.{sample_config, sample_child, good_os, busy_worker, nobody_locked}

abbrev HasWorkers : Config → Type 0
HasWorkers c = 1 ≤ c.php.worker_count

abbrev web : SharedPool
web = record { refs = 0 ∷ 1 ∷ []; config = sample_config; current_index = 0 }

abbrev new_worker : ℕ → Worker
new_worker j = record busy_worker {
  index = j;
  process = none;
  pid = none;
  requests_handled = 0;
  active_requests = 0;
}

abbrev unused : System
unused = record {
  shared = record {
    pool_manager = record {
      pools = (codes "web", web) ∷ [];
      routing_table =
          record { pool_name = codes "web"; patterns = codes "*" ∷ []; headers = [] } ∷ [];
    };
    store = new_worker;
    next = 2;
    metrics = Metrics.new 0 2;
  };
  requests = [];
}

is_unused : IsUnused unused
is_unused = record {
  no_requests = refl;
  idle = λ j. refl;
  in_store = ((omega arith, (omega arith, tt)), tt);
}

abbrev at_name : System
at_name = record unused { requests = named (codes "web") ∷ [] }

routed :
    get_pool_name_for_request unused.shared.pool_manager (codes "/a.php") [] ≡ some (codes "web")
unfolding get_pool_name_for_request match_headers match_pattern text_eq ends_with starts_with
routed = refl

to_name : Reach HasWorkers unused at_name
to_name =
    later (later here arrive) (pick [] [] refl (route (codes "/a.php") [] (codes "web") routed))

abbrev chosen : Shared
chosen = put_pool unused.shared (codes "web") (record web {
  current_index = (get_next_worker nobody_locked (view unused.shared web)).1.current_index;
})

first_chosen : (get_next_worker nobody_locked (view unused.shared web)).0 ≡ some 0
unfolding get_next_worker attempts
first_chosen = refl

web_there : get_pool unused.shared.pool_manager (codes "web") ≡ some web
unfolding get_pool get text_eq
web_there = refl

abbrev running_worker : Worker
running_worker = (ensure_running good_os sample_config (new_worker 0)).worker

abbrev ensured : Shared
ensured = put chosen 0 running_worker

abbrev taken : Shared
taken =
    put ensured 0 (record running_worker { active_requests = running_worker.active_requests + 1 })

abbrev at_wait : System
at_wait = record { shared = taken; requests = waiting 0 0 sample_config ∷ [] }

to_wait : Reach HasWorkers unused at_wait
to_wait =
    later
      (later
        (later to_name (pick [] [] refl (choose nobody_locked web 0 0 web_there first_chosen refl)))
        (pick [] [] refl (
          ensure good_os
            (ensure_running-stopped good_os sample_config (new_worker 0) sample_child refl
              refl).0)))
      (pick [] [] refl take)

Reach-counted_example :
    (at_wait.shared.store 0).active_requests ≡ in_flight 0 (waiting 0 0 sample_config ∷ [])
Reach-counted_example = Reach-counted 0 is_unused to_wait

abbrev at_left : System
at_left = record at_wait { requests = abandoned 0 unrecorded ∷ [] }

to_left : Reach HasWorkers unused at_left
to_left = later to_wait (leave [] [] refl leave_waiting)

settled : IsSettled (new_worker 0)
settled = record {
  not_draining = refl;
  tidy = record { pid_of_process = λ _. refl; no_connections = refl };
}

abandoned_delays_example :
    2000 ≤ (graceful_recycle good_os sample_config (at_left.shared.store 0)).slept_ms
abandoned_delays_example =
    abandoned_delays 0 good_os sample_config is_unused to_left (omega arith) here
      (ensure_running-IsSettled good_os sample_config (new_worker 0) settled).not_draining

abbrev made : PhpResponse
made = record { status = 200; body = codes "made"; memory = 10; peak = 20; headers = [] }

abbrev at_record : System
at_record = record {
  shared = record taken { metrics = Metrics.record_request 0 10 (Metrics.new 0 2) };
  requests = recorded 0 sample_config (answered made) ∷ [];
}

Reach-IsRecorded_example :
    (at_record.shared.metrics.total_requests ≡ 1 % 2 ^ 64)
    × (at_record.shared.metrics.total_errors ≡ 0 % 2 ^ 64)
Reach-IsRecorded_example = Reach-IsRecorded refl refl refl (
    later (later to_wait (pick [] [] refl (receive (answered made))))
      (pick [] [] refl record_answer))

routable : IsRoutable unused.shared []
unfolding contains_key text_eq
routable = record { routed = (refl, tt); filled = (omega arith, tt); known = tt }

Reach-chooses_example :
    (p : SharedPool) × (i : ℕ) × (k : ℕ) × (get_pool at_name.shared.pool_manager (codes "web")
      ≡ some p)
    × ((get_next_worker nobody_locked (view at_name.shared p)).0 ≡ some i)
    × (get_elem? p.refs i ≡ some k)
Reach-chooses_example =
    Reach-chooses [] [] (codes "web") nobody_locked (λ c h. h) routable to_name refl

cut_recycle_sticks_example :
    (let v =
        history
          (refreshes good_os ∷ ensures good_os sample_config ∷ [])
          (cut_recycle in_wait busy_worker) in
      (v.process ≡ some (record { id = some 40 }))
      × (v.recycle_count ≡ 2)
      × (is_free false (some v) ≡ false)
      × ((graceful_recycle good_os sample_config v).worker ≡ v)
      × ((graceful_recycle good_os sample_config v).slept_ms ≡ 0))
cut_recycle_sticks_example =
    cut_recycle_sticks busy_worker (record { id = some 40 })
      (refreshes good_os ∷ ensures good_os sample_config ∷ []) good_os sample_config refl
      (tt, (refl, tt))

abbrev three_workers : Config
three_workers = record sample_config { php = record (sample_config.php) { worker_count = 3 } }
