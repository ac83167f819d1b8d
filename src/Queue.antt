-- ===== src/Queue.antt =====
-- src-server/src/queue.rs: the background jobs, and the loop of main.rs that works them off. The
-- clock and the fresh ids are arguments, as are the handlers of the tasks.
pub mod Progress
pub mod Handlers
use bakpia_run.Prelude.{ℕ, zero, suc, Option, none, some, List, [], ◌∷◌, ◌++◌}
use bakpia_run.Prelude.Maps.{get, insert}
use bakpia_run.Text.{Text, codes}
use bakpia_run.Text.Matching.{text_keys}

pub data JobStatus : Type 0 where
  pending processing completed : JobStatus
  failed : Text → JobStatus

-- `V` stands for `serde_json::Value`.
pub record Job (V : Type 0) : Type 0 where
  pub id : Text
  pub task : Text
  pub payload : V
  pub status : JobStatus
  pub created_at : Text
  pub completed_at : Option Text
  pub result : Option V

pub record JobQueue (V : Type 0) : Type 0 where
  pub jobs : List (Text × Job V)
  pub queue : List Text

-- `pop_front` of a deque.
abbrev pub pop_front : List Text → Option Text × List Text
pop_front [] = (none, [])
pop_front (id ∷ ids) = (some id, ids)

module _ {V : Type 0} where
  abbrev pub new : JobQueue V
  new = record { jobs = []; queue = [] }

  -- A submission, with the id and the time it is given.
  abbrev pub submit : Text → Text → Text → V → JobQueue V → JobQueue V
  submit id now task payload q =
      let job : Job V = record {
        id = id;
        task = task;
        payload = payload;
        status = pending;
        created_at = now;
        completed_at = none;
        result = none;
      } in
      record { jobs = insert id job q.jobs; queue = q.queue ++ (id ∷ []) }

  abbrev pub get_status : Text → JobQueue V → Option (Job V)
  get_status id q = get id q.jobs

  abbrev pub dequeue : JobQueue V → Option Text × JobQueue V
  dequeue q = let (first, rest) = pop_front q.queue in (first, record q { queue = rest })

  -- `get_mut` and a change of what it finds; a job that is not there is left alone.
  change : Text → (Job V → Job V) → JobQueue V → JobQueue V
  change id f q = elim (get id q.jobs) [
    | none ↦ q
    | some job ↦ record q { jobs = insert id (f job) q.jobs }
  ]

  pub mark_processing : Text → JobQueue V → JobQueue V
  mark_processing id q = change id (λ job. record job { status = processing }) q

  pub mark_completed : Text → Text → V → JobQueue V → JobQueue V
  mark_completed id now result q =
      change id
        (λ job. record job { status = completed; result = some result; completed_at = some now }) q

  pub mark_failed : Text → Text → Text → JobQueue V → JobQueue V
  mark_failed id now error q =
      change id (λ job. record job { status = failed error; completed_at = some now }) q

-- `Result<Value, String>`.
pub data Answer (V : Type 0) : Type 0 where
  ok : V → Answer V
  err : Text → Answer V

-- Of job_handlers/mod.rs: the handlers by the names of their tasks.
module _ {V : Type 0} where
  abbrev pub register :
      Text → (V → Answer V) → List (Text × (V → Answer V)) → List (Text × (V → Answer V))
  register task_name handler handlers = insert task_name handler handlers

  abbrev pub execute : Text → V → List (Text × (V → Answer V)) → Answer V
  execute task_name payload handlers = elim (get task_name handlers) [
    | some handler ↦ handler payload
    | none ↦ err (
        codes "Task '"
        ++ (task_name ++ codes "' is not registered. Only registered tasks can be executed."))
  ]

  finish : Text → Text → Answer V → JobQueue V → JobQueue V
  finish id now (ok result) q = mark_completed id now result q
  finish id now (err error) q = mark_failed id now error q

  -- The work on the job of this id, at the time `now`.
  pub work : List (Text × (V → Answer V)) → Text → Text → JobQueue V → JobQueue V
  work handlers now job_id q =
      let marked = mark_processing job_id q in
      elim (get_status job_id marked) [
        | none ↦ marked
        | some job ↦ finish job_id now (execute job.task job.payload handlers) marked
      ]

  -- One round of the loop.
  pub round : List (Text × (V → Answer V)) → Text → JobQueue V → JobQueue V
  round handlers now q =
      let (first, rest) = dequeue q in
      elim first [ none ↦ rest | some job_id ↦ work handlers now job_id rest ]

  -- The rounds at these times.
  pub rounds : List (Text × (V → Answer V)) → List Text → JobQueue V → JobQueue V
  rounds handlers [] q = q
  rounds handlers (now ∷ nows) q = rounds handlers nows (round handlers now q)
