-- ===== src/Handler/Jobs.antt =====
-- src-server/src/handlers.rs: `submit_job` and `get_job_status`. The id and the time of a job are
-- arguments.
use bakpia_run.Prelude.{ℕ, ◌≡◌, inl, inr, arith, Bool-cases, Option, none, some, if◌then◌else◌}
use bakpia_run.Prelude.Maps.{get-insert}
use bakpia_run.Text.{Text, text_eq}
use bakpia_run.Text.Matching.{text_keys}
use bakpia_run.Queue.{Job, JobQueue, pending, submit, get_status}
use bakpia_run.App.{AppState}

pub data JobReply (V : Type 0) : Type 0 where
  disabled : JobReply V
  queued : Text → JobReply V
  status_of : Job V → JobReply V
  not_found : JobReply V

-- The status of the response.
abbrev pub job_status_code : {V : Type 0} → JobReply V → ℕ
job_status_code disabled = 503
job_status_code (queued id) = 200
job_status_code (status_of job) = 200
job_status_code not_found = 404

abbrev status_reply : {V : Type 0} → Option (Job V) → JobReply V
status_reply none = not_found
status_reply (some job) = status_of job

module _ {F V : Type 0} where
  unfoldable pub submit_job : Text → Text → Text → V → AppState F V → JobReply V × AppState F V
  submit_job id now task payload st = elim st.queue [
    | none ↦ (disabled, st)
    | some q ↦ (queued id, record st { queue = some (submit id now task payload q) })
  ]

  unfoldable pub get_job_status : Text → AppState F V → JobReply V
  get_job_status id st = elim st.queue [ none ↦ disabled | some q ↦ status_reply (get_status id q) ]

  -- Where the queue is enabled, a submission is answered with the id of the new job; the status of that
  -- id is then found, pending and with the task and payload submitted, and that of any other id is
  -- what it was before.
  get_job_status-submit_job :
      (id now task other : Text) (payload : V) (st : AppState F V) (q : JobQueue V)
      → st.queue ≡ some q
      → ((submit_job id now task payload st).0 ≡ queued id)
        × (get_job_status other (submit_job id now task payload st).1 ≡ (
            if text_eq id other
            then status_of (record {
              id = id;
              task = task;
              payload = payload;
              status = pending;
              created_at = now;
              completed_at = none;
              result = none;
            })
            else get_job_status other st))
  unfolding submit_job get_job_status
  get_job_status-submit_job id now task other payload st q enabled =
      let job : Job V = record {
        id = id;
        task = task;
        payload = payload;
        status = pending;
        created_at = now;
        completed_at = none;
        result = none;
      } in
      elim (Bool-cases (text_eq id other)) [
        | inl same ↦ ground (arith, enabled, same, get-insert id other job q.jobs)
        | inr new ↦ ground (arith, enabled, new, get-insert id other job q.jobs)
      ]
