-- ===== src/Queue/Progress.antt =====
-- The loop over the jobs.
use bakpia_run.Prelude.{
  ◌≤◌, ◌≡◌, refl, sym, ◌∙◌, ap, Bool, true, false, arith, Bool-cases, Option-cases, none, some,
  List, [], ◌∷◌, inl, inr, if◌then◌else◌, length, All, All-append,
}
use mathlib.Core.Path.{subst}
use bakpia_run.Prelude.Maps.{get, insert, get-insert}
use bakpia_run.Text.{Text, text_eq}
use bakpia_run.Text.Matching.{text_keys, text_eq_refl}
use bakpia_run.Queue.{
  JobStatus, pending, processing, completed, failed, Job, JobQueue, Answer, ok, err, submit, change,
  mark_processing, mark_completed, mark_failed, execute, finish, work, round, rounds,
}

abbrev pub is_final : JobStatus → Bool
is_final pending = false
is_final processing = false
is_final completed = true
is_final (failed e) = true

All-map {κ} :
    {P Q : Text → Type κ} → ((j : Text) → P j → Q j) → (ids : List Text) → All P ids → All Q ids
All-map f [] h = tt
All-map f (id ∷ ids) (h, hs) = (f id h, All-map f ids hs)

module _ {V : Type 0} where
  -- The job that the handler's answer makes of a job.
  abbrev pub finished : Text → Answer V → Job V → Job V
  finished now (ok v) job = record job {
    status = completed;
    result = some v;
    completed_at = some now;
  }
  finished now (err e) job = record job { status = failed e; completed_at = some now }

  finished-marked :
      (now : Text) (a : Answer V) (job : Job V)
      → finished now a (record job { status = processing }) ≡ finished now a job
  finished-marked now (ok v) job = refl
  finished-marked now (err e) job = refl

  change-some :
      (id : Text) (f : Job V → Job V) (q : JobQueue V) (job : Job V)
      → get id q.jobs ≡ some job
      → change id f q ≡ record q { jobs = insert id (f job) q.jobs }
  unfolding change
  change-some id f q job h = simp (h, change) refl

  get-change :
      (id : Text) (f : Job V → Job V) (q : JobQueue V) (job : Job V) (j : Text)
      → get id q.jobs ≡ some job
      → get j (change id f q).jobs ≡ (if text_eq id j then some (f job) else get j q.jobs)
  get-change id f q job j h = simp (change-some id f q job h) (get-insert id j (f job) q.jobs)

  get-change-same :
      (id : Text) (f : Job V → Job V) (q : JobQueue V) (job : Job V)
      → get id q.jobs ≡ some job
      → get id (change id f q).jobs ≡ some (f job)
  get-change-same id f q job h = ground (arith, get-change id f q job id h, text_eq_refl id)

  change-queue : (id : Text) (f : Job V → Job V) (q : JobQueue V) → (change id f q).queue ≡ q.queue
  unfolding change
  change-queue id f q = elim (Option-cases (get id q.jobs)) [
    | inl e ↦ simp (e, change) refl
    | inr (job, e) ↦ simp (e, change) refl
  ]

  finish_change :
      (id now : Text) (a : Answer V) (q : JobQueue V) (job : Job V) (j : Text)
      → get id q.jobs ≡ some job
      → (get j (finish id now a q).jobs
          ≡ (if text_eq id j then some (finished now a job) else get j q.jobs))
        × ((finish id now a q).queue ≡ q.queue)
  unfolding finish mark_completed mark_failed
  finish_change id now (ok v) q job j h = (get-change id _ q job j h, change-queue id _ q)
  finish_change id now (err e) q job j h = (get-change id _ q job j h, change-queue id _ q)

  -- The work on a job whose id is known puts the answer that the handler of its task gives, or
  -- the refusal of an unknown task, on that job, and changes neither another job nor the ids
  -- that wait.
  work_lem :
      (handlers : List (Text × (V → Answer V))) (now id : Text) (q : JobQueue V) (job : Job V)
      → get id q.jobs ≡ some job
      → ((j : Text)
          → get j (work handlers now id q).jobs ≡ (
              if text_eq id j
              then some (finished now (execute job.task job.payload handlers) job)
              else get j q.jobs))
        × ((work handlers now id q).queue ≡ q.queue)
  unfolding mark_processing work
  work_lem handlers now id q job h =
      let marking = λ (x : Job V). record x { status = processing } in
      let q1 = change id marking q in
      let known = get-change-same id marking q job h in
      let done = λ (j : Text).
        finish_change id now (execute job.task job.payload handlers) q1 (marking job) j known in
      simp (known, work, mark_processing)
        (
          (λ j. (done j).0 ∙ elim (Bool-cases (text_eq id j)) [
            | inl e ↦
                rw e (ap some (finished-marked now (execute job.task job.payload handlers) job))
            | inr e ↦ rw e (get-change id marking q job j h ∙ ground (arith, e))
          ]),
          (done id).1 ∙ change-queue id marking q,
        )

  -- The job of this id is there, and worked off.
  unfoldable pub IsKnown : List (Text × Job V) → Text → Type 0
  IsKnown m id = (job : Job V) × (get id m ≡ some job)

  pub IsFinished : List (Text × Job V) → Text → Type 0
  IsFinished m id = (job : Job V) × (get id m ≡ some job) × (is_final job.status ≡ true)

  finished-final :
      (now : Text) (a : Answer V) (job : Job V) → is_final (finished now a job).status ≡ true
  finished-final now (ok v) job = refl
  finished-final now (err e) job = refl

  work-IsFinished :
      (handlers : List (Text × (V → Answer V))) (now id : Text) (q : JobQueue V)
      → IsKnown q.jobs id
      → IsFinished (work handlers now id q).jobs id
  unfolding IsKnown IsFinished
  work-IsFinished handlers now id q (job, h) =
      let a = execute job.task job.payload handlers in
      (
        finished now a job,
        (work_lem handlers now id q job h).0 id ∙ rw (text_eq_refl id) refl,
        finished-final now a job,
      )

  work-keeps :
      (handlers : List (Text × (V → Answer V))) (now id : Text) (q : JobQueue V) (j : Text)
      → IsKnown q.jobs id
      → (IsFinished q.jobs j → IsFinished (work handlers now id q).jobs j)
        × (IsKnown q.jobs j → IsKnown (work handlers now id q).jobs j)
  unfolding IsKnown IsFinished
  work-keeps handlers now id q j (job, h) =
      let a = execute job.task job.payload handlers in
      let at = (work_lem handlers now id q job h).0 j in
      elim (Bool-cases (text_eq id j)) [
        | inl e ↦ (
          λ f. (finished now a job, at ∙ rw e refl, finished-final now a job),
          λ f. (finished now a job, at ∙ rw e refl),
        )
        | inr e ↦ (λ f. (f.0, at ∙ (rw e f.1), f.2), λ f. (f.0, at ∙ (rw e f.1)))
      ]

  round-cons :
      (handlers : List (Text × (V → Answer V))) (now id : Text) (ids : List Text) (q : JobQueue V)
      → q.queue ≡ id ∷ ids
      → round handlers now q ≡ work handlers now id (record q { queue = ids })
  unfolding round
  round-cons handlers now id ids q e = ap (λ l. round handlers now (record q { queue = l })) e

  round-nil :
      (handlers : List (Text × (V → Answer V))) (now : Text) (q : JobQueue V)
      → q.queue ≡ []
      → (round handlers now q).queue ≡ [] × ((round handlers now q).jobs ≡ q.jobs)
  unfolding round
  round-nil handlers now q e =
      let idle = ap (λ l. round handlers now (record q { queue = l })) e in
      (ap (λ r. r.queue) idle, ap (λ r. r.jobs) idle)

  -- What is left when the ids are worked off.
  abbrev IsThrough : List (Text × Job V) → List Text → JobQueue V → Type 0
  IsThrough m ids q =
      (q.queue ≡ [])
      × ((j : Text) → IsFinished m j → IsFinished q.jobs j)
      × All (IsFinished q.jobs) ids

  rounds-All :
      (handlers : List (Text × (V → Answer V))) (nows : List Text) (q : JobQueue V)
      (ids : List Text)
      → q.queue ≡ ids
      → length ids ≤ length nows
      → All (IsKnown q.jobs) ids
      → IsThrough q.jobs ids (rounds handlers nows q)
  unfolding rounds IsKnown
  rounds-All handlers [] q [] e l h = (e, λ j f. f, tt)
  rounds-All handlers [] q (id ∷ ids) e l h = absurd (omega (arith, l))
  rounds-All handlers (now ∷ nows) q [] e l h =
      let idle = round-nil handlers now q e in
      let (empty, kept, none_left) =
        rounds-All handlers nows (round handlers now q) [] idle.0 (omega arith) tt in
      (empty, λ j f. kept j (simp idle.1 f), tt)
  rounds-All handlers (now ∷ nows) q (id ∷ ids) e l (h, hs) =
      let q1 : JobQueue V = record q { queue = ids } in
      let same = round-cons handlers now id ids q e in
      let q2 = work handlers now id q1 in
      let queue2 : q2.queue ≡ ids = (work_lem handlers now id q1 h.0 h.1).1 in
      let known2 = All-map (λ j. (work-keeps handlers now id q1 j h).1) ids hs in
      let (empty, kept, rest) = rounds-All handlers nows q2 ids queue2 (omega (arith, l)) known2 in
      subst (λ r. IsThrough q.jobs (id ∷ ids) (rounds handlers nows r)) (sym same)
        (
          empty,
          λ j f. kept j ((work-keeps handlers now id q1 j h).0 f),
          (kept id (work-IsFinished handlers now id q1 h), rest),
        )

  -- When every id that waits is that of a job, as many rounds as ids wait leave none waiting, and
  -- every job that waited is completed or failed.
  pub rounds-IsFinished :
      (handlers : List (Text × (V → Answer V))) (nows : List Text) (q : JobQueue V)
      → length q.queue ≤ length nows
      → All (IsKnown q.jobs) q.queue
      → ((rounds handlers nows q).queue ≡ [])
        × All (IsFinished (rounds handlers nows q).jobs) q.queue
  rounds-IsFinished handlers nows q l h =
      let (empty, kept, all) = rounds-All handlers nows q q.queue refl l h in (empty, all)

  -- A submission puts its id behind those that wait, and every id that waits is again that of a
  -- job, whatever the id is.
  submit-IsKnown :
      (id now task : Text) (payload : V) (q : JobQueue V)
      → All (IsKnown q.jobs) q.queue
      → All (IsKnown (submit id now task payload q).jobs) (submit id now task payload q).queue
  unfolding IsKnown
  submit-IsKnown id now task payload q h =
      let job : Job V = record {
        id = id;
        task = task;
        payload = payload;
        status = pending;
        created_at = now;
        completed_at = none;
        result = none;
      } in
      let at : (j : Text)
          → get j (insert id job q.jobs) ≡ (if text_eq id j then some job else get j q.jobs) =
        λ j. get-insert id j job q.jobs in
      All-append (IsKnown (insert id job q.jobs)) q.queue (id ∷ [])
        (All-map
          (λ j f. elim (Bool-cases (text_eq id j)) [
            | inl e ↦ (job, at j ∙ rw e refl)
            | inr e ↦ (f.0, at j ∙ rw e f.1)
          ])
          q.queue h)
        ((job, at id ∙ rw (text_eq_refl id) refl), tt)
