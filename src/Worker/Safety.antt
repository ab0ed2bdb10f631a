-- ===== src/Worker/Safety.antt =====
-- internal/worker/worker.go: when a job is executed.
use taskqueue_go.Prelude.{
  ◌≡◌, ◌⊎◌, inl, inr, refl, sym, ap, ◌∙◌, Bool, true, false, Option, none, some, List, [], ◌∷◌,
  ◌++◌, Result, ok, err, arith, if◌then◌else◌,
}
use mathlib.Core.List.{append-nil}
use taskqueue_go.GoTime.{before}
use taskqueue_go.Models.Job.{Job}
use taskqueue_go.Models.Task.{TaskType}
use taskqueue_go.RateLimit.{allow}
use taskqueue_go.Queue.Backend.{MessageQueue, Codec}
use taskqueue_go.Queue.{PulledMessage, pull}
use taskqueue_go.Registry
use taskqueue_go.Worker.Http.{Server, Request}
use taskqueue_go.Worker.Execute.{job_request, execute_job}
use taskqueue_go.Worker.{
  Pool, Tick, World, Ending, run_job, handle_job, process_job, with_message, with_job, with_permit,
  with_task, schedule_retry, then_return, acknowledged,
}

module _ (Q : MessageQueue) (J : Codec) (server : Server) {Redis : Type 0} (p : Pool Q.Queue Redis)
    (tick : Tick) where
  -- A job that was pulled, is due, has the limiter's permit and a task that the registry knows.
  pub record MayRun (w : World Q.State) (job : Job) (task : TaskType) : Type 0 where
    pub message : PulledMessage
    pub delivered : (pull Q J p.queue_client w.queue).0 ≡ ok (some message)
    pub has_job : message.queue_message.job ≡ some job
    pub due : before tick.checked_at job.execute_after ≡ false
    pub permitted : (allow p.rate_limiter tick.limiter_call tick.limited_at w.bucket).0 ≡ ok true
    pub known : Registry.get p.registry job.task_type_id ≡ ok task

  abbrev pub Sends : World Q.State → Ending × World Q.State → List Request → Type 0
  Sends w (ending, w') sent = w'.requests ≡ w.requests ++ sent

  schedule_retry-requests :
      (job : Job) (w : World Q.State)
      → (schedule_retry Q J server p tick job w).1.requests ≡ w.requests
  unfolding schedule_retry
  schedule_retry-requests job w = refl

  attempted-requests :
      (job : Job) (task : TaskType)
      → ((execute_job server tick.started_at tick.completed_at job task).1 ≡ [])
        ⊎ ((execute_job server tick.started_at tick.completed_at job task).1
            ≡ job_request server job task ∷ [])
  unfolding execute_job
  attempted-requests job task = ground arith

  run_job-requests :
      (msg : PulledMessage) (job : Job) (task : TaskType) (w : World Q.State)
      → Sends w
          (run_job Q J server p tick msg job task w)
          (execute_job server tick.started_at tick.completed_at job task).1
  unfolding run_job
  run_job-requests msg job task w = either _ _
    where
      either :
          (b : Bool) (v : World Q.State)
          → (if b then (schedule_retry Q J server p tick job v).1 else v).requests ≡ v.requests
      either true v = schedule_retry-requests job v
      either false v = refl

  unsent : (w : World Q.State) → w.requests ≡ w.requests ++ []
  unsent w = sym (append-nil w.requests)

  abbrev TaskOutcome : World Q.State → Job → Ending × World Q.State → Type 0
  TaskOutcome w job end =
      Sends w end []
      ⊎ ((task : TaskType) × (Registry.get p.registry job.task_type_id ≡ ok task)
          × Sends w end (job_request server job task ∷ []))

  with_task-requests :
      (msg : PulledMessage) (job : Job) (w : World Q.State) (t : Result TaskType)
      → Registry.get p.registry job.task_type_id ≡ t
      → TaskOutcome w job (with_task Q J server p tick msg job w t)
  with_task-requests msg job w (err e) same = inl (unsent w)
  with_task-requests msg job w (ok task) same =
      sent _ (attempted-requests job task) (run_job-requests msg job task w)
    where
      sent :
          (requests : List Request)
          → (requests ≡ []) ⊎ (requests ≡ job_request server job task ∷ [])
          → Sends w (run_job Q J server p tick msg job task w) requests
          → TaskOutcome w job (run_job Q J server p tick msg job task w)
      sent requests (inl none_sent) h = inl (h ∙ ap (◌++◌ w.requests) none_sent)
      sent requests (inr one_sent) h = inr (task, same, h ∙ ap (◌++◌ w.requests) one_sent)

  with_permit-requests :
      (msg : PulledMessage) (job : Job) (w : World Q.State) (r : Result Bool)
      → Sends w (with_permit Q J server p tick msg job w r) []
        ⊎ ((task : TaskType) × (r ≡ ok true)
            × (Registry.get p.registry job.task_type_id ≡ ok task)
            × Sends w
                (with_permit Q J server p tick msg job w r)
                (job_request server job task ∷ []))
  with_permit-requests msg job w (err e) = inl (unsent w)
  with_permit-requests msg job w (ok false) = inl (unsent w)
  with_permit-requests msg job w (ok true) = elim (with_task-requests msg job w _ refl) [
    | inl h ↦ inl h
    | inr (task, known, h) ↦ inr (task, refl, known, h)
  ]

  -- What is sent once the job is there.
  abbrev Outcome : World Q.State → Job → Ending × World Q.State → Type 0
  Outcome w job end =
      Sends w end []
      ⊎ ((task : TaskType) × (before tick.checked_at job.execute_after ≡ false)
          × ((allow p.rate_limiter tick.limiter_call tick.limited_at w.bucket).0 ≡ ok true)
          × (Registry.get p.registry job.task_type_id ≡ ok task)
          × Sends w end (job_request server job task ∷ []))

  handle_job-requests :
      (msg : PulledMessage) (job : Job) (w : World Q.State)
      → Outcome w job (handle_job Q J server p tick msg job w)
  unfolding handle_job
  handle_job-requests msg job w = go _ refl
    where
      go :
          (early : Bool)
          → before tick.checked_at job.execute_after ≡ early
          → Outcome w job (
              if early
              then then_return (acknowledged Q J server p msg w)
              else with_permit Q J server p tick msg job
                  (record w {
                    bucket = (allow p.rate_limiter tick.limiter_call tick.limited_at w.bucket).1;
                  })
                  (allow p.rate_limiter tick.limiter_call tick.limited_at w.bucket).0)
      go true same = inl (unsent w)
      go false same = elim (with_permit-requests msg job _ _) [
        | inl h ↦ inl h
        | inr (task, permitted, known, h) ↦ inr (task, same, permitted, known, h)
      ]

  -- processJob sends no request, or one, that of a job which was pulled, is due, has the permit of the
  -- limiter and is of a task that the registry knows.
  pub process_job-requests :
      (w : World Q.State)
      → Sends w (process_job Q J server p tick w) []
        ⊎ ((job : Job) × (task : TaskType) × MayRun w job task
            × Sends w (process_job Q J server p tick w) (job_request server job task ∷ []))
  unfolding process_job
  process_job-requests w = go _ refl
    where
      v : World Q.State
      v = record w { queue = (pull Q J p.queue_client w.queue).1 }

      claim : Ending × World Q.State → Type 0
      claim end =
          Sends w end []
          ⊎ ((job : Job) × (task : TaskType) × MayRun w job task
              × Sends w end (job_request server job task ∷ []))

      with_job_claim :
          (msg : PulledMessage) (job : Option Job)
          → (pull Q J p.queue_client w.queue).0 ≡ ok (some msg)
          → msg.queue_message.job ≡ job
          → claim (with_job Q J server p tick msg job v)
      with_job_claim msg none pulled has = inl (unsent w)
      with_job_claim msg (some job) pulled has = elim (handle_job-requests msg job v) [
        | inl h ↦ inl h
        | inr (task, due, permitted, known, h) ↦ inr (
          job,
          task,
          record {
            message = msg;
            delivered = pulled;
            has_job = has;
            due = due;
            permitted = permitted;
            known = known;
          },
          h,
        )
      ]

      go :
          (m : Result (Option PulledMessage))
          → (pull Q J p.queue_client w.queue).0 ≡ m
          → claim (with_message Q J server p tick v m)
      go (err e) same = inl (unsent w)
      go (ok none) same = inl (unsent w)
      go (ok (some msg)) same = with_job_claim msg _ same refl
