-- ===== src/Worker/Retries.antt =====
-- internal/worker/worker.go: retries without end.
use taskqueue_go.Prelude.{◌≡◌, refl, sym, subst, some, true, ◌&&◌, [], ◌∷◌, arith}
use taskqueue_go.Prelude.Int.{ℤ, pos}
use taskqueue_go.Prelude.Int64.{add64}
use taskqueue_go.Models.Job.{Job, ExecutionResult, is_failed, should_retry}
use taskqueue_go.Models.Task.{TaskType}
use taskqueue_go.Queue.Backend.{MessageQueue, Codec}
use taskqueue_go.Queue.{pull, ack, push}
use taskqueue_go.Queue.Sending.{SentAll, all_sent, push-SentAll}
use taskqueue_go.Worker.Http.{Server}
use taskqueue_go.Worker.Execute.{execute_job}
use taskqueue_go.Worker.Outcome.{Created, Retryable, answer, execute_job-should_retry_iff}
use taskqueue_go.Worker.Safety.{MayRun}
use taskqueue_go.Worker.{
  Pool, Tick, World, retry_job, schedule_retry, run_job, handle_job, process_job,
}

-- The retry of a job: the next attempt at the same task for the same user.
pub record IsRetry (job retry : Job) : Type 0 where
  pub task_type_id : retry.task_type_id ≡ job.task_type_id
  pub user_id : retry.user_id ≡ job.user_id
  pub payload : retry.payload ≡ job.payload
  pub attempt : retry.attempt ≡ add64 job.attempt (pos 1)

retried-failed :
    (r : ExecutionResult) (n : ℤ)
    → should_retry r n ≡ true
    → (is_failed r.status && should_retry r n) ≡ true
unfolding should_retry
retried-failed r n h = ground arith

module _ (Q : MessageQueue) (J : Codec) (server : Server) {Redis : Type 0} (p : Pool Q.Queue Redis)
    (tick : Tick) where
  retry_job-IsRetry : (job : Job) → IsRetry job (retry_job p.config tick job)
  unfolding retry_job
  retry_job-IsRetry job = record {
    task_type_id = refl;
    user_id = refl;
    payload = refl;
    attempt = refl;
  }

  -- The queue after a job that is to be retried.
  queue_after :
      (w : World Q.State) (job : Job) (task : TaskType) (may : MayRun Q J server p tick w job task)
      → should_retry
          (execute_job server tick.started_at tick.completed_at job task).0
          p.config.max_retries
        ≡ true
      → (process_job Q J server p tick w).1.queue
        ≡ (push Q J p.queue_client tick.message_uuid
            (some (retry_job p.config tick job))
            (ack Q J p.queue_client may.message.message_id may.message.receipt
              (pull Q J p.queue_client w.queue).1).1).1
  unfolding process_job handle_job run_job schedule_retry
  queue_after w job task may again =
      let failed_again =
        retried-failed (execute_job server tick.started_at tick.completed_at job task).0
          p.config.max_retries again in
      rw (may.delivered, may.has_job, may.due, may.permitted, may.known, failed_again) refl

  -- A job that was pulled, is due, has the limiter's permit and whose task the registry knows, whose
  -- request could be made, and failed or was answered with a status from 500 on, is acknowledged and followed by its next attempt, which processJob sends the queue, whatever
  -- the job's attempt and max_retries are: no job is given up for having been tried too often.
  pub process_job-retries :
      (w : World Q.State) (job : Job) (task : TaskType) (may : MayRun Q J server p tick w job task)
      → Created server tick.started_at tick.completed_at job task
      → Retryable (answer server tick.started_at tick.completed_at job task)
      → (retry : Job) × IsRetry job retry
        × SentAll Q J p.queue_client
            ((tick.message_uuid, retry) ∷ [])
            (Q.ack p.queue_client.queue may.message.message_id may.message.receipt
              (Q.pull_message p.queue_client.queue p.queue_client.queue_name
                p.queue_client.cfg.default_visibility w.queue).1).1
            (process_job Q J server p tick w).1.queue
  unfolding pull ack
  process_job-retries w job task may created fails =
      let again =
        (execute_job-should_retry_iff server tick.started_at tick.completed_at job task
            p.config.max_retries).1
          (created, fails) in
      (
        retry_job p.config tick job,
        retry_job-IsRetry job,
        subst
            (SentAll Q J p.queue_client ((tick.message_uuid, retry_job p.config tick job) ∷ [])
              (ack Q J p.queue_client may.message.message_id may.message.receipt
                (pull Q J p.queue_client w.queue).1).1)
            (sym (queue_after w job task may again))
            (push-SentAll Q J p.queue_client tick.message_uuid (retry_job p.config tick job) [] _ _
              all_sent),
      )
