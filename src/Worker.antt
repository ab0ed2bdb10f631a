-- ===== src/Worker.antt =====
-- internal/worker/worker.go: what a worker does on a tick, from the queue to the retry. The clock's
-- readings, drawn identifiers and the answers of Redis and of the HTTP server are arguments
-- (Tick, Http). Log lines are left out.
pub mod Http
pub mod Execute
pub mod Backoff
pub mod Safety
pub mod Queued
pub mod Retries
pub mod Outcome
pub mod Body
pub mod Lifecycle
pub mod Tests
use taskqueue_go.Prelude.{
  ℕ, ◌<>◌, Bool, true, false, ◌&&◌, Option, none, some, List, [], ◌∷◌, ◌++◌, String, Result, ok,
  err, Failure, if◌then◌else◌, ◌==◌,
}
use taskqueue_go.Prelude.Int.{ℤ, pos}
use taskqueue_go.Prelude.Int64.{add64}
use taskqueue_go.Prelude.Text.{int_text}
use taskqueue_go.GoTime.{Time, Duration, before, add}
use taskqueue_go.Models.Job.{Job, ExecutionResult, is_failed, should_retry}
use taskqueue_go.Models.Task.{TaskType}
use taskqueue_go.RateLimit.{Limiter, Transport, allow}
use taskqueue_go.RateLimit.Script.{Bucket}
use taskqueue_go.Queue.Backend.{MessageQueue, Codec}
use taskqueue_go.Queue.{Client, PulledMessage, push, pull, ack}
use taskqueue_go.Registry
use taskqueue_go.Registry.{TaskRegistry}
use Http.{Server, Request}
use Execute.{execute_job}
use Backoff.{Config, retry_delay}

-- What the workers of a pool share. `Redis` is the type of the limiter's connection.
pub record Pool (Queue Redis : Type 0) : Type 0 where
  pub config : Config
  pub queue_client : Client Queue
  pub rate_limiter : Limiter Redis
  pub registry : TaskRegistry

-- What one call of processJob is given from outside.
pub record Tick : Type 0 where
  pub checked_at : Time  -- read for the test of ExecuteAfter
  pub limited_at : Time  -- read by the limiter
  pub limiter_call : Transport
  pub started_at : Time
  pub completed_at : Time
  pub retry_scheduled_at : Time
  pub retry_delayed_from : Time
  pub message_uuid : String

-- What processJob changes: the queue, the limiter's key, the requests that were sent.
pub record World (State : Type 0) : Type 0 where
  pub queue : State
  pub bucket : Option Bucket
  pub requests : List Request

-- processJob panics on a message without a job; otherwise it returns an error or nil.
pub data Ending : Type 0 where
  panicked : Ending
  returned : Failure → Ending

-- The job that scheduleRetry pushes.
unfoldable pub retry_job : Config → Tick → Job → Job
retry_job config tick job = record {
  id = job.id <> "_retry_" <> int_text (add64 job.attempt (pos 1));
  task_type_id = job.task_type_id;
  user_id = job.user_id;
  scheduled_at = tick.retry_scheduled_at;
  execute_after = add tick.retry_delayed_from (retry_delay config job.attempt);
  attempt = add64 job.attempt (pos 1);
  priority = job.priority;
  payload = job.payload;
  created_at = job.created_at;
}

abbrev pub push_failed : Failure → Failure
push_failed none = none
push_failed (some e) = some ("failed to push retry job: " <> e)

abbrev pub then_return : {State : Type 0} → Failure × World State → Ending × World State
then_return (failure, w) = (returned failure, w)

module _ (Q : MessageQueue) (J : Codec) (server : Server) {Redis : Type 0} where
  unfoldable pub schedule_retry :
      Pool Q.Queue Redis → Tick → Job → World Q.State → Failure × World Q.State
  schedule_retry p tick job w =
      let retry = some (retry_job p.config tick job) in
      let (failure, q) = push Q J p.queue_client tick.message_uuid retry w.queue in
      (push_failed failure, record w { queue = q })

  abbrev pub acknowledged :
      Pool Q.Queue Redis → PulledMessage → World Q.State → Failure × World Q.State
  acknowledged p msg w =
      let (failure, q) = ack Q J p.queue_client msg.message_id msg.receipt w.queue in
      (failure, record w { queue = q })

  -- From the execution on: the message is acknowledged, and then a retry is scheduled. Errors of
  -- both are only logged.
  unfoldable pub run_job :
      Pool Q.Queue Redis
      → Tick
      → PulledMessage
      → Job
      → TaskType
      → World Q.State
      → Ending × World Q.State
  run_job p tick msg job task w =
      let (result, sent) = execute_job server tick.started_at tick.completed_at job task in
      let (_, w') = acknowledged p msg (record w { requests = w.requests ++ sent }) in
      let retries = is_failed result.status && should_retry result p.config.max_retries in
      (returned none, if retries then (schedule_retry p tick job w').1 else w')

  abbrev pub with_task :
      Pool Q.Queue Redis
      → Tick
      → PulledMessage
      → Job
      → World Q.State
      → Result TaskType
      → Ending × World Q.State
  with_task p tick msg job w (err e) = then_return (acknowledged p msg w)
  with_task p tick msg job w (ok task) = run_job p tick msg job task w

  abbrev pub with_permit :
      Pool Q.Queue Redis
      → Tick
      → PulledMessage
      → Job
      → World Q.State
      → Result Bool
      → Ending × World Q.State
  with_permit p tick msg job w (err e) = (returned none, w)
  with_permit p tick msg job w (ok false) = (returned none, w)
  with_permit p tick msg job w (ok true) =
      with_task p tick msg job w (Registry.get p.registry job.task_type_id)

  unfoldable pub handle_job :
      Pool Q.Queue Redis → Tick → PulledMessage → Job → World Q.State → Ending × World Q.State
  handle_job p tick msg job w =
      let (permit, b) = allow p.rate_limiter tick.limiter_call tick.limited_at w.bucket in
      if before tick.checked_at job.execute_after
      then then_return (acknowledged p msg w)
      else with_permit p tick msg job (record w { bucket = b }) permit

  abbrev pub with_job :
      Pool Q.Queue Redis
      → Tick
      → PulledMessage
      → Option Job
      → World Q.State
      → Ending × World Q.State
  with_job p tick msg none w = (panicked, w)
  with_job p tick msg (some job) w = handle_job p tick msg job w

  abbrev pub with_message :
      Pool Q.Queue Redis
      → Tick
      → World Q.State
      → Result (Option PulledMessage)
      → Ending × World Q.State
  with_message p tick w (err e) = (returned (some ("failed to pull job: " <> e)), w)
  with_message p tick w (ok none) = (returned none, w)
  with_message p tick w (ok (some msg)) = with_job p tick msg msg.queue_message.job w

  -- processJob
  unfoldable pub process_job : Pool Q.Queue Redis → Tick → World Q.State → Ending × World Q.State
  process_job p tick w =
      let (message, q) = pull Q J p.queue_client w.queue in
      with_message p tick (record w { queue = q }) message
