-- ===== src/Worker/Queued.antt =====
-- internal/worker/worker.go: what processJob leaves in the queue, where the queue is Fed by Push
-- alone.
use taskqueue_go.Prelude.{
  ◌≡◌, ◌≢◌, ◌∙◌, sym, subst, refl, Bool, true, false, Option, none, some, String, Result, ok, err,
  if◌then◌else◌,
}
use mathlib.Core.Option.{some-injective}
use taskqueue_go.GoTime.{before}
use taskqueue_go.Models.Job.{Job}
use taskqueue_go.Models.Task.{TaskType}
use taskqueue_go.RateLimit.{allow}
use taskqueue_go.Queue.Backend.{MessageQueue, Codec, IsFaithful, IsHonest}
use taskqueue_go.Queue.{PulledMessage, pull}
use taskqueue_go.Queue.Delivery.{Feeds, push-Feeds, pull-Feeds, ack-Feeds, pull_delivers}
use taskqueue_go.Worker.Http.{Server}
use taskqueue_go.Worker.{
  Pool, Tick, World, Ending, panicked, returned, retry_job, run_job, handle_job, process_job,
  with_message, with_job, with_permit, with_task, schedule_retry, then_return, acknowledged,
}

module _ (Q : MessageQueue) (J : Codec) (server : Server) {Redis : Type 0} (p : Pool Q.Queue Redis)
    (honest : IsHonest Q) (faithful : IsFaithful J) (P : Job → Type 0) (tick : Tick)
    (closed : (job : Job) → P job → P (retry_job p.config tick job)) where
  abbrev Fed : World Q.State → Type 0
  Fed w = Feeds Q J honest P p.queue_client.queue_name w.queue

  abbrev EndsWell : Ending × World Q.State → Type 0
  EndsWell (ending, w) = (ending ≢ panicked) × Fed w

  acknowledged-Fed :
      (msg : PulledMessage) (w : World Q.State) → Fed w → Fed (acknowledged Q J server p msg w).1
  acknowledged-Fed msg w f =
      ack-Feeds Q J honest P p.queue_client msg.message_id msg.receipt w.queue f

  schedule_retry-Fed :
      (job : Job) (w : World Q.State)
      → P job
      → Fed w
      → Fed (schedule_retry Q J server p tick job w).1
  unfolding schedule_retry
  schedule_retry-Fed job w h f =
      push-Feeds Q J honest P p.queue_client tick.message_uuid (retry_job p.config tick job) w.queue
        (closed job h) f

  returns : (e : Option String) → returned e ≢ panicked
  returns e h = cc

  run_job-EndsWell :
      (msg : PulledMessage) (job : Job) (task : TaskType) (w : World Q.State)
      → P job
      → Fed w
      → EndsWell (run_job Q J server p tick msg job task w)
  unfolding run_job
  run_job-EndsWell msg job task w h f = (returns none, either _ _ (acknowledged-Fed msg w f))
    where
      either :
          (b : Bool) (v : World Q.State)
          → Fed v
          → Fed (if b then (schedule_retry Q J server p tick job v).1 else v)
      either true v g = schedule_retry-Fed job v h g
      either false v g = g

  with_task-EndsWell :
      (msg : PulledMessage) (job : Job) (w : World Q.State) (t : Result TaskType)
      → P job
      → Fed w
      → EndsWell (with_task Q J server p tick msg job w t)
  with_task-EndsWell msg job w (err e) h f = (returns _, acknowledged-Fed msg w f)
  with_task-EndsWell msg job w (ok task) h f = run_job-EndsWell msg job task w h f

  with_permit-EndsWell :
      (msg : PulledMessage) (job : Job) (w : World Q.State) (r : Result Bool)
      → P job
      → Fed w
      → EndsWell (with_permit Q J server p tick msg job w r)
  with_permit-EndsWell msg job w (err e) h f = (returns none, f)
  with_permit-EndsWell msg job w (ok false) h f = (returns none, f)
  with_permit-EndsWell msg job w (ok true) h f = with_task-EndsWell msg job w _ h f

  handle_job-EndsWell :
      (msg : PulledMessage) (job : Job) (w : World Q.State)
      → P job
      → Fed w
      → EndsWell (handle_job Q J server p tick msg job w)
  unfolding handle_job
  handle_job-EndsWell msg job w h f = go (before tick.checked_at job.execute_after)
    where
      go :
          (early : Bool)
          → EndsWell (
              if early
              then then_return (acknowledged Q J server p msg w)
              else with_permit Q J server p tick msg job
                  (record w {
                    bucket = (allow p.rate_limiter tick.limiter_call tick.limited_at w.bucket).1;
                  })
                  (allow p.rate_limiter tick.limiter_call tick.limited_at w.bucket).0)
      go true = (returns _, acknowledged-Fed msg w f)
      go false = with_permit-EndsWell msg job _ _ h f

  -- If every message in the queue is for a job with a property that a retry keeps, then so it is
  -- after processJob, whatever fails in it, and processJob does not panic. The queue gives out and
  -- keeps what was sent to it, and the codec reads back what it wrote.
  pub process_job-Feeds :
      (w : World Q.State)
      → Feeds Q J honest P p.queue_client.queue_name w.queue
      → ((process_job Q J server p tick w).0 ≢ panicked)
        × Feeds Q J honest P p.queue_client.queue_name (process_job Q J server p tick w).1.queue
  unfolding process_job
  process_job-Feeds w f = go _ refl
    where
      v : World Q.State
      v = record w { queue = (pull Q J p.queue_client w.queue).1 }

      left : Fed v
      left = pull-Feeds Q J honest P p.queue_client w.queue f

      delivered :
          (msg : PulledMessage) (o : Option Job)
          → msg.queue_message.job ≡ o
          → (job : Job) × (msg.queue_message.job ≡ some job) × P job
          → EndsWell (with_job Q J server p tick msg o v)
      delivered msg none same (job, has, h) = cc
      delivered msg (some job) same (job', has, h) =
          handle_job-EndsWell msg job v (subst P (some-injective job' job (sym has ∙ same)) h) left

      go :
          (m : Result (Option PulledMessage))
          → (pull Q J p.queue_client w.queue).0 ≡ m
          → EndsWell (with_message Q J server p tick v m)
      go (err e) same = (returns _, left)
      go (ok none) same = (returns none, left)
      go (ok (some msg)) same =
          delivered msg _ refl
            (pull_delivers Q J honest P faithful p.queue_client w.queue msg f same)
