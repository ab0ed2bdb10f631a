-- ===== src/Worker/Tests.antt =====
-- internal/worker/worker.go: runs, and the theorems at concrete data.
use taskqueue_go.Prelude.{
  ◌*◌, ◌^◌, ◌≡◌, ◌≢◌, ◌↔◌, ◌⊎◌, refl, true, false, none, some, List, [], ◌∷◌, arith, inr,
  string_dec, if◌then◌else◌, ltb,
}
use taskqueue_go.Prelude.Int.{pos, ◌+ℤ◌, ◌*ℤ◌, ◌-ℤ◌}
use taskqueue_go.Models.Job.{Job, should_retry}
use taskqueue_go.Models.Task.{TaskType}
use taskqueue_go.RateLimit.{Limiter, answered}
use taskqueue_go.Queue.Memory.{
  memory_queue, memory_queue-IsHonest, two_messages, take_first, two_messages-IsFaithful, Waiting,
}
use taskqueue_go.Queue.Tests.{client, job, written, codec, OfAnn, one_waits, one_waits-Feeds}
use taskqueue_go.Queue.Delivery.{Feeds}
use taskqueue_go.Distributor.Tests.{sync}
use taskqueue_go.Worker.Http.{Server, Chunk, response}
use taskqueue_go.Worker.Execute.{read_body, job_request, execute_job}
use taskqueue_go.Worker.Outcome.{Retryable, Created, answer, execute_job-should_retry_iff}
use taskqueue_go.Worker.Backoff.{Config, calculate_exponential_backoff}
use taskqueue_go.Worker.Backoff.Bounds.{
  calculate_exponential_backoff-exact, calculate_exponential_backoff-zero,
}
use taskqueue_go.Worker.Retries.{IsRetry, process_job-retries}
use taskqueue_go.Queue.Sending.{SentAll}
use taskqueue_go.Queue.Backend.{Codec}
use taskqueue_go.Queue.{pull}
use taskqueue_go.Registry.{get}
use taskqueue_go.Models.Job.{QueueMessage, new_queue_message}
use taskqueue_go.RateLimit.{allow, allow_n}
use taskqueue_go.RateLimit.Script.{token_bucket_script, refilled}
use taskqueue_go.GoTime.{whole_seconds, unix}
use taskqueue_go.Prelude.Dict.{lookup}
use taskqueue_go.Worker.Safety.{MayRun, Sends, process_job-requests}
use taskqueue_go.Worker.Queued.{process_job-Feeds}
use taskqueue_go.Worker.{Pool, Tick, World, panicked, process_job, retry_job}

abbrev chunks : List Chunk
chunks = record { bytes = 1 ∷ 2 ∷ []; ended = false } ∷ record { bytes = 3 ∷ []; ended = true } ∷ []

read_all : read_body [] chunks ≡ 1 ∷ 2 ∷ 3 ∷ []
unfolding read_body
read_all = refl

abbrev pub unavailable : Server
unavailable = record {
  request_error = λ method url. none;
  canonical_key = λ key. key;
  do_request = λ request timeout. response (pos 503) chunks;
}

execute_job-should_retry_iff_example :
    (should_retry (execute_job unavailable (pos 30) (pos 40) job sync).0 (pos 0) ≡ true) ↔ (
      Created unavailable (pos 30) (pos 40) job sync
      × Retryable (answer unavailable (pos 30) (pos 40) job sync))
execute_job-should_retry_iff_example =
    execute_job-should_retry_iff unavailable (pos 30) (pos 40) job sync (pos 0)

abbrev config : Config
config = record {
  pool_size = pos 2;
  poll_interval = pos 1_000_000_000;
  max_job_timeout = pos 300_000_000_000;
  retry_delay = pos 30_000_000_000;
  max_retries = pos 3;
  execution_timeout = pos 30_000_000_000;
  retry_backoff = "exponential";
  retry_base_delay = pos 1_000_000_000;
  retry_max_delay = pos 300_000_000_000;
}

calculate_exponential_backoff-exact_example : calculate_exponential_backoff config (pos 4) ≡ (
    if ltb 300_000_000_000 (2 ^ 3 * 1_000_000_000)
    then pos 300_000_000_000
    else pos (2 ^ 3 * 1_000_000_000))
calculate_exponential_backoff-exact_example =
    calculate_exponential_backoff-exact config 1_000_000_000 300_000_000_000 2 refl refl
      (omega arith) (omega arith)

calculate_exponential_backoff-zero_example : calculate_exponential_backoff config (pos 65) ≡ pos 0
calculate_exponential_backoff-zero_example =
    calculate_exponential_backoff-zero config 300_000_000_000 64 refl (omega arith)

abbrev limiter : Limiter (Unit {0})
limiter = record {
  client = tt;
  config = record {
    redis_client = some tt;
    key_prefix = "k";
    limit = pos 100;
    window = pos 1_000_000_000;
    burst_size = pos 150;
  };
}

abbrev pool : Pool (Unit {0}) (Unit {0})
pool = record {
  config = config;
  queue_client = client;
  rate_limiter = limiter;
  registry = record { tasks = ("sync", sync) ∷ []; file_path = "tasks.yaml" };
}

abbrev pub tick : Tick
tick = record {
  checked_at = pos 30;
  limited_at = pos 30;
  limiter_call = answered;
  started_at = pos 30;
  completed_at = pos 40;
  retry_scheduled_at = pos 41;
  retry_delayed_from = pos 41;
  message_uuid = "c2";
}

abbrev pub world : World Waiting
world = record { queue = one_waits; bucket = none; requests = [] }

-- The hundred-first attempt, where three are configured.
abbrev pub late_attempt : Job
late_attempt = record job { attempt = pos 101 }

abbrev late_message : QueueMessage
unfolding new_queue_message
late_message = new_queue_message "c1" late_attempt "scheduler" (pos 0)

abbrev late_codec : Codec
unfolding two_messages
late_codec = two_messages late_message late_message

late_attempt-MayRun : MayRun memory_queue late_codec unavailable pool tick world late_attempt sync
unfolding two_messages take_first string_dec pull allow allow_n token_bucket_script get late_message
    refilled whole_seconds ◌+ℤ◌ ◌*ℤ◌ ◌-ℤ◌ unix lookup
late_attempt-MayRun = record {
  message = record { message_id = "a"; receipt = "a"; queue_message = late_message };
  delivered = refl;
  has_job = refl;
  due = refl;
  permitted = refl;
  known = refl;
}

process_job-retries_example :
    (retry : Job) × IsRetry late_attempt retry
    × SentAll memory_queue late_codec client
        (("c2", retry) ∷ [])
        []
        (process_job memory_queue late_codec unavailable pool tick world).1.queue
unfolding take_first string_dec
process_job-retries_example =
    process_job-retries memory_queue late_codec unavailable pool tick world late_attempt sync
      late_attempt-MayRun refl (inr (pos 503, chunks, refl, omega arith))

process_job-requests_example :
    Sends memory_queue codec unavailable pool tick world
      (process_job memory_queue codec unavailable pool tick world)
      []
    ⊎ ((j : Job) × (task : TaskType) × MayRun memory_queue codec unavailable pool tick world j task
        × Sends memory_queue codec unavailable pool tick world
            (process_job memory_queue codec unavailable pool tick world)
            (job_request unavailable j task ∷ []))
process_job-requests_example = process_job-requests memory_queue codec unavailable pool tick world

kept_by_retry : (j : Job) → OfAnn j → OfAnn (retry_job config tick j)
unfolding retry_job
kept_by_retry j h = h

process_job-Feeds_example :
    ((process_job memory_queue codec unavailable pool tick world).0 ≢ panicked)
    × Feeds memory_queue codec memory_queue-IsHonest OfAnn "jobs"
        (process_job memory_queue codec unavailable pool tick world).1.queue
process_job-Feeds_example =
    process_job-Feeds memory_queue codec unavailable pool memory_queue-IsHonest
      (two_messages-IsFaithful written written) OfAnn tick kept_by_retry world one_waits-Feeds
