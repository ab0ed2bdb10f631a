-- ===== src/Models/Job.antt =====
-- internal/models/job.go: jobs, execution results and queue messages.
pub mod Retry
use taskqueue_go.Prelude.{
  ℕ, suc, Bool, true, false, not, ◌&&◌, ◌||◌, Option, none, some, List, [], String, if◌then◌else◌,
}
use taskqueue_go.Prelude.Int.{ℤ, pos}
use taskqueue_go.GoTime.{Time, Duration}

-- An int.
abbrev pub Priority : Type 0
Priority = ℤ

abbrev pub priority_low : Priority
priority_low = pos 0

abbrev pub priority_normal : Priority
priority_normal = pos 1

abbrev pub priority_high : Priority
priority_high = pos 2

pub record Job : Type 0 where
  pub id : String
  pub task_type_id : String
  pub user_id : String
  pub scheduled_at : Time
  pub execute_after : Time
  pub attempt : ℤ  -- int
  pub priority : Priority
  pub payload : List ℕ  -- bytes
  pub created_at : Time

-- NewJob; `now` is the clock's reading and `uuid` the identifier that package uuid draws.
unfoldable pub new_job : String → Time → String → String → Time → Job
new_job uuid now task_type_id user_id execute_after = record {
  id = uuid;
  task_type_id = task_type_id;
  user_id = user_id;
  scheduled_at = now;
  execute_after = execute_after;
  attempt = pos 1;
  priority = priority_normal;
  payload = [];
  created_at = now;
}

pub data Status : Type 0 where
  pending running success failed retrying : Status

abbrev pub is_failed : Status → Bool
is_failed failed = true
is_failed _ = false

pub record ErrorDetail : Type 0 where
  pub code : String
  pub message : String
  pub retry : Bool

pub record ExecutionResult : Type 0 where
  pub job_id : String
  pub status : Status
  pub started_at : Time
  pub completed_at : Time
  pub duration : Duration
  pub error : Option ErrorDetail
  pub response : List ℕ
  pub next_attempt : Option Time

abbrev retry_flag : Option ErrorDetail → Bool
retry_flag none = false
retry_flag (some e) = e.retry

abbrev is_nil {ℓ} : {A : Type ℓ} → Option A → Bool
is_nil none = true
is_nil (some a) = false

-- ShouldRetry; the parameter is not read, as in the source.
unfoldable pub should_retry : ExecutionResult → ℤ → Bool
should_retry er max_attempts =
    if not (is_failed er.status) || is_nil er.error then false else retry_flag er.error

pub record QueueMessageMeta : Type 0 where
  pub correlation_id : String
  pub source : String
  pub distribution_slot : ℤ

pub record QueueMessage : Type 0 where
  pub version : String
  pub job : Option Job  -- a pointer, nil where the text has none
  pub metadata : QueueMessageMeta

unfoldable pub new_queue_message : String → Job → String → ℤ → QueueMessage
new_queue_message uuid job source slot = record {
  version = "1.0";
  job = some job;
  metadata = record { correlation_id = uuid; source = source; distribution_slot = slot };
}
