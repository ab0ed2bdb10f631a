-- ===== src/Queue.antt =====
-- internal/queue/client.go: the client of the message queue. The queue itself is
-- github.com/thara/message-queue-go, and the JSON encoding of a message is encoding/json's: both
-- are parameters (Queue/Backend).
pub mod Backend
pub mod Delivery
pub mod Batch
pub mod Sending
pub mod Memory
pub mod Tests
use taskqueue_go.Prelude.{
  ◌<>◌, Bool, true, false, Option, none, some, List, [], ◌∷◌, String, if◌then◌else◌, ◌==◌, Result,
  ok, err, ◌>>=◌, wrap, Failure,
}
use taskqueue_go.Prelude.Int.{ℤ, pos, eqb_ℤ}
use taskqueue_go.GoTime.{Duration}
use taskqueue_go.Models.Job.{Job, QueueMessage, new_queue_message}
use Backend.{
  BackendConfig, MessageQueue, Codec, Message, PullOutcome, queue_empty, pull_failed, no_message,
  pulled,
}

pub record Config : Type 0 where
  pub redis_addr : String
  pub redis_password : String
  pub redis_db : ℤ  -- int
  pub queue_name : String
  pub max_retries : ℤ  -- int
  pub default_visibility : Duration
  pub dead_letter_queue : String

-- `Queue` is the type of the connection that the queue library returns.
pub record Client (Queue : Type 0) : Type 0 where
  pub queue : Queue
  pub cfg : Config
  pub queue_name : String

-- A message with the receipt that acknowledges it.
pub record PulledMessage : Type 0 where
  pub message_id : String
  pub receipt : String
  pub queue_message : QueueMessage

abbrev default_retries : Config → Config
default_retries c = if eqb_ℤ c.max_retries (pos 0) then record c { max_retries = pos 3 } else c

abbrev default_visible : Config → Config
default_visible c =
    if eqb_ℤ c.default_visibility (pos 0)
    then record c { default_visibility = pos 30_000_000_000 }
    else c

abbrev default_name : Config → Config
default_name c = if c.queue_name == "" then record c { queue_name = "taskqueue:jobs" } else c

unfoldable pub with_defaults : Config → Config
with_defaults c = default_name (default_visible (default_retries c))

unfoldable pub backend_config : Config → BackendConfig
backend_config c = record {
  redis_addr = c.redis_addr;
  redis_password = c.redis_password;
  redis_db = c.redis_db;
  max_retries = c.max_retries;
  default_visibility = c.default_visibility;
  dead_letter_queue = c.dead_letter_queue;
}

-- NewClient; `connect` is the library's NewRedisQueue.
unfoldable pub new_client :
    {Queue : Type 0} → (BackendConfig → Result Queue) → Option Config → Result (Client Queue)
new_client connect none = err "config cannot be nil"
new_client connect (some c) = do
  let cfg = with_defaults c
  q ← wrap (λ e. "failed to create message queue: " <> e) (connect (backend_config cfg))
  ok (record { queue = q; cfg = cfg; queue_name = cfg.queue_name })

module _ (Q : MessageQueue) (J : Codec) where
  abbrev pub send : Client Q.Queue → Result String → Q.State → Failure × Q.State
  send c (ok text) s = Q.push_message c.queue c.queue_name text s
  send c (err e) s = (some ("failed to marshal queue message: " <> e), s)

  -- Push; `uuid` is the correlation identifier that package uuid draws.
  unfoldable pub push : Client Q.Queue → String → Option Job → Q.State → Failure × Q.State
  push c uuid none s = (some "job cannot be nil", s)
  push c uuid (some job) s = send c (J.marshal (new_queue_message uuid job "scheduler" (pos 0))) s

  abbrev pub push_error : Job → Failure → Failure
  push_error job none = none
  push_error job (some e) = some ("failed to push job " <> job.id <> ": " <> e)

  -- PushBatch; each job comes with the identifier drawn for its message. Nil jobs are passed over,
  -- and the first push that fails ends the loop.
  unfoldable pub push_batch :
      Client Q.Queue → List (String × Option Job) → Q.State → Failure × Q.State
  push_batch c [] s = (none, s)
  push_batch c ((uuid, none) ∷ jobs) s = push_batch c jobs s
  push_batch c ((uuid, some job) ∷ jobs) s =
      let (failure, s') = push c uuid (some job) s in
      let rest = push_batch c jobs s' in
      elim failure [ none ↦ rest | some e ↦ (push_error job (some e), s') ]

  abbrev pub decode : Message → Result QueueMessage → Result (Option PulledMessage)
  decode m (ok q) = ok (some (record { message_id = m.id; receipt = m.receipt; queue_message = q }))
  decode m (err e) = err ("failed to unmarshal queue message: " <> e)

  abbrev pub received : PullOutcome → Result (Option PulledMessage)
  received queue_empty = ok none
  received (pull_failed e) = err e
  received no_message = ok none
  received (pulled m) = decode m (J.unmarshal m.payload)

  unfoldable pub pull : Client Q.Queue → Q.State → Result (Option PulledMessage) × Q.State
  pull c s =
      let (outcome, s') = Q.pull_message c.queue c.queue_name c.cfg.default_visibility s in
      (received outcome, s')

  unfoldable pub ack : Client Q.Queue → String → String → Q.State → Failure × Q.State
  ack c message_id receipt s = Q.ack c.queue message_id receipt s

  -- Close; NewClient's queue is never nil.
  unfoldable pub close : Client Q.Queue → Q.State → Failure × Q.State
  close c s = Q.close c.queue s
