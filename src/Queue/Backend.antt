-- ===== src/Queue/Backend.antt =====
-- What internal/queue uses of github.com/thara/message-queue-go and of encoding/json, as
-- interfaces with the laws that the theorems name.
use taskqueue_go.Prelude.{◌≡◌, ◌⊎◌, String, Result, ok, Failure}
use taskqueue_go.Prelude.Int.{ℤ}
use taskqueue_go.GoTime.{Duration}
use taskqueue_go.Models.Job.{QueueMessage}

-- The library's Config.
pub record BackendConfig : Type 0 where
  pub redis_addr : String
  pub redis_password : String
  pub redis_db : ℤ
  pub max_retries : ℤ
  pub default_visibility : Duration
  pub dead_letter_queue : String

pub record Message : Type 0 where
  pub id : String
  pub receipt : String
  pub payload : String

-- PullMessage's results: ErrQueueEmpty, another error, a nil message, a message.
pub data PullOutcome : Type 0 where
  queue_empty : PullOutcome
  pull_failed : String → PullOutcome
  no_message : PullOutcome
  pulled : Message → PullOutcome

-- Queue is a connection; State is all that the server holds.
pub record MessageQueue : Type 1 where
  pub Queue : Type 0
  pub State : Type 0
  pub push_message : Queue → String → String → State → Failure × State
  pub pull_message : Queue → String → Duration → State → PullOutcome × State
  pub ack : Queue → String → String → State → Failure × State
  pub close : Queue → State → Failure × State

-- json.Marshal and json.Unmarshal at QueueMessage.
pub record Codec : Type 0 where
  pub marshal : QueueMessage → Result String
  pub unmarshal : String → Result QueueMessage

-- What is marshalled reads back as it was.
pub record IsFaithful (J : Codec) : Type 0 where
  pub unmarshal-marshal :
      (m : QueueMessage) (text : String) → J.marshal m ≡ ok text → J.unmarshal text ≡ ok m

-- The queue makes up no payload: what it holds after a call it held before, or was given by the
-- call, and a message that it delivers it held.
pub record IsHonest (Q : MessageQueue) : Type 1 where
  pub HoldsText : Q.State → String → String → Type 0
  pub push-HoldsText :
      (q : Q.Queue) (name text : String) (s : Q.State) (name' text' : String)
      → HoldsText (Q.push_message q name text s).1 name' text'
      → ((name' ≡ name) × (text' ≡ text)) ⊎ HoldsText s name' text'
  pub pull-HoldsText :
      (q : Q.Queue) (name : String) (visibility : Duration) (s : Q.State) (name' text : String)
      → HoldsText (Q.pull_message q name visibility s).1 name' text
      → HoldsText s name' text
  pub ack-HoldsText :
      (q : Q.Queue) (id receipt : String) (s : Q.State) (name text : String)
      → HoldsText (Q.ack q id receipt s).1 name text
      → HoldsText s name text
  pub pulled-HoldsText :
      (q : Q.Queue) (name : String) (visibility : Duration) (s : Q.State) (m : Message)
      → (Q.pull_message q name visibility s).0 ≡ pulled m
      → HoldsText s name m.payload
