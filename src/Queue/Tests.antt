-- ===== src/Queue/Tests.antt =====
-- internal/queue/client.go: the theorems at a queue in memory.
use taskqueue_go.Prelude.{◌≡◌, refl, ap, sym, ◌∙◌, some, [], ◌∷◌, String, ok, inl, inr, string_dec}
use taskqueue_go.Prelude.Int.{pos}
use taskqueue_go.Models.Job.{Job, QueueMessage, new_queue_message, priority_normal}
use taskqueue_go.Queue.Backend.{Codec}
use taskqueue_go.Queue.Memory.{
  memory_queue, memory_queue-IsHonest, two_messages, two_messages-IsFaithful, take_first, Waiting,
  marshal-first,
}
use taskqueue_go.Queue.Delivery.{Feeds, Carries, pull_delivers}
use taskqueue_go.Queue.{Client, PulledMessage, pull}

abbrev pub client : Client (Unit {0})
client = record {
  queue = tt;
  cfg = record {
    redis_addr = "localhost";
    redis_password = "";
    redis_db = pos 0;
    queue_name = "jobs";
    max_retries = pos 3;
    default_visibility = pos 30_000_000_000;
    dead_letter_queue = "";
  };
  queue_name = "jobs";
}

abbrev pub job : Job
job = record {
  id = "j1";
  task_type_id = "sync";
  user_id = "ann";
  scheduled_at = pos 10;
  execute_after = pos 20;
  attempt = pos 1;
  priority = priority_normal;
  payload = [];
  created_at = pos 10;
}

abbrev pub written : QueueMessage
written = record {
  version = "1.0";
  job = some job;
  metadata = record { correlation_id = "c1"; source = "scheduler"; distribution_slot = pos 0 };
}

abbrev pub codec : Codec
codec = two_messages written written

abbrev pub OfAnn : Job → Type 0
OfAnn j = j.user_id ≡ "ann"

abbrev pub one_waits : Waiting
one_waits = ("jobs", "a") ∷ []

pub one_waits-Feeds : Feeds memory_queue codec memory_queue-IsHonest OfAnn "jobs" one_waits
unfolding new_queue_message
one_waits-Feeds = record { carried = carried }
  where
    carried :
        (text : String)
        → memory_queue-IsHonest.HoldsText one_waits "jobs" text
        → Carries memory_queue codec memory_queue-IsHonest OfAnn text
    carried text (inl (_, is_a)) =
        ("c1", job, refl, marshal-first written written ∙ ap ok (sym is_a))
    carried text (inr h) = absurd h

abbrev delivered : PulledMessage
delivered = record { message_id = "a"; receipt = "a"; queue_message = written }

pull_delivers_example : (j : Job) × (delivered.queue_message.job ≡ some j) × OfAnn j
unfolding pull take_first two_messages string_dec
pull_delivers_example =
    pull_delivers memory_queue codec memory_queue-IsHonest OfAnn
      (two_messages-IsFaithful written written) client one_waits delivered one_waits-Feeds refl
