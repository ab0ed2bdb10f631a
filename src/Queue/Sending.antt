-- ===== src/Queue/Sending.antt =====
-- internal/queue/client.go: what reaches the message queue where jobs are pushed in turn, in terms of the
-- queue library's PushMessage and of json.Marshal alone.
use taskqueue_go.Prelude.{◌≡◌, refl, some, List, [], ◌∷◌, String, Result, ok, err}
use taskqueue_go.Prelude.Int.{pos}
use taskqueue_go.Models.Job.{Job, QueueMessage, new_queue_message}
use taskqueue_go.Queue.Backend.{MessageQueue, Codec}
use taskqueue_go.Queue.{Client, send, push}

-- The message of a job, with its correlation identifier.
abbrev pub message_of : String → Job → QueueMessage
message_of uuid job = record {
  version = "1.0";
  job = some job;
  metadata = record { correlation_id = uuid; source = "scheduler"; distribution_slot = pos 0 };
}

module _ (Q : MessageQueue) (J : Codec) (c : Client Q.Queue) where
  -- Each job's message is given to PushMessage once, in the order of the jobs, whatever the calls before
  -- it have answered; one that json.Marshal refuses is passed over.
  pub data SentAll : List (String × Job) → Q.State → Q.State → Type 0 where
    all_sent : {s : Q.State} → SentAll [] s s
    send_next :
        {uuid text : String} {job : Job} {jobs : List (String × Job)} {s s' : Q.State}
        → J.marshal (message_of uuid job) ≡ ok text
        → SentAll jobs (Q.push_message c.queue c.queue_name text s).1 s'
        → SentAll ((uuid, job) ∷ jobs) s s'
    pass_over :
        {uuid e : String} {job : Job} {jobs : List (String × Job)} {s s' : Q.State}
        → J.marshal (message_of uuid job) ≡ err e
        → SentAll jobs s s'
        → SentAll ((uuid, job) ∷ jobs) s s'

  -- A push is a message sent, before the others.
  pub push-SentAll :
      (uuid : String) (job : Job) (jobs : List (String × Job)) (s s' : Q.State)
      → SentAll jobs (push Q J c uuid (some job) s).1 s'
      → SentAll ((uuid, job) ∷ jobs) s s'
  unfolding push new_queue_message
  push-SentAll uuid job jobs s s' = go _ refl
    where
      go :
          (r : Result String)
          → J.marshal (message_of uuid job) ≡ r
          → SentAll jobs (send Q J c r s).1 s'
          → SentAll ((uuid, job) ∷ jobs) s s'
      go (ok text) e sent = send_next e sent
      go (err x) e sent = pass_over e sent
