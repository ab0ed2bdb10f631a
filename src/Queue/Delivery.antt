-- ===== src/Queue/Delivery.antt =====
-- internal/queue/client.go: what Pull delivers, where the queue is fed by Push alone.
use taskqueue_go.Prelude.{
  ◌≡◌, ◌⊎◌, inl, inr, refl, some, String, Result, ok, err, arith, sym, ◌∙◌, ap,
}
use taskqueue_go.Prelude.Int.{pos}
use taskqueue_go.Models.Job.{Job, QueueMessage, new_queue_message}
use taskqueue_go.Queue.Backend.{
  MessageQueue, Codec, IsFaithful, IsHonest, Message, PullOutcome, pulled, queue_empty, pull_failed,
  no_message,
}
use taskqueue_go.Queue.{Client, PulledMessage, push, pull, ack, send, received}

carried_job :
    (uuid : String) (job : Job) (q : QueueMessage)
    → ok q ≡ ok (new_queue_message uuid job "scheduler" (pos 0))
    → q.job ≡ some job
unfolding new_queue_message
carried_job uuid job q e = ground arith

module _ (Q : MessageQueue) (J : Codec) (honest : IsHonest Q) (P : Job → Type 0) where
  -- The text is that of a message for a job with the property.
  abbrev pub Carries : String → Type 0
  Carries text =
      (uuid : String) × (job : Job) × P job
      × (J.marshal (new_queue_message uuid job "scheduler" (pos 0)) ≡ ok text)

  -- All that the queue holds under a name are messages for jobs with the property.
  pub record Feeds (name : String) (s : Q.State) : Type 0 where
    pub carried : (text : String) → honest.HoldsText s name text → Carries text

  send-Feeds :
      (c : Client Q.Queue) (uuid : String) (job : Job) (s : Q.State) (r : Result String)
      → J.marshal (new_queue_message uuid job "scheduler" (pos 0)) ≡ r
      → P job
      → Feeds c.queue_name s
      → Feeds c.queue_name (send Q J c r s).1
  send-Feeds c uuid job s (err e) same p f = f
  send-Feeds c uuid job s (ok text) same p f = record {
    carried = λ text' h.
        from text' (honest.push-HoldsText c.queue c.queue_name text s c.queue_name text' h);
  }
    where
      from :
          (text' : String)
          → ((c.queue_name ≡ c.queue_name) × (text' ≡ text)) ⊎ honest.HoldsText s c.queue_name text'
          → Carries text'
      from text' (inl (name, t)) = (uuid, job, p, same ∙ ap ok (sym t))
      from text' (inr old) = f.carried text' old

  received-message :
      (o : PullOutcome) (m : PulledMessage)
      → received Q J o ≡ ok (some m)
      → (msg : Message) × (o ≡ pulled msg) × (J.unmarshal msg.payload ≡ ok m.queue_message)
  received-message queue_empty m e = cc
  received-message (pull_failed x) m e = cc
  received-message no_message m e = cc
  received-message (pulled msg) m e = (msg, refl, ground arith)

  -- Push keeps to jobs with the property when it is given one.
  pub push-Feeds :
      (c : Client Q.Queue) (uuid : String) (job : Job) (s : Q.State)
      → P job
      → Feeds c.queue_name s
      → Feeds c.queue_name (push Q J c uuid (some job) s).1
  unfolding push
  push-Feeds c uuid job s p f = send-Feeds c uuid job s _ refl p f

  -- If every message in the queue is for a job with a property, then a message that Pull delivers
  -- has a job, so no worker meets a nil one, and the job has the property. The queue gives out what
  -- was sent to it, and the codec reads back what it wrote.
  pub pull_delivers :
      IsFaithful J
      → (c : Client Q.Queue) (s : Q.State) (m : PulledMessage) → Feeds c.queue_name s
      → (pull Q J c s).0 ≡ ok (some m)
      → (job : Job) × (m.queue_message.job ≡ some job) × P job
  unfolding pull
  pull_delivers faithful c s m f e =
      let (msg, delivered, decoded) = received-message _ m e in
      let held =
        honest.pulled-HoldsText c.queue c.queue_name c.cfg.default_visibility s msg delivered in
      let (uuid, job, p, written) = f.carried msg.payload held in
      (
        job,
        carried_job uuid job m.queue_message
            (sym decoded ∙ faithful.unmarshal-marshal _ msg.payload written),
        p,
      )

  -- Pull and Ack add nothing.
  pub pull-Feeds :
      (c : Client Q.Queue) (s : Q.State)
      → Feeds c.queue_name s
      → Feeds c.queue_name (pull Q J c s).1
  unfolding pull
  pull-Feeds c s f = record {
    carried = λ text h.
        f.carried text (
          honest.pull-HoldsText c.queue c.queue_name c.cfg.default_visibility s c.queue_name text
            h);
  }

  pub ack-Feeds :
      (c : Client Q.Queue) (id receipt : String) (s : Q.State)
      → Feeds c.queue_name s
      → Feeds c.queue_name (ack Q J c id receipt s).1
  unfolding ack
  ack-Feeds c id receipt s f = record {
    carried =
        λ text h. f.carried text (honest.ack-HoldsText c.queue id receipt s c.queue_name text h);
  }
