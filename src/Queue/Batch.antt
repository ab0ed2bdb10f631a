-- ===== src/Queue/Batch.antt =====
-- internal/queue/client.go: PushBatch, where the queue is fed by Push alone.
use taskqueue_go.Prelude.{Option, none, some, List, [], ◌∷◌, String, Option-cases, inl, inr}
use taskqueue_go.Models.Job.{Job}
use taskqueue_go.Queue.Backend.{MessageQueue, Codec, IsHonest}
use taskqueue_go.Queue.{Client, push, push_batch}
use taskqueue_go.Queue.Delivery.{Feeds, push-Feeds}

-- Each job of a batch that is not nil has the property.
abbrev pub AllJobs : (Job → Type 0) → List (String × Option Job) → Type 0
AllJobs P [] = Unit {0}
AllJobs P ((uuid, none) ∷ jobs) = AllJobs P jobs
AllJobs P ((uuid, some job) ∷ jobs) = P job × AllJobs P jobs

module _ (Q : MessageQueue) (J : Codec) (honest : IsHonest Q) (P : Job → Type 0)
    (c : Client Q.Queue) where
  -- If every message in the queue is for a job with a property and every job of a batch has it, then
  -- PushBatch leaves only such messages, whether or not a push of it fails.
  pub push_batch-Feeds :
      (jobs : List (String × Option Job)) (s : Q.State)
      → AllJobs P jobs
      → Feeds Q J honest P c.queue_name s
      → Feeds Q J honest P c.queue_name (push_batch Q J c jobs s).1
  unfolding push_batch
  push_batch-Feeds [] s all f = f
  push_batch-Feeds ((uuid, none) ∷ jobs) s all f = push_batch-Feeds jobs s all f
  push_batch-Feeds ((uuid, some job) ∷ jobs) s (p, all) f =
      let kept = push-Feeds Q J honest P c uuid job s p f in
      elim (Option-cases (push Q J c uuid (some job) s).0) [
        | inl sent ↦ rw (sent, push_batch) (push_batch-Feeds jobs _ all kept)
        | inr (e, refused) ↦ rw (refused, push_batch) kept
      ]
