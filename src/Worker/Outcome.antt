-- ===== src/Worker/Outcome.antt =====
-- internal/worker/worker.go: how executeJob judges what it gets.
use taskqueue_go.Prelude.{
  ◌≡◌, ◌↔◌, ◌⊎◌, inl, inr, refl, none, some, List, String, true, arith, Failure,
}
use taskqueue_go.Prelude.Int.{ℤ, pos, ◌≤ℤ◌, ◌<ℤ◌}
use taskqueue_go.GoTime.{Time}
use taskqueue_go.Models.Job.{Job, success, should_retry}
use taskqueue_go.Models.Task.{TaskType}
use taskqueue_go.Worker.Http.{Server, Chunk, Reply, request_failed, response}
use taskqueue_go.Worker.Execute.{job_request, from_reply, attempted, execute_job}

abbrev pub Succeeds : Reply → Type 0
Succeeds r =
    (code : ℤ) × (chunks : List Chunk) × (r ≡ response code chunks)
    × (pos 200 ≤ℤ code)
    × (code <ℤ pos 300)

abbrev pub Retryable : Reply → Type 0
Retryable r =
    ((e : String) × (r ≡ request_failed e))
    ⊎ ((code : ℤ) × (chunks : List Chunk) × (r ≡ response code chunks) × (pos 500 ≤ℤ code))

module _ (started completed : Time) (job : Job) where
  from_reply-success_iff :
      (server : Server) (r : Reply)
      → ((from_reply server started completed job r).status ≡ success) ↔ Succeeds r
  from_reply-success_iff server (request_failed e) = (λ h. cc, λ (code, chunks, same, _, _). cc)
  from_reply-success_iff server (response code chunks) =
      (λ h. (code, chunks, refl, ground arith, ground arith), λ (c, b, same, lo, hi). ground arith)

  from_reply-should_retry_iff :
      (server : Server) (r : Reply) (n : ℤ)
      → (should_retry (from_reply server started completed job r) n ≡ true) ↔ Retryable r
  unfolding should_retry
  from_reply-should_retry_iff server (request_failed e) n = (λ h. inl (e, refl), λ h. refl)
  from_reply-should_retry_iff server (response code chunks) n = (there, back)
    where
      there :
          should_retry (from_reply server started completed job (response code chunks)) n ≡ true
          → Retryable (response code chunks)
      there h = inr (code, chunks, refl, ground arith)

      back :
          Retryable (response code chunks)
          → should_retry (from_reply server started completed job (response code chunks)) n ≡ true
      back (inl (e, same)) = cc
      back (inr (c, b, same, h)) = ground arith

module _ (server : Server) (started completed : Time) (job : Job) (task : TaskType) where
  abbrev pub Created : Type 0
  Created = server.request_error task.config.method task.config.endpoint ≡ none

  abbrev pub answer : Reply
  answer = server.do_request (job_request server job task) task.timeout

  -- The job succeeds exactly when the request could be made and was answered with a status from
  -- 200 to 299.
  pub execute_job-success_iff :
      ((execute_job server started completed job task).0.status ≡ success)
      ↔ (Created × Succeeds answer)
  unfolding execute_job
  execute_job-success_iff = go _ refl
    where
      go :
          (f : Failure)
          → server.request_error task.config.method task.config.endpoint ≡ f
          → ((attempted server started completed job task f).0.status ≡ success)
            ↔ (Created × Succeeds answer)
      go (some e) same = (λ h. cc, λ (made, _). cc)
      go none same =
          let judged = from_reply-success_iff started completed job server answer in
          (λ h. (same, judged.0 h), λ (_, s). judged.1 s)

  unretried :
      (max_attempts : ℤ) (e : String)
      → should_retry (attempted server started completed job task (some e)).0 max_attempts ≡ true
      → ⊥
  unfolding should_retry
  unretried max_attempts e h = cc

  -- The job is to be retried exactly when the request could be made, and failed or was answered
  -- with a status from 500 on. The greatest number of attempts plays no part.
  pub execute_job-should_retry_iff :
      (max_attempts : ℤ)
      → (should_retry (execute_job server started completed job task).0 max_attempts ≡ true)
        ↔ (Created × Retryable answer)
  unfolding execute_job
  execute_job-should_retry_iff max_attempts = go _ refl
    where
      go :
          (f : Failure)
          → server.request_error task.config.method task.config.endpoint ≡ f
          → (should_retry (attempted server started completed job task f).0 max_attempts ≡ true)
            ↔ (Created × Retryable answer)
      go (some e) same = (λ h. absurd (unretried max_attempts e h), λ (made, _). cc)
      go none same =
          let judged =
            from_reply-should_retry_iff started completed job server answer max_attempts in
          (λ h. (same, judged.0 h), λ (_, s). judged.1 s)
