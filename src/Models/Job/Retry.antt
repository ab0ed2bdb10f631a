-- ===== src/Models/Job/Retry.antt =====
-- internal/models/job.go: what ShouldRetry decides.
use taskqueue_go.Prelude.{◌≡◌, true, ◌↔◌, some, arith}
use taskqueue_go.Prelude.Int.{ℤ}
use taskqueue_go.Models.Job.{ExecutionResult, ErrorDetail, failed, should_retry}

-- A result is retried exactly when it failed with an error that asks for a retry, whatever the
-- greatest number of attempts is.
pub should_retry_iff :
    (er : ExecutionResult) (max_attempts : ℤ)
    → (should_retry er max_attempts ≡ true)
      ↔ ((er.status ≡ failed) × (e : ErrorDetail) × (er.error ≡ some e) × (e.retry ≡ true))
unfolding should_retry
should_retry_iff er max_attempts = (λ h. ground arith, λ h. ground arith)
