-- ===== src/Worker/Backoff.antt =====
-- internal/worker/worker.go: the configuration, and the delay before a retry.
pub mod Bounds
use taskqueue_go.Prelude.{ℕ, ◌-◌, ◌^◌, Bool, String, if◌then◌else◌, ◌==◌, ltb}
use taskqueue_go.Prelude.Int.{ℤ, pos, pos_part, ltb_ℤ, leb_ℤ}
use taskqueue_go.Prelude.Int64.{wrap64, mul64}
use taskqueue_go.GoTime.{Duration}

pub record Config : Type 0 where
  pub pool_size : ℤ
  pub poll_interval : Duration
  pub max_job_timeout : Duration
  pub retry_delay : Duration
  pub max_retries : ℤ
  pub execution_timeout : Duration
  pub retry_backoff : String
  pub retry_base_delay : Duration
  pub retry_max_delay : Duration

-- 1 << n on an int: the bit is shifted out from 64 on.
unfoldable pub shift_one : ℕ → ℤ
shift_one n = if ltb n 64 then wrap64 (pos (2 ^ n)) else pos 0

-- calculateExponentialBackoff
unfoldable pub calculate_exponential_backoff : Config → ℤ → Duration
calculate_exponential_backoff c attempt =
    let delay = mul64 (shift_one (pos_part attempt - 1)) c.retry_base_delay in
    if leb_ℤ attempt (pos 1)
    then c.retry_base_delay
    else if ltb_ℤ c.retry_max_delay delay
    then c.retry_max_delay
    else delay

-- The switch of scheduleRetry.
unfoldable pub retry_delay : Config → ℤ → Duration
retry_delay c attempt =
    if c.retry_backoff == "exponential"
    then calculate_exponential_backoff c attempt
    else c.retry_delay
