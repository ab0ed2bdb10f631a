-- ===== src/Cmd/Worker/Shutdown.antt =====
-- cmd/worker/main.go: from the signal to the end of main, while the pool's goroutines go on. A call
-- that fails is only logged, so it is a step all the same. The pool is Worker/Lifecycle.
pub mod Drained
pub mod Tests
use taskqueue_go.Prelude.{ℕ, ◌≡◌, Bool, true, false}
use taskqueue_go.Worker.Backoff
use taskqueue_go.Worker.Lifecycle
use taskqueue_go.Worker.Lifecycle.{State, Step, not_stopping, stop_returned, closing}

-- Where main has got to: it waits for a signal, has got it, has cancelled the workers' context, is in
-- Stop of the pool, and then the calls that it has made after that.
pub data Stage : Type 0 where
  serving signalled told stopping stopped health_shut metrics_shut redis_closed limiter_closed
        ended :
      Stage

-- The pool's own steps: main alone cancels its context and calls Stop.
abbrev pub is_own : {config : Backoff.Config} {n : ℕ} {s t : State} → Step config n s t → Bool
is_own (Lifecycle.cancel e) = false
is_own (Lifecycle.stop e) = false
is_own _ = true

-- One step of main, or of the pool at any time.
pub data MainStep (config : Backoff.Config) (n : ℕ) : Stage → State → Stage → State → Type 0 where
  signal : {s : State} → MainStep config n serving s signalled s
  cancel_workers :
      {s : State}
      → s.cancelled ≡ false
      → MainStep config n signalled s told (record s { cancelled = true })
  call_stop :
      {s : State}
      → s.stopper ≡ not_stopping
      → MainStep config n told s stopping (record s { pool_closed = true; stopper = closing 0 })
  stop_back : {s : State} → s.stopper ≡ stop_returned → MainStep config n stopping s stopped s
  shut_health : {s : State} → MainStep config n stopped s health_shut s
  shut_metrics : {s : State} → MainStep config n health_shut s metrics_shut s
  close_redis : {s : State} → MainStep config n metrics_shut s redis_closed s
  close_limiter : {s : State} → MainStep config n redis_closed s limiter_closed s
  close_queue : {s : State} → MainStep config n limiter_closed s ended s
  pool_step :
      {g : Stage} {s t : State} (st : Step config n s t)
      → is_own st ≡ true
      → MainStep config n g s g t

pub data MainRun (config : Backoff.Config) (n : ℕ) (g : Stage) (s : State)
    : Stage → State → Type 0 where
  begin : MainRun config n g s g s
  go :
      {h j : Stage} {t u : State}
      → MainRun config n g s h t
      → MainStep config n h t j u
      → MainRun config n g s j u
