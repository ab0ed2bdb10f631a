-- ===== src/Cmd/Scheduler/Shutdown.antt =====
-- cmd/scheduler/main.go: from the signal to the end of main, while the goroutine of the scheduler
-- goes on, whose steps are those of the loop of Start in internal/scheduler/scheduler.go. A call that
-- fails is only logged, so it is a step all the same; without a metrics server its step does nothing.
pub mod Unawaited
pub mod Tests
use taskqueue_go.Prelude.{◌≡◌, Bool, true, false}

-- Where the goroutine that calls Start is: not begun, at the select, in checkAndScheduleTasks, or
-- back from Start.
pub data Phase : Type 0 where
  starting waiting ticking gone : Phase

-- `cancelled` is the scheduler's context.
pub record State : Type 0 where
  pub cancelled : Bool
  pub phase : Phase

-- Where main has got to: it waits for a signal, has got it, has cancelled the scheduler's context,
-- and then the calls that it has made after that.
pub data Stage : Type 0 where
  serving signalled told health_shut metrics_shut redis_closed ended : Stage

-- One step of main, or of the goroutine at any time. A select with both channels ready takes either.
pub data MainStep : Stage → State → Stage → State → Type 0 where
  signal : {s : State} → MainStep serving s signalled s
  cancel_scheduler : {s : State} → MainStep signalled s told (record s { cancelled = true })
  shut_health : {s : State} → MainStep told s health_shut s
  shut_metrics : {s : State} → MainStep health_shut s metrics_shut s
  close_redis : {s : State} → MainStep metrics_shut s redis_closed s
  close_queue : {s : State} → MainStep redis_closed s ended s
  enter_start :
      {g : Stage} {s : State} → s.phase ≡ starting → MainStep g s g (record s { phase = waiting })
  take_tick :
      {g : Stage} {s : State} → s.phase ≡ waiting → MainStep g s g (record s { phase = ticking })
  end_tick :
      {g : Stage} {s : State} → s.phase ≡ ticking → MainStep g s g (record s { phase = waiting })
  leave :
      {g : Stage} {s : State}
      → s.phase ≡ waiting
      → s.cancelled ≡ true
      → MainStep g s g (record s { phase = gone })

abbrev pub initial : State
initial = record { cancelled = false; phase = starting }

pub data MainRun (g : Stage) (s : State) : Stage → State → Type 0 where
  begin : MainRun g s g s
  go : {h j : Stage} {t u : State} → MainRun g s h t → MainStep h t j u → MainRun g s j u
