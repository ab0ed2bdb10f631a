-- ===== src/Cmd/Scheduler/Shutdown/Tests.antt =====
-- cmd/scheduler/main.go: a run of the shutdown.
use taskqueue_go.Prelude.{refl, true}
use taskqueue_go.Cmd.Scheduler.Shutdown.{
  gone, serving, redis_closed, signal, cancel_scheduler, shut_health, shut_metrics, close_redis,
  enter_start, take_tick, end_tick, leave, initial, MainRun, begin, go,
}

-- A tick is under way when the signal comes, and ends while the connections are being closed.
late_end : MainRun serving initial redis_closed (record { cancelled = true; phase = gone })
late_end =
    go
      (go
        (go
          (go
            (go
              (go (go (go (go begin (enter_start refl)) (take_tick refl)) signal) cancel_scheduler)
              shut_health)
            shut_metrics)
          close_redis)
        (end_tick refl))
      (leave refl refl)
