-- ===== src/Cmd/Worker/Shutdown/Tests.antt =====
-- cmd/worker/main.go: a shutdown, and the theorem at it.
use taskqueue_go.Prelude.{◌≡◌, refl, inl, arith}
use taskqueue_go.Worker.Lifecycle
use taskqueue_go.Worker.Lifecycle.{State, initial, gone}
use taskqueue_go.Worker.Lifecycle.Tests.{config}
use taskqueue_go.Cmd.Worker.Shutdown.{
  serving, told, ended, signal, cancel_workers, call_stop, stop_back, shut_health, shut_metrics,
  close_redis, close_limiter, close_queue, pool_step, MainRun, begin, go,
}
use taskqueue_go.Cmd.Worker.Shutdown.Drained.{shutdown_drained}

-- One worker is launched; then the signal comes.
abbrev signalled_run : (s : State) × MainRun config 1 serving initial told s
signalled_run = (
  _,
  go
      (go
        (go
          (go (go begin (pool_step (Lifecycle.start refl) refl))
            (pool_step (Lifecycle.launch 0 refl (omega arith)) refl))
          (pool_step (Lifecycle.block refl) refl))
        signal)
      (cancel_workers refl),
)

abbrev pool_down : (s : State) × MainRun config 1 told signalled_run.0 told s
pool_down =
    (_, go begin (pool_step (Lifecycle.make_ticker 0 (omega arith) refl (omega arith)) refl))

abbrev down : (s : State) × MainRun config 1 told signalled_run.0 ended s
down = (
  _,
  go
      (go
        (go
          (go
            (go
              (go
                (go
                  (go
                    (go
                      (go (go pool_down.1 (call_stop refl))
                        (pool_step (Lifecycle.close_worker 0 refl (omega arith)) refl))
                      (pool_step (Lifecycle.wait refl) refl))
                    (pool_step (Lifecycle.leave 0 (omega arith) refl (inl refl)) refl))
                  (pool_step (Lifecycle.return_stop refl refl) refl))
                (stop_back refl))
              shut_health)
            shut_metrics)
          close_redis)
        close_limiter)
      close_queue,
)

shutdown_drained_example : down.0.phase 0 ≡ gone
shutdown_drained_example =
    shutdown_drained {config = config} {n = 1} 0 signalled_run.1 refl down.1 tt (omega arith)
