-- ===== src/Worker/Lifecycle/Tests.antt =====
-- internal/worker/worker.go: runs of a pool, and the theorems at them.
use taskqueue_go.Prelude.{ℕ, ◌+◌, ◌*◌, ◌≤◌, ◌≡◌, refl, inr, arith, none}
use taskqueue_go.Prelude.Int.{pos, negsuc}
use taskqueue_go.Worker.Backoff.{Config}
use taskqueue_go.Worker.Lifecycle.{
  working, gone, stop_returned, State, initial, new, start, launch, block, make_ticker, take_tick,
  end_job, leave, stop, close_worker, wait, return_stop, Run, here, next, Panics, ticker_panics,
  stop_panics,
}
use taskqueue_go.Worker.Lifecycle.Drained.{stop_returned_drained}
use taskqueue_go.Worker.Lifecycle.Bounded.{steps_bounded}
use taskqueue_go.Worker.Lifecycle.Progress.{stop_returns}

abbrev pub config : Config
config = record {
  pool_size = pos 1;
  poll_interval = pos 1_000_000_000;
  max_job_timeout = pos 0;
  retry_delay = pos 0;
  max_retries = pos 3;
  execution_timeout = pos 0;
  retry_backoff = "fixed";
  retry_base_delay = pos 0;
  retry_max_delay = pos 0;
}

-- A pool of negative size cannot be made.
negative_pool : new (record config { pool_size = negsuc 0 }) ≡ none
unfolding new
negative_pool = refl

-- Start has launched the only worker.
abbrev started : (t : State) × Run config 1 initial t 3 0
started = (_, next (next (next here (start refl)) (launch 0 refl (omega arith))) (block refl))

-- Stop is called and comes to its return.
abbrev stopped : (t : State) × Run config 1 (started.0) t 6 0
stopped = (
  _,
  next
      (next
        (next (next (next (next here (stop refl)) (close_worker 0 refl (omega arith))) (wait refl))
          (make_ticker 0 (omega arith) refl (omega arith)))
        (leave 0 (omega arith) refl (inr (inr refl))))
      (return_stop refl refl),
)

stop_returned_drained_example : stopped.0.phase 0 ≡ gone
stop_returned_drained_example =
    stop_returned_drained {config = config} {n = 1} 0 started.1 refl refl stopped.1 refl
      (omega arith)

-- A worker that takes a tick, and that ends its job.
abbrev worked : (t : State) × Run config 1 initial t 6 1
worked = (
  _,
  next
      (next (next started.1 (make_ticker 0 (omega arith) refl (omega arith)))
        (take_tick 0 (omega arith) refl))
      (end_job 0 (omega arith) refl),
)

steps_bounded_example : 6 ≤ 5 * 1 + 7 + 2 * 1
steps_bounded_example = steps_bounded worked.1

abbrev stopping : (t : State) × Run config 1 initial t 7 1
stopping = (_, next worked.1 (stop refl))

stop_returns_example :
    (t : State) × (steps : ℕ) × Run config 1 stopping.0 t steps 0 × (t.stopper ≡ stop_returned)
stop_returns_example = stop_returns config 1 (omega arith) stopping.1 (λ h. cc)

-- Stop that comes before Start has launched a worker returns, and the worker then runs a job.
abbrev raced : (t : State) × Run config 1 initial t 8 1
raced = (
  _,
  next
      (next
        (next
          (next
            (next
              (next (next (next here (start refl)) (stop refl)) (close_worker 0 refl (omega arith)))
              (wait refl))
            (return_stop refl refl))
          (launch 0 refl (omega arith)))
        (make_ticker 0 (omega arith) refl (omega arith)))
      (take_tick 0 (omega arith) refl),
)

works_after_stop : (raced.0.stopper ≡ stop_returned) × (raced.0.phase 0 ≡ working)
works_after_stop = (refl, refl)

-- A second call of Stop panics, and so does a worker whose poll interval is not positive.
stopped_twice : Panics config 1 (stopped.0)
stopped_twice = stop_panics refl

no_interval : Panics (record config { poll_interval = pos 0 }) 1 (started.0)
no_interval = ticker_panics 0 (omega arith) refl (λ h. omega arith)
