-- ===== src/Cmd/Worker/Shutdown/Drained.antt =====
-- cmd/worker/main.go: no worker is at work any more when the connections are closed.
use taskqueue_go.Prelude.{ℕ, ◌<◌, ◌≡◌, refl, true}
use taskqueue_go.Worker.Backoff
use taskqueue_go.Worker.Lifecycle
use taskqueue_go.Worker.Lifecycle.{
  State, Step, Run, here, next, tick_of, initial, gone, blocked, not_stopping, stop_returned,
}
use taskqueue_go.Worker.Lifecycle.Drained.{stop_returned_drained}
use taskqueue_go.Cmd.Worker.Shutdown.{
  Stage, serving, signalled, told, stopping, stopped, health_shut, metrics_shut, redis_closed,
  limiter_closed, ended, is_own, MainStep, signal, cancel_workers, call_stop, stop_back,
  shut_health, shut_metrics, close_redis, close_limiter, close_queue, pool_step, MainRun, begin, go,
}

-- Main has come back from Stop.
abbrev pub Past : Stage → Type 0
Past serving = ⊥
Past signalled = ⊥
Past told = ⊥
Past stopping = ⊥
Past _ = Unit {0}

-- What main knows of Stop at each stage.
abbrev Known : Stage → State → Type 0
Known serving s = s.stopper ≡ not_stopping
Known signalled s = s.stopper ≡ not_stopping
Known told s = s.stopper ≡ not_stopping
Known stopping s = Unit {0}
Known _ s = s.stopper ≡ stop_returned

returned : (g : Stage) (s : State) → Past g → Known g s → s.stopper ≡ stop_returned
returned serving s p k = absurd p
returned signalled s p k = absurd p
returned told s p k = absurd p
returned stopping s p k = absurd p
returned stopped s p k = k
returned health_shut s p k = k
returned metrics_shut s p k = k
returned redis_closed s p k = k
returned limiter_closed s p k = k
returned ended s p k = k

-- The pool's steps in a run of main.
abbrev PoolRun : Backoff.Config → ℕ → State → State → Type 0
PoolRun config n s t = (steps : ℕ) × (ticks : ℕ) × Run config n s t steps ticks

module _ {config : Backoff.Config} {n : ℕ} where
  stays_idle :
      {s t : State} (st : Step config n s t)
      → is_own st ≡ true
      → s.stopper ≡ not_stopping
      → t.stopper ≡ not_stopping
  stays_idle (Lifecycle.start e) own k = k
  stays_idle (Lifecycle.launch i e l) own k = k
  stays_idle (Lifecycle.block e) own k = k
  stays_idle (Lifecycle.return_start e x) own k = k
  stays_idle (Lifecycle.make_ticker i l e x) own k = k
  stays_idle (Lifecycle.take_tick i l e) own k = k
  stays_idle (Lifecycle.end_job i l e) own k = k
  stays_idle (Lifecycle.leave i l e x) own k = k
  stays_idle (Lifecycle.cancel e) own k = k
  stays_idle (Lifecycle.stop e) own k = cc
  stays_idle (Lifecycle.close_worker i e l) own k = cc
  stays_idle (Lifecycle.wait e) own k = cc
  stays_idle (Lifecycle.return_stop e z) own k = cc

  stays_returned :
      {s t : State} (st : Step config n s t) → s.stopper ≡ stop_returned → t.stopper ≡ stop_returned
  stays_returned (Lifecycle.start e) k = k
  stays_returned (Lifecycle.launch i e l) k = k
  stays_returned (Lifecycle.block e) k = k
  stays_returned (Lifecycle.return_start e x) k = k
  stays_returned (Lifecycle.make_ticker i l e x) k = k
  stays_returned (Lifecycle.take_tick i l e) k = k
  stays_returned (Lifecycle.end_job i l e) k = k
  stays_returned (Lifecycle.leave i l e x) k = k
  stays_returned (Lifecycle.cancel e) k = k
  stays_returned (Lifecycle.stop e) k = cc
  stays_returned (Lifecycle.close_worker i e l) k = cc
  stays_returned (Lifecycle.wait e) k = cc
  stays_returned (Lifecycle.return_stop e z) k = refl

  pool_step-Known :
      {s t : State} (g : Stage) (st : Step config n s t) → is_own st ≡ true → Known g s → Known g t
  pool_step-Known serving st own k = stays_idle st own k
  pool_step-Known signalled st own k = stays_idle st own k
  pool_step-Known told st own k = stays_idle st own k
  pool_step-Known stopping st own k = tt
  pool_step-Known stopped st own k = stays_returned st k
  pool_step-Known health_shut st own k = stays_returned st k
  pool_step-Known metrics_shut st own k = stays_returned st k
  pool_step-Known redis_closed st own k = stays_returned st k
  pool_step-Known limiter_closed st own k = stays_returned st k
  pool_step-Known ended st own k = stays_returned st k

  MainStep-Known : {g h : Stage} {s t : State} → MainStep config n g s h t → Known g s → Known h t
  MainStep-Known signal k = k
  MainStep-Known (cancel_workers e) k = k
  MainStep-Known (call_stop e) k = tt
  MainStep-Known (stop_back e) k = e
  MainStep-Known shut_health k = k
  MainStep-Known shut_metrics k = k
  MainStep-Known close_redis k = k
  MainStep-Known close_limiter k = k
  MainStep-Known close_queue k = k
  MainStep-Known {g = g} (pool_step st own) k = pool_step-Known g st own k

  MainRun-Known :
      {g : Stage} {s : State} {h : Stage} {t : State}
      → MainRun config n g s h t
      → Known g s
      → Known h t
  MainRun-Known begin k = k
  MainRun-Known (go r st) k = MainStep-Known st (MainRun-Known r k)

  MainStep-PoolRun :
      {g h : Stage} {r s t : State}
      → MainStep config n g s h t
      → PoolRun config n r s
      → PoolRun config n r t
  MainStep-PoolRun signal p = p
  MainStep-PoolRun (cancel_workers e) (a, b, p) = (_, _, next p (Lifecycle.cancel e))
  MainStep-PoolRun (call_stop e) (a, b, p) = (_, _, next p (Lifecycle.stop e))
  MainStep-PoolRun (stop_back e) p = p
  MainStep-PoolRun shut_health p = p
  MainStep-PoolRun shut_metrics p = p
  MainStep-PoolRun close_redis p = p
  MainStep-PoolRun close_limiter p = p
  MainStep-PoolRun close_queue p = p
  MainStep-PoolRun (pool_step st own) (a, b, p) = (_, _, next p st)

  pool_run :
      {g : Stage} {s : State} {h : Stage} {t : State}
      → MainRun config n g s h t
      → PoolRun config n s t
  pool_run begin = (0, 0, here)
  pool_run (go r st) = MainStep-PoolRun st (pool_run r)

  -- If the pool has launched all its workers when main calls Stop, then when main has come back from
  -- it, and so when it shuts the servers down, closes Redis and the queue and ends, every worker has
  -- returned and none is in processJob, in whatever order main and the goroutines take their steps.
  pub shutdown_drained :
      {s t : State} {g : Stage} (i : ℕ)
      → MainRun config n serving initial told s
      → s.starter ≡ blocked
      → MainRun config n told s g t
      → Past g
      → i < n
      → t.phase i ≡ gone
  shutdown_drained {s} {t} {g} i before up after past l =
      let idle : s.stopper ≡ not_stopping = MainRun-Known before refl in
      let (a, b, first) = pool_run before in
      let (c, d, rest) = pool_run after in
      stop_returned_drained i first up idle rest (returned g t past (MainRun-Known after idle)) l
