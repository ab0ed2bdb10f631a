-- ===== src/Worker/Lifecycle.antt =====
-- internal/worker/worker.go: Start, Stop and run as the steps that the goroutines take in any order.
-- What a worker does inside processJob is modelled in Worker; here it is a phase with a beginning
-- and an end.
pub mod Counting
pub mod Drained
pub mod Bounded
pub mod Progress
pub mod Tests
use taskqueue_go.Prelude.{
  ℕ, zero, suc, ◌+◌, ◌-◌, ◌<◌, ◌≤◌, ◌≡◌, ◌⊎◌, Bool, true, false, Option, none, some, if◌then◌else◌,
  eqb,
}
use taskqueue_go.Prelude.Int.{ℤ, pos, negsuc, ◌<ℤ◌}
use taskqueue_go.Worker.Backoff.{Config}

-- A worker's goroutine: not launched yet, before its ticker is made, in the select, in processJob,
-- returned.
pub data Phase : Type 0 where
  absent starting selecting working gone : Phase

-- Start: not called yet, about to launch the i-th worker, in the select, returned.
pub data Starter : Type 0 where
  not_started blocked start_returned : Starter
  launching : ℕ → Starter

-- Stop: not called yet, about to close the k-th worker's channel, in wg.Wait, returned.
pub data Stopper : Type 0 where
  not_stopping waiting stop_returned : Stopper
  closing : ℕ → Stopper

-- The workers' phases, wg's counter, which channels are closed, and whether the context is done.
pub record State : Type 0 where
  pub phase : ℕ → Phase
  pub counter : ℕ
  pub pool_closed : Bool
  pub worker_closed : ℕ → Bool
  pub cancelled : Bool
  pub starter : Starter
  pub stopper : Stopper

abbrev pub update {ℓ} : {A : Type ℓ} → (ℕ → A) → ℕ → A → ℕ → A
update f i a j = if eqb j i then a else f j

-- New makes as many workers as the pool size says; a negative one makes `make` panic.
abbrev pub initial : State
initial = record {
  phase = λ i. absent;
  counter = 0;
  pool_closed = false;
  worker_closed = λ i. false;
  cancelled = false;
  starter = not_started;
  stopper = not_stopping;
}

abbrev pub sized : ℤ → Option (ℕ × State)
sized (pos n) = some (n, initial)
sized (negsuc n) = none

unfoldable pub new : Config → Option (ℕ × State)
new config = sized config.pool_size

-- The cases of run's select that return.
abbrev pub Told : State → ℕ → Type 0
Told s i = (s.cancelled ≡ true) ⊎ ((s.worker_closed i ≡ true) ⊎ (s.pool_closed ≡ true))

-- One step of a pool of n workers. A select with several cases ready takes any of them.
pub data Step (config : Config) (n : ℕ) (s : State) : State → Type 0 where
  start : s.starter ≡ not_started → Step config n s (record s { starter = launching 0 })
  launch :
      (i : ℕ)
      → s.starter ≡ launching i
      → i < n
      → Step config n s (record s {
        phase = update s.phase i starting;
        counter = s.counter + 1;
        starter = launching (suc i);
      })
  block : s.starter ≡ launching n → Step config n s (record s { starter = blocked })
  return_start :
      s.starter ≡ blocked
      → (s.cancelled ≡ true) ⊎ (s.pool_closed ≡ true)
      → Step config n s (record s { starter = start_returned })
  make_ticker :
      (i : ℕ)
      → i < n
      → s.phase i ≡ starting
      → pos 0 <ℤ config.poll_interval
      → Step config n s (record s { phase = update s.phase i selecting })
  take_tick :
      (i : ℕ)
      → i < n
      → s.phase i ≡ selecting
      → Step config n s (record s { phase = update s.phase i working })
  end_job :
      (i : ℕ)
      → i < n
      → s.phase i ≡ working
      → Step config n s (record s { phase = update s.phase i selecting })
  leave :
      (i : ℕ)
      → i < n
      → s.phase i ≡ selecting
      → Told s i
      → Step config n s (record s { phase = update s.phase i gone; counter = s.counter - 1 })
  cancel : s.cancelled ≡ false → Step config n s (record s { cancelled = true })
  stop :
      s.stopper ≡ not_stopping
      → Step config n s (record s { pool_closed = true; stopper = closing 0 })
  close_worker :
      (k : ℕ)
      → s.stopper ≡ closing k
      → k < n
      → Step config n s
          (record s { worker_closed = update s.worker_closed k true; stopper = closing (suc k) })
  wait : s.stopper ≡ closing n → Step config n s (record s { stopper = waiting })
  return_stop :
      s.stopper ≡ waiting → s.counter ≡ 0 → Step config n s (record s { stopper = stop_returned })

-- Steps that end the program: a ticker with no positive interval, and a second call of Stop.
pub data Panics (config : Config) (n : ℕ) (s : State) : Type 0 where
  ticker_panics :
      (i : ℕ) → i < n → s.phase i ≡ starting → ¬ (pos 0 <ℤ config.poll_interval) → Panics config n s
  stop_panics : s.pool_closed ≡ true → Panics config n s

abbrev pub tick_of : {config : Config} {n : ℕ} {s t : State} → Step config n s t → ℕ
tick_of (take_tick i h e) = 1
tick_of _ = 0

-- A run from one state to another, with the number of its steps and of the ticks among them.
pub data Run (config : Config) (n : ℕ) (s : State) : State → ℕ → ℕ → Type 0 where
  here : Run config n s s 0 0
  next :
      {t u : State} {steps ticks : ℕ}
      → Run config n s t steps ticks
      → (st : Step config n t u) → Run config n s u (suc steps) (tick_of st + ticks)
