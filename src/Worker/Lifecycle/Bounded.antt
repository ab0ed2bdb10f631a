-- ===== src/Worker/Lifecycle/Bounded.antt =====
-- internal/worker/worker.go: how many steps a pool takes at most.
use taskqueue_go.Prelude.{ℕ, zero, suc, ◌+◌, ◌-◌, ◌*◌, ◌≤◌, ◌≡◌, refl, ap, Bool, true, false, arith}
use taskqueue_go.Worker.Backoff.{Config}
use taskqueue_go.Worker.Lifecycle.{
  Phase, absent, starting, selecting, working, gone, Starter, not_started, blocked, start_returned,
  launching, Stopper, not_stopping, waiting, stop_returned, closing, State, initial, Step, start,
  launch, block, return_start, make_ticker, take_tick, end_job, leave, cancel, stop, close_worker,
  wait, return_stop, tick_of, Run, here, next,
}
use taskqueue_go.Worker.Lifecycle.Drained.{Inv, at, initial-Inv, Run-Inv}
use taskqueue_go.Worker.Lifecycle.Counting.{sum, sum-update}

-- The steps that are left, if no tick is taken.
abbrev pub phase_left : Phase → ℕ
phase_left absent = 3
phase_left starting = 3
phase_left selecting = 2
phase_left working = 3
phase_left gone = 0

abbrev pub starter_left : ℕ → Starter → ℕ
starter_left n not_started = n + 3
starter_left n (launching j) = n - j + 2
starter_left n blocked = 1
starter_left n start_returned = 0

abbrev pub stopper_left : ℕ → Stopper → ℕ
stopper_left n not_stopping = n + 3
stopper_left n (closing k) = n - k + 2
stopper_left n waiting = 1
stopper_left n stop_returned = 0

abbrev pub cancel_left : Bool → ℕ
cancel_left true = 0
cancel_left false = 1

abbrev pub left : ℕ → State → ℕ
left n s =
    sum phase_left n s.phase
    + starter_left n s.starter
    + stopper_left n s.stopper
    + cancel_left s.cancelled

sum-all_absent : (n : ℕ) → sum phase_left n (λ i. absent) ≡ 3 * n
unfolding sum
sum-all_absent zero = refl
sum-all_absent (suc n) = omega (arith, sum-all_absent n)

module _ {config : Config} {n : ℕ} where
  -- Every step but a tick leaves fewer, and a tick at most one more.
  pub left-Step :
      {s t : State} (st : Step config n s t) → Inv n s → left n t + 1 ≤ left n s + 2 * tick_of st
  left-Step {s} (start e) v = omega (arith, ap (starter_left n) e)
  left-Step {s} (launch i e l) v = omega (
    arith,
    ap (starter_left n) e,
    sum-update phase_left n i s.phase starting l,
    ap phase_left ((at e v).2 i (omega arith)),
  )
  left-Step {s} (block e) v = omega (arith, ap (starter_left n) e)
  left-Step {s} (return_start e told) v = omega (arith, ap (starter_left n) e)
  left-Step {s} (make_ticker i l e poll) v =
      omega (arith, ap phase_left e, sum-update phase_left n i s.phase selecting l)
  left-Step {s} (take_tick i l e) v =
      omega (arith, ap phase_left e, sum-update phase_left n i s.phase working l)
  left-Step {s} (end_job i l e) v =
      omega (arith, ap phase_left e, sum-update phase_left n i s.phase selecting l)
  left-Step {s} (leave i l e told) v =
      omega (arith, ap phase_left e, sum-update phase_left n i s.phase gone l)
  left-Step {s} (cancel e) v = omega (arith, ap cancel_left e)
  left-Step {s} (stop e) v = omega (arith, ap (stopper_left n) e)
  left-Step {s} (close_worker k e l) v = omega (arith, ap (stopper_left n) e)
  left-Step {s} (wait e) v = omega (arith, ap (stopper_left n) e)
  left-Step {s} (return_stop e z) v = omega (arith, ap (stopper_left n) e)

  left-Run :
      {s t : State} {steps ticks : ℕ}
      → Run config n s t steps ticks
      → Inv n s
      → left n t + steps ≤ left n s + 2 * ticks
  left-Run here v = omega arith
  left-Run (next r st) v = omega (arith, left-Run r v, left-Step st (Run-Inv r v))

  -- A pool of n workers that has been made takes at most 5 n + 7 steps and two more for each tick,
  -- in whatever order its goroutines take them, where Start, Stop and the cancellation come once.
  pub steps_bounded :
      {t : State} {steps ticks : ℕ}
      → Run config n initial t steps ticks
      → steps ≤ 5 * n + 7 + 2 * ticks
  steps_bounded r = omega (arith, left-Run r (initial-Inv n), sum-all_absent n)
