-- ===== src/Cmd/Scheduler/Shutdown/Unawaited.antt =====
-- cmd/scheduler/main.go: the scheduler's goroutine ends only after main has cancelled its context, and
-- main does not wait for it.
use taskqueue_go.Prelude.{◌≡◌, refl, true, arith}
use taskqueue_go.Cmd.Scheduler.Shutdown.{
  gone, State, Stage, serving, signalled, told, health_shut, metrics_shut, redis_closed, ended,
  MainStep, signal, cancel_scheduler, shut_health, shut_metrics, close_redis, close_queue,
  enter_start, take_tick, end_tick, leave, initial, MainRun, begin, go,
}

-- Main has cancelled the scheduler's context.
abbrev pub Past : Stage → Type 0
Past serving = ⊥
Past signalled = ⊥
Past _ = Unit {0}

record Known (g : Stage) (s : State) : Type 0 where
  told_of : s.cancelled ≡ true → Past g
  left : s.phase ≡ gone → s.cancelled ≡ true

step-Known : {g h : Stage} {s t : State} → MainStep g s h t → Known g s → Known h t
step-Known (signal {s}) k = record { told_of = λ e. k.told_of e; left = k.left }
step-Known (cancel_scheduler {s}) k = record { told_of = λ e. tt; left = λ e. refl }
step-Known shut_health k = record { told_of = λ e. tt; left = k.left }
step-Known shut_metrics k = record { told_of = λ e. tt; left = k.left }
step-Known close_redis k = record { told_of = λ e. tt; left = k.left }
step-Known close_queue k = record { told_of = λ e. tt; left = k.left }
step-Known (enter_start at) k = record { told_of = k.told_of; left = λ e. absurd (ground arith) }
step-Known (take_tick at) k = record { told_of = k.told_of; left = λ e. absurd (ground arith) }
step-Known (end_tick at) k = record { told_of = k.told_of; left = λ e. absurd (ground arith) }
step-Known (leave at done) k = record { told_of = k.told_of; left = λ e. done }

run-Known :
    {g : Stage} {s : State} {h : Stage} {t : State} → MainRun g s h t → Known g s → Known h t
run-Known begin k = k
run-Known (go run st) k = step-Known st (run-Known run k)

-- In every run of main, the goroutine of the scheduler has come back from Start only after main has
-- cancelled its context.
pub returned_after_cancel :
    (g : Stage) (s : State) → MainRun serving initial g s → s.phase ≡ gone → Past g
returned_after_cancel g s run left =
    let known =
      run-Known run
        (record { told_of = λ e. absurd (ground arith); left = λ e. absurd (ground arith) }) in
    known.told_of (known.left left)

append :
    {g : Stage} {s : State} {h : Stage} {t : State} {j : Stage} {u : State}
    → MainRun g s h t
    → MainRun h t j u
    → MainRun g s j u
append run begin = run
append run (go more st) = go (append run more) st

from_told : (s : State) → MainRun told s ended s
from_told s = go (go (go (go begin shut_health) shut_metrics) close_redis) close_queue

abbrev told_state : State → State
told_state s = record s { cancelled = true }

from_signalled : (s : State) → MainRun signalled s ended (told_state s)
from_signalled s = append (go begin cancel_scheduler) (from_told (told_state s))

-- From every stage main can come to its end while the scheduler's goroutine stays where it is, so
-- that a tick that is under way is still under way when Redis and the queue are closed.
pub main_ends_unawaited :
    (g : Stage) (s : State) → (t : State) × MainRun g s ended t × (t.phase ≡ s.phase)
main_ends_unawaited ended s = (s, begin, refl)
main_ends_unawaited redis_closed s = (s, go begin close_queue, refl)
main_ends_unawaited metrics_shut s = (s, go (go begin close_redis) close_queue, refl)
main_ends_unawaited health_shut s =
    (s, go (go (go begin shut_metrics) close_redis) close_queue, refl)
main_ends_unawaited told s = (s, from_told s, refl)
main_ends_unawaited signalled s = (told_state s, from_signalled s, refl)
main_ends_unawaited serving s = (told_state s, append (go begin signal) (from_signalled s), refl)
