-- ===== src/Scheduler/Loop/Tests.antt =====
-- internal/scheduler/scheduler.go: the loop at keys, a store and a queue in memory.
use text.Mathlib.TextEquality.{eq_iff}
use taskqueue_go.Prelude.{◌≡◌, refl, false, none, List, [], ◌∷◌, map, arith, string_dec}
use taskqueue_go.Prelude.Int.{pos, ◌+ℤ◌}
use taskqueue_go.Prelude.Dict.{lookup}
use taskqueue_go.GoTime.{truncate}
use taskqueue_go.Models.Task.{is_due, next_execution, next_hourly}
use taskqueue_go.Queue.Memory.{memory_queue}
use taskqueue_go.Queue.Tests.{client, codec}
use taskqueue_go.Registry.{TaskRegistry, get_all}
use taskqueue_go.Registry.Validate.{validate_task, validate_interval}
use taskqueue_go.Registry.Valid.{validate_task-IsValidTask}
use taskqueue_go.Registry.Loaded.{IsSound}
use taskqueue_go.UserStore.{run_all, exec, enable_task_for_user, get_users_with_enabled_task}
use taskqueue_go.UserStore.Commands.{is_in}
use taskqueue_go.UserStore.Memory.{memory_redis, run}
use taskqueue_go.Scheduler.{Config, Scheduler, Draws, find_all, find_due_tasks}
use taskqueue_go.Scheduler.Update.{type_of}
use taskqueue_go.Scheduler.Tests.{
  memory_keys, memory_keys-IsTextKeys, all_answered, nothing, no_calendar, sync, store,
}
use taskqueue_go.Scheduler.Tick.Tests.{three_seconds, at_tenth, draws}
use taskqueue_go.Scheduler.Loop.{
  new, Event, cancelled, ticked, elsewhere, after_tick, start, all_found,
}
use taskqueue_go.Scheduler.Loop.Once.{scheduled_once}

abbrev config : Config
config = record {
  check_interval = pos 60_000_000_000;
  batch_size = pos 10;
  distribution_window = three_seconds;
  leader_election_ttl = pos 30_000_000_000;
  enable_leader_election = false;
}

abbrev registry : TaskRegistry
registry = record { tasks = ("sync", sync) ∷ []; file_path = "tasks.yaml" }

registry-IsSound : IsSound registry
unfolding validate_task validate_interval string_dec lookup
registry-IsSound = record {
  all_valid = ((validate_task-IsValidTask sync sync refl).0, refl, refl, tt);
}

abbrev scheduler : Scheduler (Unit {0})
unfolding new
scheduler = new config client registry

-- Twenty seconds after the first tick.
abbrev soon : Draws
soon = record draws { now = pos 4_020_000_000_000 }

abbrev later : List (Event memory_keys memory_redis memory_queue)
later =
    ticked all_answered soon store
    ∷ elsewhere (λ k. k) (λ q. [])
    ∷ ticked all_answered soon store
    ∷ cancelled "context canceled"
    ∷ []

scheduled_once_example :
    is_in "sync" (
      map type_of (
        all_found memory_keys no_calendar at_tenth memory_redis memory_queue codec scheduler later
          (after_tick memory_keys no_calendar at_tenth memory_redis memory_queue codec scheduler
            all_answered draws store nothing []).0
          (after_tick memory_keys no_calendar at_tenth memory_redis memory_queue codec scheduler
            all_answered draws store nothing []).1))
    ≡ false
unfolding new find_all find_due_tasks get_users_with_enabled_task enable_task_for_user exec run_all
    run is_due next_execution next_hourly string_dec ◌+ℤ◌ truncate get_all lookup
scheduled_once_example =
    scheduled_once memory_keys memory_keys-IsTextKeys no_calendar at_tenth memory_redis memory_queue
      codec config client registry all_answered draws store nothing nothing [] sync later
      registry-IsSound refl
      (record { to_second = refl; not_empty = ground (arith, eq_iff "0001-01-01T01:06:40Z" "") })
      (λ id. refl) refl refl
      (
        (refl, (λ id. refl), λ id. refl),
        ((λ k. refl), ((refl, (λ id. refl), λ id. refl), (tt, tt))),
      )

-- time.NewTicker panics.
no_interval :
    start memory_keys no_calendar at_tenth memory_redis memory_queue codec
      (new (record config { check_interval = pos 0 }) client registry)
      []
      nothing
      []
    ≡ none
unfolding start new
no_interval = refl
