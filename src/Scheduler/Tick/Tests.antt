-- ===== src/Scheduler/Tick/Tests.antt =====
-- internal/scheduler/scheduler.go: the theorems on a tick at keys, a store and a queue in memory.
use mathlib.Core.List.{Mem, Perm}
use mathlib.Core.List.Perm
use taskqueue_go.Prelude.{
  ◌≡◌, refl, false, none, some, List, [], ◌∷◌, map, String, ok, arith, All, string_dec,
}
use taskqueue_go.Prelude.Int.{pos, ◌+ℤ◌}
use text.Mathlib.TextEquality.{eq_iff}
use taskqueue_go.GoTime.{Duration, truncate}
use taskqueue_go.Models.Job.{Job}
use taskqueue_go.Models.Task.{is_due, next_execution, next_hourly}
use taskqueue_go.Queue.Backend.{MessageQueue}
use taskqueue_go.Queue.Memory.{memory_queue}
use taskqueue_go.Queue.Tests.{client, codec}
use taskqueue_go.Registry.{get_all}
use taskqueue_go.Distributor.{Draw, TaskToSchedule, estimate_distribution_time}
use taskqueue_go.Queue.Sending.{SentAll}
use taskqueue_go.Distributor.Jobs.{to_send, task_key, job_key, IsPlanned}
use taskqueue_go.Distributor.Tests.{greatest, greatest-IsRandom}
use taskqueue_go.Prelude.Dict.{lookup, insert}
use taskqueue_go.Scheduler.Tick.Served.{due_tasks_served}
use taskqueue_go.UserStore.{
  is_task_enabled_for_user, run_all, exec, enable_task_for_user, get_users_with_enabled_task,
}
use taskqueue_go.UserStore.Commands.{Formats}
use taskqueue_go.UserStore.Memory.{memory_redis, memory_redis-IsRedis, run}
use taskqueue_go.RateLimit.{refused}
use taskqueue_go.Scheduler.Tick.Repeated.{found_again}
use taskqueue_go.Scheduler.{
  Calls, Scheduler, Draws, to_schedule, find_all, find_due_tasks, check_and_schedule_tasks,
}
use taskqueue_go.Scheduler.Tests.{
  memory_keys, memory_keys-IsTextKeys, all_answered, nothing, no_calendar, sync, store,
  store-IsIndexed,
}
use taskqueue_go.Scheduler.Tick.{
  Stamps, check_and_schedule_tasks_lem, check_and_schedule_tasks_down,
}

abbrev pub three_seconds : Duration
three_seconds = pos 3_000_000_000

abbrev pub tenth : Duration
tenth = pos 4_000_000_000_000

abbrev pub at_tenth : Formats
at_tenth = record {
  format_time = λ t. "0001-01-01T01:06:40Z";
  parse_time = λ text. some tenth;
  marshal_settings = λ settings. ok "{}";
  unmarshal_settings = λ text. none;
}

abbrev scheduler : Scheduler (Unit {0})
scheduler = record {
  config = record {
    check_interval = pos 60_000_000_000;
    batch_size = pos 10;
    distribution_window = three_seconds;
    leader_election_ttl = pos 30_000_000_000;
    enable_leader_election = false;
  };
  registry = record { tasks = ("sync", sync) ∷ []; file_path = "tasks.yaml" };
  distributor = record { distribution_window = three_seconds; queue_client = client };
  leader_key = "taskqueue:scheduler:leader";
}

abbrev pub draws : Draws
draws = record {
  now = tenth;
  shuffle = λ tasks. tasks;
  int63n = greatest;
  draw = λ i. record { job_uuid = "j"; message_uuid = "m"; now = tenth };
}

abbrev stamp : String
stamp = "0001-01-01T01:06:40Z"

abbrev ann_only : List TaskToSchedule
ann_only = to_schedule sync "ann" ∷ []

check_and_schedule_tasks_example :
    (jobs : List (Draw × Job)) × ((check_and_schedule_tasks memory_keys no_calendar at_tenth
        memory_redis memory_queue codec scheduler all_answered draws store nothing []).0
      ≡ none)
    × Stamps memory_keys no_calendar at_tenth memory_redis memory_queue codec scheduler all_answered
        draws store nothing nothing [] refl
    × SentAll memory_queue codec client
        (map to_send jobs)
        []
        (check_and_schedule_tasks memory_keys no_calendar at_tenth memory_redis memory_queue codec
          scheduler all_answered draws store nothing []).2
    × Perm (map job_key jobs) (map task_key ann_only)
    × All (IsPlanned tenth (estimate_distribution_time three_seconds (pos 1))) jobs
unfolding find_all find_due_tasks get_users_with_enabled_task enable_task_for_user exec run_all run
    is_due next_execution next_hourly string_dec ◌+ℤ◌ truncate get_all
check_and_schedule_tasks_example =
    check_and_schedule_tasks_lem memory_keys no_calendar at_tenth memory_redis memory_queue codec
      scheduler all_answered draws store nothing nothing [] refl memory_keys-IsTextKeys (λ id. refl)
      (Perm.refl _) greatest-IsRandom (omega arith)

due_tasks_served_example :
    (jobs : List (Draw × Job)) × ((check_and_schedule_tasks memory_keys no_calendar at_tenth
        memory_redis memory_queue codec scheduler all_answered draws store nothing []).0
      ≡ none)
    × SentAll memory_queue codec client
        (map to_send jobs)
        []
        (check_and_schedule_tasks memory_keys no_calendar at_tenth memory_redis memory_queue codec
          scheduler all_answered draws store nothing []).2
    × Mem ("sync", "ann") (map job_key jobs)
unfolding find_all find_due_tasks get_users_with_enabled_task enable_task_for_user exec run_all run
    is_due next_execution next_hourly string_dec ◌+ℤ◌ truncate get_all is_task_enabled_for_user
    lookup insert
due_tasks_served_example =
    due_tasks_served memory_keys no_calendar at_tenth memory_redis memory_queue codec scheduler
      all_answered draws store nothing nothing [] refl memory_redis-IsRedis sync "ann" refl refl
      store-IsIndexed (ground (arith, eq_iff "ann" "", eq_iff "sync" "")) refl refl refl
      (Perm.refl _) greatest-IsRandom (omega arith)

-- A queue that takes no message.
abbrev full_queue : MessageQueue
full_queue = record memory_queue { push_message = λ q name text s. (some "queue is full", s) }

check_and_schedule_tasks_down_example :
    ((check_and_schedule_tasks memory_keys no_calendar at_tenth memory_redis full_queue codec
        scheduler all_answered draws store nothing []).0
      ≡ none)
    × Stamps memory_keys no_calendar at_tenth memory_redis full_queue codec scheduler all_answered
        draws store nothing nothing [] refl
    × ((check_and_schedule_tasks memory_keys no_calendar at_tenth memory_redis full_queue codec
          scheduler all_answered draws store nothing []).2
        ≡ [])
unfolding find_all find_due_tasks get_users_with_enabled_task enable_task_for_user exec run_all run
    is_due next_execution next_hourly string_dec ◌+ℤ◌ truncate get_all
check_and_schedule_tasks_down_example =
    check_and_schedule_tasks_down memory_keys no_calendar at_tenth memory_redis full_queue codec
      scheduler all_answered draws store nothing nothing [] refl (λ text x. ("queue is full", refl))
      memory_keys-IsTextKeys (λ id. refl)

-- Redis is closed before the last executions are written.
abbrev closed : Calls
closed = record all_answered { set_last = λ id. refused "redis: client is closed" }

found_again_example :
    (jobs : List (Draw × Job)) × ((check_and_schedule_tasks memory_keys no_calendar at_tenth
        memory_redis memory_queue codec scheduler closed draws store nothing []).0
      ≡ none)
    × SentAll memory_queue codec client
        (map to_send jobs)
        []
        (check_and_schedule_tasks memory_keys no_calendar at_tenth memory_redis memory_queue codec
          scheduler closed draws store nothing []).2
    × Perm (map job_key jobs) (map task_key ann_only)
    × (find_all memory_keys no_calendar at_tenth memory_redis closed tenth
          (check_and_schedule_tasks memory_keys no_calendar at_tenth memory_redis memory_queue codec
            scheduler closed draws store nothing []).1
          store
          (get_all scheduler.registry)
        ≡ ann_only)
unfolding find_all find_due_tasks get_users_with_enabled_task enable_task_for_user exec run_all run
    is_due next_execution next_hourly string_dec ◌+ℤ◌ truncate get_all
found_again_example =
    found_again memory_keys no_calendar at_tenth memory_redis memory_queue codec scheduler closed
      draws store nothing nothing [] refl "redis: client is closed" (λ id. refl) (Perm.refl _)
      greatest-IsRandom (omega arith)
