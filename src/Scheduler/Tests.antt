-- ===== src/Scheduler/Tests.antt =====
-- internal/scheduler/scheduler.go: the theorems at keys in memory.
use text.Mathlib.TextEquality.{eq_iff}
use taskqueue_go.Prelude.{
  ◌≡◌, ◌≢◌, ◌↔◌, refl, inl, inr, Bool, true, false, ◌&&◌, Option, none, some, List, [], ◌∷◌, map,
  String, Result, ok, ◌==◌, string_dec, arith, if◌then◌else◌,
}
use taskqueue_go.Prelude.Int.{pos, leb_ℤ}
use taskqueue_go.GoTime.{Duration, Calendar}
use taskqueue_go.Models.Task.{TaskType, is_due, next_execution, next_hourly}
use taskqueue_go.RateLimit.{answered}
use taskqueue_go.UserStore.{
  run_all, exec, enable_task_for_user, is_task_enabled_for_user, get_users_with_enabled_task,
  completed,
}
use taskqueue_go.UserStore.Commands.{is_in}
use taskqueue_go.UserStore.Index.{IsIndexed, enable_task_for_user-IsIndexed}
use taskqueue_go.UserStore.Memory.{
  Store, memory_redis, memory_redis-IsRedis, empty_store, plain, run,
}
use taskqueue_go.Prelude.Dict.{lookup-nil}
use taskqueue_go.Scheduler.Keys.{TextKeys, IsTextKeys}
use taskqueue_go.Scheduler.{Calls, acquire_leadership, find_due_tasks, to_schedule}
use taskqueue_go.Scheduler.Leader.{acquire_leadership_shared}
use taskqueue_go.Scheduler.Due.{Due, user_of, find_due_tasks_iff}

abbrev Texts : Type 0
Texts = String → Option String

abbrev put : String → String → Texts → Texts
put key value s j = if j == key then some value else s j

abbrev put_new : String → String → Texts → Option String → Bool × Texts
put_new key value s none = (true, put key value s)
put_new key value s (some v) = (false, s)

abbrev pub memory_keys : TextKeys
memory_keys = record {
  State = Texts;
  get = λ key s. s key;
  set = put;
  set_nx = λ key value ttl s. put_new key value s (s key);
  expire = λ key ttl s j. if j == key && leb_ℤ ttl (pos 0) then none else s j;
}

put_new-other :
    (j key value : String) (s : Texts) (v : Option String)
    → j ≢ key
    → (put_new key value s v).1 j ≡ s j
put_new-other j key value s none differ = ground arith
put_new-other j key value s (some v) differ = refl

pub memory_keys-IsTextKeys : IsTextKeys memory_keys
memory_keys-IsTextKeys = record {
  set_nx-held = λ key value v ttl s held. rw held refl;
  set_nx-free = λ key value ttl s lives free. rw free (refl, ground arith);
  set_nx-other = λ j key value ttl s differ. put_new-other j key value s (s key) differ;
  get-expire = λ key ttl s lives. ground arith;
  get-expire_gone = λ key ttl s ends. ground arith;
  get-expire_other = λ j key ttl s other. ground arith;
  get-set = λ j key value s. refl;
}

abbrev pub all_answered : Calls
all_answered = record {
  set_nx_leader = answered;
  get_leader = answered;
  expire_leader = answered;
  get_last = λ id. answered;
  users_of = λ id. answered;
  set_last = λ id. answered;
}

abbrev pub nothing : Texts
nothing j = none

-- Two instances that call one after the other.
abbrev taken : Texts
taken = put "taskqueue:scheduler:leader" "leader" nothing

acquire_leadership_shared_example :
    ((acquire_leadership memory_keys all_answered "taskqueue:scheduler:leader" (pos 30) taken).0
      ≡ ok true)
    × ((acquire_leadership memory_keys all_answered "taskqueue:scheduler:leader" (pos 30) taken).1
          "taskqueue:scheduler:leader"
        ≡ some "leader")
acquire_leadership_shared_example =
    acquire_leadership_shared memory_keys memory_keys-IsTextKeys all_answered refl refl refl
      "taskqueue:scheduler:leader" (pos 30) taken (omega arith)
      (inr (ground (arith, eq_iff "taskqueue:scheduler:leader" "taskqueue:scheduler:leader")))

abbrev pub no_calendar : Calendar
no_calendar = record {
  Location = Unit {0};
  utc = tt;
  load_location = λ name. none;
  civil = λ loc t. record {
    year = pos 1;
    month = pos 1;
    day = pos 1;
    hours = pos 0;
    minutes = pos 0;
    seconds = pos 0;
    nanoseconds = pos 0;
  };
  date = λ c loc. pos 0;
}

abbrev pub sync : TaskType
sync = record {
  id = "sync";
  name = "Sync";
  description = "";
  interval = record { type = "hourly"; value = pos 1; timezone = "UTC"; at_time = none };
  timeout = pos 30;
  retries = pos 3;
  config = record { endpoint = "http://x"; method = "POST"; headers = []; max_duration = pos 30 };
}

abbrev pub store : Store
store =
    (enable_task_for_user memory_redis completed "2025-01-02T03:04:05Z" "ann" "sync" empty_store).1

pub store-IsIndexed : IsIndexed memory_redis memory_redis-IsRedis store
store-IsIndexed =
    enable_task_for_user-IsIndexed memory_redis memory_redis-IsRedis "2025-01-02T03:04:05Z" "ann"
      "sync" empty_store (record { agree = λ u t. ground (arith, lookup-nil {V = String} t) })

find_due_tasks_iff_example : (is_in "ann" (map user_of (to_schedule sync "ann" ∷ [])) ≡ true) ↔ (
    Due memory_keys no_calendar plain memory_redis memory_redis-IsRedis all_answered
      (pos 4_000_000_000_000)
      nothing
      store
      sync
      refl
      refl
    × (is_task_enabled_for_user memory_redis none "ann" "sync" store ≡ ok true))
unfolding find_due_tasks get_users_with_enabled_task enable_task_for_user exec run_all run is_due
    next_execution next_hourly string_dec taskqueue_go.Prelude.Int.◌+ℤ◌ taskqueue_go.GoTime.truncate
find_due_tasks_iff_example =
    find_due_tasks_iff memory_keys no_calendar plain memory_redis memory_redis-IsRedis all_answered
      (pos 4_000_000_000_000) nothing store sync refl refl "ann" (to_schedule sync "ann" ∷ [])
      store-IsIndexed (ground (arith, eq_iff "ann" "", eq_iff "sync" "")) refl
