-- ===== src/Distributor/Tests.antt =====
-- internal/distributor/distributor.go: runs, and the theorems at concrete data.
use mathlib.Core.List.{Perm}
use mathlib.Core.List.Perm
use taskqueue_go.Prelude.{ℕ, ◌-◌, ◌≡◌, refl, none, List, [], ◌∷◌, arith, All, map}
use taskqueue_go.Prelude.Int.{ℤ, pos, ◌*ℤ◌, ◌+ℤ◌}
use taskqueue_go.Prelude.Int64.{mul64, add64, wrap64}
use taskqueue_go.GoTime.{Duration}
use taskqueue_go.Models.Task.{TaskType}
use taskqueue_go.Queue.Memory.{memory_queue, Waiting}
use taskqueue_go.Queue.Sending.{SentAll}
use taskqueue_go.Queue.Tests.{client, codec}
use taskqueue_go.Distributor.{
  Distributor, TaskToSchedule, Draw, calculate_time_slots, even_slots, add_jitter,
  estimate_distribution_time, distribute_tasks,
}
use taskqueue_go.Models.Job.{Job}
use taskqueue_go.Distributor.Slots.{IsRandom}
use taskqueue_go.Distributor.Jobs.{IsPlanned, to_send, job_key, task_key, distribute_tasks_lem}

-- A generator that always draws the same, one less than the range.
abbrev pub greatest : ℕ → ℕ → ℤ
greatest i r = pos (r - 1)

pub greatest-IsRandom : IsRandom greatest
greatest-IsRandom = record { in_range = λ i r h. (r - 1, refl, omega arith) }

-- Three tasks in twelve seconds: a slot every four seconds, with less than a second of jitter.
abbrev window : Duration
window = pos 12_000_000_000

three_slots :
    calculate_time_slots greatest window 3
    ≡ pos 999_999_999 ∷ pos 4_999_999_999 ∷ pos 8_999_999_999 ∷ []
unfolding calculate_time_slots even_slots add_jitter mul64 add64 wrap64 ◌*ℤ◌ ◌+ℤ◌
three_slots = refl

abbrev pub sync : TaskType
sync = record {
  id = "sync";
  name = "Sync";
  description = "";
  interval = record { type = "hourly"; value = pos 1; timezone = "UTC"; at_time = none };
  timeout = pos 1_000_000_000;
  retries = pos 3;
  config = record {
    endpoint = "http://localhost";
    method = "POST";
    headers = [];
    max_duration = pos 1_000_000_000;
  };
}

abbrev tasks : List TaskToSchedule
tasks =
    record { task_type = sync; user_id = "ann" } ∷ record { task_type = sync; user_id = "bob" } ∷ []

abbrev swapped : List TaskToSchedule → List TaskToSchedule
swapped (a ∷ b ∷ rest) = b ∷ a ∷ rest
swapped ts = ts

abbrev drawn : ℕ → Draw
drawn i = record { job_uuid = "j"; message_uuid = "m"; now = pos 5 }

abbrev distributor : Distributor (Unit {0})
distributor = record { distribution_window = window; queue_client = client }

distribute_tasks_example :
    (jobs : List (Draw × Job)) × (s' : Waiting) × (distribute_tasks memory_queue codec distributor
        swapped greatest drawn tasks
        (pos 100)
        []
      ≡ (none, s'))
    × SentAll memory_queue codec client (map to_send jobs) [] s'
    × Perm (map job_key jobs) (map task_key tasks)
    × All (IsPlanned (pos 100) (estimate_distribution_time window (pos 2))) jobs
distribute_tasks_example =
    distribute_tasks_lem memory_queue codec distributor swapped greatest drawn tasks (pos 100) []
      (Perm.swap _ _ []) greatest-IsRandom (omega arith)
