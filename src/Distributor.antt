-- ===== src/Distributor.antt =====
-- internal/distributor/distributor.go: spreads jobs over the distribution window. Randomness
-- (rand.Shuffle, rand.Int63n), the clock and the identifiers of package uuid are arguments.
pub mod Slots
pub mod Jobs
pub mod Tests
use taskqueue_go.Prelude.{
  ℕ, zero, suc, ◌+◌, ◌<◌, Bool, true, false, Option, none, some, List, [], ◌∷◌, String,
  if◌then◌else◌, Failure, length,
}
use taskqueue_go.Prelude.Int.{ℤ, pos, pos_part, ltb_ℤ, leb_ℤ, quot_ℕ}
use taskqueue_go.Prelude.Int64.{add64, mul64}
use taskqueue_go.GoTime.{Time, Duration, second, add}
use taskqueue_go.Models.Job.{Job, new_job}
use taskqueue_go.Models.Task.{TaskType}
use taskqueue_go.Queue.Backend.{MessageQueue, Codec}
use taskqueue_go.Queue.{Client, push}

-- The interface TaskToSchedule has one implementation, the scheduler's record of the same name.
pub record TaskToSchedule : Type 0 where
  pub task_type : TaskType
  pub user_id : String

pub record Distributor (Queue : Type 0) : Type 0 where
  pub distribution_window : Duration
  pub queue_client : Client Queue

unfoldable pub new : {Queue : Type 0} → Duration → Client Queue → Distributor Queue
new window client = record { distribution_window = window; queue_client = client }

-- What the i-th job draws: identifiers for the job and for its message, and the clock's reading.
pub record Draw : Type 0 where
  pub job_uuid : String
  pub message_uuid : String
  pub now : Time

-- The time between two slots, at least a second.
abbrev pub slot_interval : Duration → ℕ → Duration
slot_interval window task_count =
    let interval = quot_ℕ window task_count in if ltb_ℤ interval second then second else interval

-- slots[i] = time.Duration(i) * interval, from the slot i on
unfoldable pub even_slots : Duration → ℕ → ℕ → List Duration
even_slots interval i zero = []
even_slots interval i (suc left) = mul64 (pos i) interval ∷ even_slots interval (suc i) left

-- slots[i] += rand.Int63n(jitterRange), from the slot i on; `int63n i` is the i-th draw.
unfoldable pub add_jitter : (ℕ → ℕ → ℤ) → ℕ → ℕ → List Duration → List Duration
add_jitter int63n range i [] = []
add_jitter int63n range i (slot ∷ slots) =
    add64 slot (int63n i range) ∷ add_jitter int63n range (suc i) slots

-- calculateTimeSlots
unfoldable pub calculate_time_slots : (ℕ → ℕ → ℤ) → Duration → ℕ → List Duration
calculate_time_slots int63n window zero = []
calculate_time_slots int63n window (suc zero) = pos 0 ∷ []
calculate_time_slots int63n window (suc (suc k)) =
    let interval = slot_interval window (suc (suc k)) in
    let slots = even_slots interval 0 (suc (suc k)) in
    let jitter_range = quot_ℕ interval 4 in
    if ltb_ℤ (pos 0) jitter_range then add_jitter int63n (pos_part jitter_range) 0 slots else slots

-- EstimateDistributionTime
unfoldable pub estimate_distribution_time : Duration → ℤ → Duration
estimate_distribution_time window task_count =
    let interval = quot_ℕ window (pos_part task_count) in
    if leb_ℤ task_count (pos 1)
    then pos 0
    else if ltb_ℤ interval second
    then mul64 task_count second
    else window

-- The loop that creates the jobs, from the i-th on. Where the slots run out the source would
-- panic: there are as many as tasks.
unfoldable pub create_jobs :
    (ℕ → Draw) → Time → ℕ → List TaskToSchedule → List Duration → List (Draw × Job)
create_jobs draw base_time i [] slots = []
create_jobs draw base_time i (task ∷ tasks) [] = []
create_jobs draw base_time i (task ∷ tasks) (slot ∷ slots) =
    let d = draw i in
    (d, new_job d.job_uuid d.now task.task_type.id task.user_id (add base_time slot))
    ∷ create_jobs draw base_time (suc i) tasks slots

module _ (Q : MessageQueue) (J : Codec) where
  -- The loop that pushes them: a push that fails is logged and passed over.
  unfoldable pub push_jobs : Client Q.Queue → List (Draw × Job) → Q.State → Q.State
  push_jobs c [] s = s
  push_jobs c ((d, job) ∷ jobs) s = push_jobs c jobs (push Q J c d.message_uuid (some job) s).1

  -- DistributeTasks; `shuffle` is the order that rand.Shuffle brings about.
  unfoldable pub distribute_tasks :
      Distributor Q.Queue
      → (List TaskToSchedule → List TaskToSchedule)
      → (ℕ → ℕ → ℤ)
      → (ℕ → Draw)
      → List TaskToSchedule
      → Time
      → Q.State
      → Failure × Q.State
  distribute_tasks d shuffle int63n draw [] base_time s = (none, s)
  distribute_tasks d shuffle int63n draw (task ∷ rest) base_time s =
      let tasks = task ∷ rest in
      let time_slots = calculate_time_slots int63n d.distribution_window (length tasks) in
      let jobs = create_jobs draw base_time 0 (shuffle tasks) time_slots in
      (none, push_jobs d.queue_client jobs s)

-- GetDistributionWindow and SetDistributionWindow
unfoldable pub get_distribution_window : {Queue : Type 0} → Distributor Queue → Duration
get_distribution_window d = d.distribution_window

unfoldable pub set_distribution_window :
    {Queue : Type 0} → Distributor Queue → Duration → Distributor Queue
set_distribution_window d window = record d { distribution_window = window }
