-- ===== src/Scheduler.antt =====
-- internal/scheduler/scheduler.go: one tick of the scheduler. Redis, the calendar and the clock are
-- arguments. New and the loop of Start are in Loop.
pub mod Keys
pub mod Leader
pub mod Due
pub mod Update
pub mod Tick
pub mod Loop
pub mod Tests
use taskqueue_go.Prelude.{
  ℕ, ◌<>◌, Bool, true, false, Option, none, some, List, [], ◌∷◌, ◌++◌, map, String, if◌then◌else◌,
  ◌==◌, Result, ok, err, ◌>>=◌, wrap, Failure,
}
use taskqueue_go.Prelude.Int.{ℤ}
use taskqueue_go.Prelude.Dict.{Dict}
use taskqueue_go.GoTime.{Time, Duration, Calendar, zero_time}
use taskqueue_go.Models.Task.{TaskType, is_due}
use taskqueue_go.RateLimit.{Transport, answered, refused, lost, carried_out}
use taskqueue_go.Queue.Backend.{MessageQueue, Codec}
use taskqueue_go.Registry.{TaskRegistry, get_all}
use taskqueue_go.UserStore.Commands.{Redis, Formats, is_in}
use taskqueue_go.UserStore.{get_users_with_enabled_task}
use taskqueue_go.Distributor
use taskqueue_go.Distributor.{TaskToSchedule, distribute_tasks}
use Keys.{TextKeys}

pub record Config : Type 0 where
  pub check_interval : Duration
  pub batch_size : ℤ  -- int
  pub distribution_window : Duration
  pub leader_election_ttl : Duration
  pub enable_leader_election : Bool

pub record Scheduler (Queue : Type 0) : Type 0 where
  pub config : Config
  pub registry : TaskRegistry
  pub distributor : Distributor.Distributor Queue
  pub leader_key : String

-- How the calls of one tick end; those of a task type come with its identifier.
pub record Calls : Type 0 where
  pub set_nx_leader : Transport
  pub get_leader : Transport
  pub expire_leader : Transport
  pub get_last : String → Transport
  pub users_of : String → Transport
  pub set_last : String → Transport

-- What a tick reads besides: the clock, and what the distributor draws.
pub record Draws : Type 0 where
  pub now : Time
  pub shuffle : List TaskToSchedule → List TaskToSchedule
  pub int63n : ℕ → ℕ → ℤ
  pub draw : ℕ → Distributor.Draw

abbrev pub call_error : Transport → Failure
call_error answered = none
call_error (refused e) = some e
call_error (lost e) = some e

abbrev pub read {ℓ} : {A : Type ℓ} → Transport → A → Result A
read answered a = ok a
read (refused e) a = err e
read (lost e) a = err e

abbrev pub last_exec_key : String → String
last_exec_key id = "taskqueue:schedule:" <> id

abbrev pub is_leader : Option String → Bool
is_leader none = false
is_leader (some value) = value == "leader"

abbrev pub to_schedule : TaskType → String → TaskToSchedule
to_schedule task user_id = record { task_type = task; user_id = user_id }

module _ (K : TextKeys) where
  -- The lease is extended; a failure of that is logged.
  abbrev pub extend : Transport → String → Duration → K.State → Result Bool × K.State
  extend answered key ttl s = (ok true, K.expire key ttl s)
  extend (refused e) key ttl s = (ok false, s)
  extend (lost e) key ttl s = (ok false, K.expire key ttl s)

  abbrev pub check_held :
      Transport → Transport → String → Duration → K.State → Result Bool × K.State
  check_held answered t key ttl s =
      if is_leader (K.get key s) then extend t key ttl s else (ok false, s)
  check_held (refused e) t key ttl s = (err e, s)
  check_held (lost e) t key ttl s = (err e, s)

  abbrev pub after_set_nx :
      Calls → String → Duration → K.State → Transport → Bool × K.State → Result Bool × K.State
  after_set_nx c key ttl s answered (won, s') =
      if won then (ok true, s') else check_held c.get_leader c.expire_leader key ttl s'
  after_set_nx c key ttl s (refused e) (won, s') = (err e, s)
  after_set_nx c key ttl s (lost e) (won, s') = (err e, s')

  -- acquireLeadership
  unfoldable pub acquire_leadership : Calls → String → Duration → K.State → Result Bool × K.State
  acquire_leadership c key ttl s =
      after_set_nx c key ttl s c.set_nx_leader (K.set_nx key "leader" ttl s)

  -- Whether the instance leads: always, where the election is switched off.
  abbrev pub lead : {Queue : Type 0} → Scheduler Queue → Calls → K.State → Result Bool × K.State
  lead sch c k =
      if sch.config.enable_leader_election
      then acquire_leadership c sch.leader_key sch.config.leader_election_ttl k
      else (ok true, k)

  -- The loop of updateLastExecutions; `seen` are the task types that were written.
  unfoldable pub update_from :
      Calls → String → List String → List TaskToSchedule → K.State → K.State
  update_from c stamp seen [] s = s
  update_from c stamp seen (task ∷ tasks) s =
      let id = task.task_type.id in
      let skipped = update_from c stamp seen tasks s in
      let written =
        update_from c stamp (id ∷ seen) tasks
          (carried_out (c.set_last id) s (K.set (last_exec_key id) stamp s)) in
      if is_in id seen then skipped else written

  unfoldable pub update_last_executions :
      Calls → String → List TaskToSchedule → K.State → Failure × K.State
  update_last_executions c stamp tasks s = (none, update_from c stamp [] tasks s)

  module _ (cal : Calendar) (F : Formats) (R : Redis) where
    abbrev pub parsed_or_zero : Option Time → Time
    parsed_or_zero none = zero_time
    parsed_or_zero (some t) = t

    -- A key that is not there counts as an empty text, and that as the zero time.
    abbrev pub last_execution : Option String → Time
    last_execution none = zero_time
    last_execution (some text) =
        if text == "" then zero_time else parsed_or_zero (F.parse_time text)

    -- findDueTasks
    unfoldable pub find_due_tasks :
        Calls → Time → K.State → R.State → TaskType → Result (List TaskToSchedule)
    find_due_tasks c now k s task = do
      stored ←
          wrap (λ e. "failed to get last execution time: " <> e)
            (read (c.get_last task.id) (K.get (last_exec_key task.id) k))
      users ←
          wrap (λ e. "failed to get users with task: " <> e)
            (if is_due cal task.interval (last_execution stored) now
              then get_users_with_enabled_task R (call_error (c.users_of task.id)) task.id s
              else ok [])
      ok (map (to_schedule task) users)

    -- Task types whose tasks cannot be found are logged and passed over.
    abbrev pub or_none : Result (List TaskToSchedule) → List TaskToSchedule
    or_none (ok tasks) = tasks
    or_none (err e) = []

    unfoldable pub find_all : Calls → Time → K.State → R.State → Dict TaskType → List TaskToSchedule
    find_all c now k s [] = []
    find_all c now k s ((id, task) ∷ tasks) =
        or_none (find_due_tasks c now k s task) ++ find_all c now k s tasks

    module _ (Q : MessageQueue) (J : Codec) where
      -- The failure, the keys and the queue after DistributeTasks.
      abbrev pub then_update :
          Calls
          → Time
          → List TaskToSchedule
          → K.State
          → Failure × Q.State
          → Failure × K.State × Q.State
      then_update c now tasks k (none, q) =
          let (failure, k') = update_last_executions c (F.format_time now) tasks k in (none, k', q)
      then_update c now tasks k (some e, q) = (some ("failed to distribute tasks: " <> e), k, q)

      abbrev pub schedule_found :
          Scheduler Q.Queue
          → Calls
          → Draws
          → List TaskToSchedule
          → K.State
          → Q.State
          → Failure × K.State × Q.State
      schedule_found sch c d [] k q = (none, k, q)
      schedule_found sch c d (task ∷ rest) k q =
          let tasks = task ∷ rest in
          then_update c d.now tasks k
            (distribute_tasks Q J sch.distributor d.shuffle d.int63n d.draw tasks d.now q)

      abbrev pub led :
          Scheduler Q.Queue
          → Calls
          → Draws
          → R.State
          → Q.State
          → Result Bool × K.State
          → Failure × K.State × Q.State
      led sch c d s q (err e, k) = (some ("leader election failed: " <> e), k, q)
      led sch c d s q (ok false, k) = (none, k, q)
      led sch c d s q (ok true, k) =
          schedule_found sch c d (find_all c d.now k s (get_all sch.registry)) k q

      -- checkAndScheduleTasks
      unfoldable pub check_and_schedule_tasks :
          Scheduler Q.Queue
          → Calls
          → Draws
          → R.State
          → K.State
          → Q.State
          → Failure × K.State × Q.State
      check_and_schedule_tasks sch c d s k q = led sch c d s q (lead sch c k)
