-- ===== src/Scheduler/Update.antt =====
-- internal/scheduler/scheduler.go: what updateLastExecutions writes.
use text.Mathlib.TextLemmas.{append_cancel_left}
use taskqueue_go.Prelude.{
  ◌≡◌, ◌≢◌, ap, some, List, [], ◌∷◌, map, String, if◌then◌else◌, ◌==◌, arith, string_dec,
}
use taskqueue_go.RateLimit.{answered}
use taskqueue_go.Distributor.{TaskToSchedule}
use taskqueue_go.UserStore.Commands.{is_in}
use taskqueue_go.Scheduler.Keys.{TextKeys, IsTextKeys}
use taskqueue_go.Scheduler.{Calls, update_from, update_last_executions, last_exec_key}

abbrev pub type_of : TaskToSchedule → String
type_of task = task.task_type.id

last_exec_key-test : (i j : String) → (last_exec_key i == last_exec_key j) ≡ (i == j)
last_exec_key-test i j = elim (string_dec i j) [
  | yes same ↦ ground (arith, ap last_exec_key same)
  | no differ ↦
      let apart : last_exec_key i ≢ last_exec_key j =
        λ e. differ (append_cancel_left "taskqueue:schedule:" i j e) in
      ground arith
]

module _ (K : TextKeys) (laws : IsTextKeys K) (c : Calls)
    (set : (id : String) → c.set_last id ≡ answered) where
  get-update_from :
      (stamp id : String) (seen : List String) (tasks : List TaskToSchedule) (k : K.State)
      → K.get (last_exec_key id) (update_from K c stamp seen tasks k) ≡ (
          if is_in id seen
          then K.get (last_exec_key id) k
          else if is_in id (map type_of tasks)
          then some stamp
          else K.get (last_exec_key id) k)
  unfolding update_from
  get-update_from stamp id seen [] k = ground arith
  get-update_from stamp id seen (task ∷ tasks) k = rw (set task.task_type.id) (
      ground (
        arith,
        get-update_from stamp id seen tasks k,
        get-update_from stamp id (task.task_type.id ∷ seen) tasks
            (K.set (last_exec_key task.task_type.id) stamp k),
        laws.get-set (last_exec_key id) (last_exec_key task.task_type.id) stamp k,
        last_exec_key-test id task.task_type.id,
      ))

  -- updateLastExecutions writes the stamp for the task types of the tasks, and nothing for others.
  pub get-update_last_executions :
      (stamp id : String) (tasks : List TaskToSchedule) (k : K.State)
      → K.get (last_exec_key id) (update_last_executions K c stamp tasks k).1
        ≡ (if is_in id (map type_of tasks) then some stamp else K.get (last_exec_key id) k)
  unfolding update_last_executions
  get-update_last_executions stamp id tasks k = get-update_from stamp id [] tasks k
