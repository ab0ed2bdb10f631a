-- ===== src/Scheduler/Loop/Skips.antt =====
-- internal/scheduler/scheduler.go: the task types that findDueTasks passes over.
use taskqueue_go.Prelude.{
  ◌≡◌, ◌≢◌, ◌∙◌, refl, sym, false, ◌||◌, some, List, [], ◌∷◌, ◌++◌, map, String, if◌then◌else◌,
  ◌<>◌, arith, string_dec, Result, ok, err, ◌>>=◌, wrap,
}
use taskqueue_go.Prelude.Dict.{Dict, lookup}
use taskqueue_go.GoTime.{Time, Calendar}
use taskqueue_go.Models.Task.{TaskType, is_due}
use taskqueue_go.Registry.Loaded.{AllValid}
use taskqueue_go.Distributor.{TaskToSchedule}
use taskqueue_go.UserStore.Commands.{Redis, Formats, is_in}
use taskqueue_go.UserStore.{get_users_with_enabled_task}
use taskqueue_go.Scheduler.Keys.{TextKeys}
use taskqueue_go.Scheduler.{
  Calls, to_schedule, find_all, find_due_tasks, last_execution, read, call_error, last_exec_key,
  or_none,
}
use taskqueue_go.Scheduler.Update.{type_of}

is_in-types :
    (id : String) (task : TaskType) (users : List String)
    → id ≢ task.id
    → is_in id (map type_of (map (to_schedule task) users)) ≡ false
is_in-types id task [] other = refl
is_in-types id task (u ∷ users) other = ground (arith, is_in-types id task users other)

pub is_in-append :
    (id : String) (xs ys : List TaskToSchedule)
    → is_in id (map type_of (xs ++ ys)) ≡ (is_in id (map type_of xs) || is_in id (map type_of ys))
is_in-append id [] ys = refl
is_in-append id (x ∷ xs) ys = ground (arith, is_in-append id xs ys)

module _ (K : TextKeys) (cal : Calendar) (F : Formats) (R : Redis) (c : Calls) (now : Time)
    (k : K.State) (s : R.State) where
  of_users :
      {A : Type 0} (id : String) (task : TaskType) (stored : Result A)
      (users : A → Result (List String))
      → id ≢ task.id
      → is_in id (
          map type_of (
            or_none K cal F R
              (stored >>= (λ a. users a >>= (λ us. ok (map (to_schedule task) us))))))
        ≡ false
  of_users id task (err e) users other = refl
  of_users id task (ok a) users other = wanted (users a)
    where
      wanted :
          (us : Result (List String))
          → is_in id
              (map type_of (or_none K cal F R (us >>= (λ us. ok (map (to_schedule task) us)))))
            ≡ false
      wanted (err e) = refl
      wanted (ok us) = is_in-types id task us other

  found_types :
      (id : String) (task : TaskType)
      → id ≢ task.id
      → is_in id (map type_of (or_none K cal F R (find_due_tasks K cal F R c now k s task))) ≡ false
  unfolding find_due_tasks
  found_types id task other =
      of_users id task
        (wrap (λ e. "failed to get last execution time: " <> e)
          (read (c.get_last task.id) (K.get (last_exec_key task.id) k)))
        (λ stored.
          wrap (λ e. "failed to get users with task: " <> e)
            (if is_due cal task.interval (last_execution K cal F R stored) now
              then get_users_with_enabled_task R (call_error (c.users_of task.id)) task.id s
              else ok []))
        other

  -- A tick finds no task of a type, if none of it is due.
  pub find_all-skips :
      (id : String) (tasks : Dict TaskType)
      → AllValid tasks
      → ((task : TaskType)
          → lookup id tasks ≡ some task
          → find_due_tasks K cal F R c now k s task ≡ ok [])
      → is_in id (map type_of (find_all K cal F R c now k s tasks)) ≡ false
  unfolding find_all lookup
  find_all-skips id [] all early = refl
  find_all-skips id ((j, task) ∷ tasks) (valid, same, fresh, all) early = elim (string_dec id j) [
    | yes here ↦
        let none_due = early task (ground arith) in
        let rest = find_all-skips id tasks all (λ t h. absurd (ground (arith, fresh))) in
        rw none_due rest
    | no other ↦
        let first = found_types id task (λ e. other (e ∙ sym same)) in
        let rest = find_all-skips id tasks all (λ t h. early t (ground arith)) in
        rw is_in-append (ground arith)
  ]
