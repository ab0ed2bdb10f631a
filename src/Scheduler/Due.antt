-- ===== src/Scheduler/Due.antt =====
-- internal/scheduler/scheduler.go: which users' tasks a tick finds.
use taskqueue_go.Prelude.{
  ◌≡◌, ◌↔◌, ◌≢◌, ◌∙◌, refl, sym, ap, subst, inl, inr, ◌<>◌, wrap, ◌>>=◌, Bool-cases, Bool, true,
  false, none, List, [], ◌∷◌, map, String, ok, if◌then◌else◌, >>=-eq-ok, wrap-eq-ok,
}
use taskqueue_go.GoTime.{Time, Calendar}
use taskqueue_go.Models.Task.{TaskType, is_due}
use taskqueue_go.RateLimit.{answered}
use taskqueue_go.Distributor.{TaskToSchedule}
use taskqueue_go.UserStore.Commands.{Redis, Formats, IsRedis, is_in}
use taskqueue_go.UserStore.{empty_ids, is_task_enabled_for_user, get_users_with_enabled_task}
use taskqueue_go.UserStore.Index.{IsIndexed, get_users_with_enabled_task_iff}
use taskqueue_go.Scheduler.Keys.{TextKeys}
use taskqueue_go.Scheduler.{Calls, find_due_tasks, last_execution, last_exec_key, to_schedule}

abbrev pub user_of : TaskToSchedule → String
user_of task = task.user_id

users_of_map :
    (task : TaskType) (users : List String) → map user_of (map (to_schedule task) users) ≡ users
users_of_map task [] = refl
users_of_map task (u ∷ users) = ap (λ us. u ∷ us) (users_of_map task users)

false≢true : false ≢ true
false≢true e = cc

module _ (K : TextKeys) (cal : Calendar) (F : Formats) (R : Redis) (laws : IsRedis R) (c : Calls)
    (now : Time) (k : K.State) (s : R.State) (task : TaskType) (got : c.get_last task.id ≡ answered)
    (asked : c.users_of task.id ≡ answered) where
  abbrev pub Due : Type 0
  Due =
      is_due cal task.interval (last_execution K cal F R (K.get (last_exec_key task.id) k)) now
      ≡ true

  -- Whether the task type is due.
  abbrev due : Bool
  due = is_due cal task.interval (last_execution K cal F R (K.get (last_exec_key task.id) k)) now

  find_due_tasks_by :
      (b : Bool)
      → due ≡ b
      → find_due_tasks K cal F R c now k s task ≡ (
          wrap
            (λ e. "failed to get users with task: " <> e)
            (if b then get_users_with_enabled_task R none task.id s else ok [])
          >>= λ users. ok (map (to_schedule task) users))
  unfolding find_due_tasks
  find_due_tasks_by b same = rw (got, asked, same) refl

  -- If the index agrees with the users' hashes, then findDueTasks finds a task for a user exactly
  -- when the task type is due and IsTaskEnabledForUser says yes. Redis answers each call, and no
  -- identifier is empty.
  pub find_due_tasks_iff :
      (u : String) (tasks : List TaskToSchedule)
      → IsIndexed R laws s
      → empty_ids u task.id ≡ false
      → find_due_tasks K cal F R c now k s task ≡ ok tasks
      → (is_in u (map user_of tasks) ≡ true)
        ↔ (Due × (is_task_enabled_for_user R none u task.id s ≡ ok true))
  find_due_tasks_iff u tasks h given e = elim (Bool-cases due) [
    | inl is_due_now ↦
        let (users, w, m) = >>=-eq-ok _ _ (sym (find_due_tasks_by true is_due_now) ∙ e) in
        let iff =
          get_users_with_enabled_task_iff R laws u task.id s users h given (wrap-eq-ok _ _ w) in
        let same : map (to_schedule task) users ≡ tasks = cc m in
        let names : map user_of tasks ≡ users =
          sym (ap (map user_of) same) ∙ users_of_map task users in
        (
          λ i. (is_due_now, iff.0 (subst (λ us. is_in u us ≡ true) names i)),
          λ (_, yes_it_is). subst (λ us. is_in u us ≡ true) (sym names) (iff.1 yes_it_is),
        )
    | inr not_yet ↦
        let none_found : ok [] ≡ ok tasks = sym (find_due_tasks_by false not_yet) ∙ e in
        let empty : [] ≡ tasks = cc none_found in
        (
          λ i. absurd (false≢true (subst (λ ts. is_in u (map user_of ts) ≡ true) (sym empty) i)),
          λ (now_due, _). absurd (false≢true (sym not_yet ∙ now_due)),
        )
  ]
