-- ===== src/Scheduler/Tick/Served.antt =====
-- internal/scheduler/scheduler.go: a tick serves every user whose task is due.
use mathlib.Core.List.{Mem, mem-cons_of_mem, mem-cons_self, Perm}
use mathlib.Core.List.Perm
use taskqueue_go.Prelude.{
  ◌≡◌, ◌*◌, ◌^◌, ◌<◌, refl, subst, true, false, none, some, List, [], ◌∷◌, ◌++◌, map, String, ◌==◌,
  arith, string_dec, ok, length,
}
use taskqueue_go.Prelude.Dict.{Dict, lookup}
use taskqueue_go.GoTime.{Time, Calendar}
use taskqueue_go.Models.Job.{Job}
use taskqueue_go.Models.Task.{TaskType}
use taskqueue_go.RateLimit.{answered}
use taskqueue_go.Queue.Backend.{MessageQueue, Codec}
use taskqueue_go.Registry.{get_all}
use taskqueue_go.Distributor.{TaskToSchedule, Draw}
use taskqueue_go.Distributor.Slots.{IsRandom, interval_ns}
use taskqueue_go.Queue.Sending.{SentAll}
use taskqueue_go.Distributor.Jobs.{to_send, task_key, job_key}
use taskqueue_go.UserStore.Commands.{Redis, Formats, IsRedis, is_in, set_key, task_users}
use taskqueue_go.UserStore.{empty_ids, is_task_enabled_for_user, get_users_with_enabled_task}
use taskqueue_go.UserStore.Index.{IsIndexed, get_users_with_enabled_task_iff}
use taskqueue_go.Scheduler.Keys.{TextKeys}
use taskqueue_go.Scheduler.{
  Scheduler, Calls, Draws, lead, find_all, find_due_tasks, or_none, to_schedule,
}
use taskqueue_go.Scheduler.Due.{Due}
use taskqueue_go.Scheduler.Tick.{found, ticked, ticked_sent}

mem-to_schedule :
    (task : TaskType) (u : String) (users : List String)
    → is_in u users ≡ true
    → (rest : List TaskToSchedule)
    → Mem (task.id, u) (map task_key (map (to_schedule task) users ++ rest))
mem-to_schedule task u [] i rest = absurd (ground arith)
mem-to_schedule task u (v ∷ users) i rest = elim (string_dec u v) [
  | yes same ↦
      subst
        (λ w. Mem (task.id, u) ((task.id, w) ∷ map task_key (map (to_schedule task) users ++ rest)))
        same mem-cons_self
  | no other ↦ mem-cons_of_mem _ (mem-to_schedule task u users (ground arith) rest)
]

mem-skip :
    (key : String × String) (xs ys : List TaskToSchedule)
    → Mem key (map task_key ys)
    → Mem key (map task_key (xs ++ ys))
mem-skip key [] ys m = m
mem-skip key (x ∷ xs) ys m = mem-cons_of_mem _ (mem-skip key xs ys m)

module _ (K : TextKeys) (cal : Calendar) (F : Formats) (R : Redis) (c : Calls) (now : Time)
    (k : K.State) (s : R.State) where
  mem-find_all :
      (task : TaskType) (u : String) (users : List String) (tasks : Dict TaskType)
      → lookup task.id tasks ≡ some task
      → find_due_tasks K cal F R c now k s task ≡ ok (map (to_schedule task) users)
      → is_in u users ≡ true
      → Mem (task.id, u) (map task_key (find_all K cal F R c now k s tasks))
  unfolding find_all lookup
  mem-find_all task u users [] known found_due i = absurd (ground arith)
  mem-find_all task u users ((j, other) ∷ tasks) known found_due i = elim (string_dec task.id j) [
    | yes here ↦
        let same : other ≡ task = ground arith in
        rw (same, found_due) (mem-to_schedule task u users i _)
    | no later ↦
        mem-skip _ (or_none K cal F R (find_due_tasks K cal F R c now k s other)) _
          (mem-find_all task u users tasks (ground arith) found_due i)
  ]

module _ (K : TextKeys) (cal : Calendar) (F : Formats) (R : Redis) (Q : MessageQueue) (J : Codec)
    (sch : Scheduler Q.Queue) (c : Calls) (d : Draws) (s : R.State) (k k' : K.State) (q : Q.State)
    (leads : lead K sch c k ≡ (ok true, k')) where
  -- A tick of an instance that leads sends the queue a job for each user and task that is enabled for the user, as
  -- IsTaskEnabledForUser says, where the registry knows the task's type and it is due. Redis answers
  -- the reads for that type, the index agrees with the users' hashes, no identifier is empty, the
  -- shuffle is a permutation, the jitter is drawn from its range, and the window's intervals fit a
  -- Duration.
  pub due_tasks_served :
      (laws : IsRedis R) (task : TaskType) (u : String) (got : c.get_last task.id ≡ answered)
      (asked : c.users_of task.id ≡ answered)
      → IsIndexed R laws s
      → empty_ids u task.id ≡ false
      → lookup task.id (get_all sch.registry) ≡ some task
      → Due K cal F R laws c d.now k' s task got asked
      → is_task_enabled_for_user R none u task.id s ≡ ok true
      → Perm
          (d.shuffle (found K cal F R Q J sch c d s k k' q leads))
          (found K cal F R Q J sch c d s k k' q leads)
      → IsRandom d.int63n
      → length (found K cal F R Q J sch c d s k k' q leads)
          * interval_ns sch.distributor.distribution_window
              (length (found K cal F R Q J sch c d s k k' q leads))
        < 2 ^ 63
      → (jobs : List (Draw × Job)) × ((ticked K cal F R Q J sch c d s k k' q leads).0 ≡ none)
        × SentAll Q J sch.distributor.queue_client
            (map to_send jobs)
            q
            (ticked K cal F R Q J sch c d s k k' q leads).2
        × Mem (task.id, u) (map job_key jobs)
  unfolding get_users_with_enabled_task find_due_tasks
  due_tasks_served laws task u got asked h given known due enabled perm random fits =
      let (jobs, fine, sent, same, planned) =
        ticked_sent K cal F R Q J sch c d s k k' q leads perm random fits in
      let named : (task.id == "") ≡ false = ground arith in
      let users = R.smembers (set_key (task_users task.id)) s in
      let listed : get_users_with_enabled_task R none task.id s ≡ ok users = rw named refl in
      let wanted =
        (get_users_with_enabled_task_iff R laws u task.id s users h given listed).1 enabled in
      let found_due : find_due_tasks K cal F R c d.now k' s task
          ≡ ok (map (to_schedule task) users) =
        rw (got, asked, due, named) refl in
      (
        jobs,
        fine,
        sent,
        (Perm.mem_iff same).1 (
            mem-find_all K cal F R c d.now k' s task u users (get_all sch.registry) known found_due
              wanted),
      )
